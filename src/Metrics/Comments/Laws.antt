-- ===== src/Metrics/Comments/Laws.antt =====
-- Which lines are comment lines and which are marked NOSONAR.
use sonar_js.Prelude.{
  ℕ, ◌≡◌, ◌∙◌, Bool, false, none, some, List, [], ◌∷◌, Text, is_empty, ◌||◌, ◌&&◌, not, leb, has,
  arith, Bool-cases, inl, inr, Option-cases,
}
use sonar_js.Metrics.Tokens.{Comment, SourceCode}
use sonar_js.Metrics.Lines.Laws.{
  has-add_lines, has-sort, Distinct, Increasing, add_lines-Distinct, sort-Increasing,
}
use sonar_js.Metrics.Comments.{
  CommentLines, comment_value, is_nosonar, add_comment, add_comments, selected, find_comment_lines,
}

-- a comment covers a line
pub covers : Comment → ℕ → Bool
covers comment x = elim comment.loc [
  | none ↦ false
  | some loc ↦ leb loc.start.line x && leb x loc.end.line
]

module _ (to_upper : Text → Text) where
  -- some comment that begins with NOSONAR covers the line
  abbrev pub marks : List Comment → ℕ → Bool
  marks [] x = false
  marks (c ∷ cs) x = (is_nosonar to_upper c.value && covers c x) || marks cs x

  -- some other comment that is not blank covers the line
  abbrev pub speaks : List Comment → ℕ → Bool
  speaks [] x = false
  speaks (c ∷ cs) x =
      (not (is_nosonar to_upper c.value) && (not (is_empty (comment_value c.value)) && covers c x))
      || speaks cs x

  add_comment_lem :
      (lines : CommentLines) (c : Comment) (x : ℕ)
      → (has (add_comment to_upper lines c).nosonar_lines x
          ≡ (has lines.nosonar_lines x || (is_nosonar to_upper c.value && covers c x)))
        × (has (add_comment to_upper lines c).comment_lines x ≡ (
            has lines.comment_lines x
            || (not (is_nosonar to_upper c.value)
                && (not (is_empty (comment_value c.value)) && covers c x))))
  unfolding add_comment covers
  add_comment_lem lines c x = elim (Option-cases c.loc) [
    | inl e ↦ ground arith
    | inr (loc, e) ↦ ground (
      arith,
      has-add_lines loc.start.line loc.end.line x lines.nosonar_lines,
      has-add_lines loc.start.line loc.end.line x lines.comment_lines,
    )
  ]

  add_comments_lem :
      (lines : CommentLines) (cs : List Comment) (x : ℕ)
      → (has (add_comments to_upper lines cs).nosonar_lines x
          ≡ (has lines.nosonar_lines x || marks cs x))
        × (has (add_comments to_upper lines cs).comment_lines x
            ≡ (has lines.comment_lines x || speaks cs x))
  unfolding add_comments
  add_comments_lem lines [] x = ground arith
  add_comments_lem lines (c ∷ cs) x =
      ground
        (arith, add_comments_lem (add_comment to_upper lines c) cs x, add_comment_lem lines c x)

  add_comment-Distinct :
      (lines : CommentLines) (c : Comment)
      → Distinct lines.nosonar_lines
      → Distinct lines.comment_lines
      → Distinct (add_comment to_upper lines c).nosonar_lines
        × Distinct (add_comment to_upper lines c).comment_lines
  unfolding add_comment
  add_comment-Distinct lines c p q = elim (Option-cases c.loc) [
    | inl e ↦ rw (e) (p, q)
    | inr (loc, e) ↦ elim (Bool-cases (is_nosonar to_upper c.value)) [
      | inl mark ↦
          rw (e) (rw mark (add_lines-Distinct loc.start.line loc.end.line lines.nosonar_lines p, q))
      | inr no_mark ↦ elim (Bool-cases (is_empty (comment_value c.value))) [
        | inl blank ↦ rw (e) (rw no_mark (rw blank (p, q)))
        | inr text ↦ rw (e) (
            rw no_mark
              (rw text (p, add_lines-Distinct loc.start.line loc.end.line lines.comment_lines q)))
      ]
    ]
  ]

  add_comments-Distinct :
      (lines : CommentLines) (cs : List Comment)
      → Distinct lines.nosonar_lines
      → Distinct lines.comment_lines
      → Distinct (add_comments to_upper lines cs).nosonar_lines
        × Distinct (add_comments to_upper lines cs).comment_lines
  unfolding add_comments
  add_comments-Distinct lines [] p q = (p, q)
  add_comments-Distinct lines (c ∷ cs) p q =
      let (p', q') = add_comment-Distinct lines c p q in
      add_comments-Distinct (add_comment to_upper lines c) cs p' q'

-- Both arrays are strictly increasing. A line is a NOSONAR line exactly if a comment that was
-- selected and begins with NOSONAR covers it, and a comment line exactly if a selected comment
-- covers it that neither begins so nor is blank.
pub find_comment_lines_lem :
    (to_upper : Text → Text) (source : SourceCode) (ignore : Bool)
    → Increasing (find_comment_lines to_upper source ignore).nosonar_lines
      × Increasing (find_comment_lines to_upper source ignore).comment_lines
      × ((x : ℕ)
          → (has (find_comment_lines to_upper source ignore).nosonar_lines x
              ≡ marks to_upper (selected source ignore) x)
            × (has (find_comment_lines to_upper source ignore).comment_lines x
                ≡ speaks to_upper (selected source ignore) x))
unfolding find_comment_lines
find_comment_lines_lem to_upper source ignore =
    let start : CommentLines = record { comment_lines = []; nosonar_lines = [] } in
    let lines = add_comments to_upper start (selected source ignore) in
    let (p, q) = add_comments-Distinct to_upper start (selected source ignore) tt tt in
    (
      sort-Increasing lines.nosonar_lines p,
      sort-Increasing lines.comment_lines q,
      λ x.
          let (a, b) = add_comments_lem to_upper start (selected source ignore) x in
          (has-sort lines.nosonar_lines x ∙ a, has-sort lines.comment_lines x ∙ b),
    )
