-- ===== src/Metrics/Symbols/Laws.antt =====
-- Braces and tags are paired with their partners.
use mathlib.Core.List.{append_assoc, append-nil}
use sonar_js.Prelude.{some, List, [], ◌∷◌, ◌++◌, ◌≡◌, refl, sym, ap, ◌∙◌}
use sonar_js.Metrics.Tokens.{Token}
use sonar_js.Metrics.Symbols.{
  SymbolHighlight, Matching, pair, Kind, kind_of, curly_open, curly_close, tag_open, self_closing,
  end_tag, other, match_token, match_tokens,
}

-- Well nested token lists: blocks in braces, elements with an end tag, and self-closing tags.
pub data Nested : List Token → Type 0 where
  empty : Nested []
  plain : (t : Token) {ts : List Token} → kind_of t ≡ other → Nested ts → Nested (t ∷ ts)
  block :
      (o c : Token) {body rest : List Token}
      → kind_of o ≡ curly_open
      → kind_of c ≡ curly_close
      → Nested body
      → Nested rest
      → Nested (o ∷ (body ++ c ∷ rest))
  element :
      (o c : Token) {body rest : List Token}
      → kind_of o ≡ tag_open
      → kind_of c ≡ end_tag
      → Nested body
      → Nested rest
      → Nested (o ∷ (body ++ c ∷ rest))
  void :
      (o c : Token) {body rest : List Token}
      → kind_of o ≡ tag_open
      → kind_of c ≡ self_closing
      → Nested body
      → Nested rest
      → Nested (o ∷ (body ++ c ∷ rest))

-- The pairs of partners, in the order of the closing tokens.
pub pairs : {ts : List Token} → Nested ts → List SymbolHighlight
pairs empty = []
pairs (plain t k n) = pairs n
pairs (block o c k l n m) = pairs n ++ pair o c ∷ pairs m
pairs (element o c k l n m) = pairs n ++ pair o c ∷ pairs m
pairs (void o c k l n m) = pairs n ++ pairs m

match_tokens_step :
    (s s' : Matching) (t : Token) (ts : List Token) (kind : Kind)
    → kind_of t ≡ kind
    → match_token kind s t ≡ some s'
    → match_tokens s (t ∷ ts) ≡ match_tokens s' ts
unfolding match_tokens
match_tokens_step s s' t ts kind k e = rw (k, match_tokens) (rw (e, match_tokens) refl)

-- a matching with other highlights
abbrev with_result : Matching → List SymbolHighlight → Matching
with_result s r = record s { result = r }

regroup :
    (a b d : List SymbolHighlight) (p : SymbolHighlight)
    → (a ++ b) ++ p ∷ [] ++ d ≡ a ++ (b ++ p ∷ d)
regroup a b d p = simp append_assoc

match_tokens-Nested :
    {ts : List Token} (n : Nested ts) (s : Matching) (more : List Token)
    → match_tokens s (ts ++ more) ≡ match_tokens (with_result s (s.result ++ pairs n)) more
unfolding match_token pairs
match_tokens-Nested empty s more =
    ap (λ r. match_tokens (with_result s r) more) (sym (append-nil s.result))
match_tokens-Nested (plain t {ts} k n) s more =
    match_tokens_step s s t (ts ++ more) other k refl ∙ match_tokens-Nested n s more
match_tokens-Nested (block o c {body} {rest} k l n m) s more =
    let s1 = record s { open_curly_braces = o ∷ s.open_curly_braces } in
    let s2 = with_result s1 (s.result ++ pairs n) in
    let s3 = with_result s ((s.result ++ pairs n) ++ pair o c ∷ []) in
    ap (λ ts. match_tokens s (o ∷ ts)) (append_assoc body (c ∷ rest) more)
    ∙ match_tokens_step s s1 o (body ++ (c ∷ (rest ++ more))) curly_open k refl
    ∙ match_tokens-Nested n s1 (c ∷ (rest ++ more))
    ∙ match_tokens_step s2 s3 c (rest ++ more) curly_close l refl
    ∙ match_tokens-Nested m s3 more
    ∙ ap (λ r. match_tokens (with_result s r) more)
        (regroup s.result (pairs n) (pairs m) (pair o c))
match_tokens-Nested (element o c {body} {rest} k l n m) s more =
    let s1 = record s { open_html_tags = o ∷ s.open_html_tags } in
    let s2 = with_result s1 (s.result ++ pairs n) in
    let s3 = with_result s ((s.result ++ pairs n) ++ pair o c ∷ []) in
    ap (λ ts. match_tokens s (o ∷ ts)) (append_assoc body (c ∷ rest) more)
    ∙ match_tokens_step s s1 o (body ++ (c ∷ (rest ++ more))) tag_open k refl
    ∙ match_tokens-Nested n s1 (c ∷ (rest ++ more))
    ∙ match_tokens_step s2 s3 c (rest ++ more) end_tag l refl
    ∙ match_tokens-Nested m s3 more
    ∙ ap (λ r. match_tokens (with_result s r) more)
        (regroup s.result (pairs n) (pairs m) (pair o c))
match_tokens-Nested (void o c {body} {rest} k l n m) s more =
    let s1 = record s { open_html_tags = o ∷ s.open_html_tags } in
    let s2 = with_result s1 (s.result ++ pairs n) in
    let s3 = with_result s (s.result ++ pairs n) in
    ap (λ ts. match_tokens s (o ∷ ts)) (append_assoc body (c ∷ rest) more)
    ∙ match_tokens_step s s1 o (body ++ (c ∷ (rest ++ more))) tag_open k refl
    ∙ match_tokens-Nested n s1 (c ∷ (rest ++ more))
    ∙ match_tokens_step s2 s3 c (rest ++ more) self_closing l refl
    ∙ match_tokens-Nested m s3 more
    ∙ ap (λ r. match_tokens (with_result s r) more) (append_assoc s.result (pairs n) (pairs m))

-- On well nested tokens the loop raises no TypeError, leaves both stacks as they were, and adds one
-- highlight for each brace or end tag, whose declaration is the partner that opened it.
pub match_tokens-pairs :
    {ts : List Token} (n : Nested ts) (s : Matching)
    → match_tokens s ts ≡ some (with_result s (s.result ++ pairs n))
unfolding match_tokens
match_tokens-pairs {ts} n s = ap (match_tokens s) (sym (append-nil ts)) ∙ match_tokens-Nested n s []
