-- ===== src/Linter/Issues/EncodingTests.antt =====
-- A text format for encoded messages that can be read back, and a message that goes through it.
use sonar_js.Prelude.{
  ℕ, zero, suc, ◌≡◌, refl, ap, true, Option, none, some, List, [], ◌∷◌, map, Text, length, codes,
}
use sonar_js.Metrics.Ast.{SourceLocation}
use sonar_js.Linter.Results.{ok}
use sonar_js.Linter.Rules.{RuleModule, one, has_sonar_runtime_option}
use sonar_js.Linter.Issues.{
  Issue, IssueLocation, EncodedMessage, to_encoded_message, decode_sonar_runtime, pos,
}
use sonar_js.Linter.Issues.Encoding.{Encoded, encode_decode}

-- A text ends with 0, and its units are written as their successors.
abbrev write_text : Text → Text → Text
write_text [] rest = 0 ∷ rest
write_text (c ∷ t) rest = suc c ∷ write_text t rest

abbrev read_text : Text → Text × Text
read_text [] = ([], [])
read_text (zero ∷ rest) = ([], rest)
read_text (suc c ∷ s) = (c ∷ (read_text s).0, (read_text s).1)

read_write_text : (t rest : Text) → read_text (write_text t rest) ≡ (t, rest)
read_write_text [] rest = refl
read_write_text (c ∷ t) rest = rw (read_write_text t rest) refl

abbrev write_option : Option Text → Text → Text
write_option none rest = 0 ∷ rest
write_option (some t) rest = 1 ∷ write_text t rest

abbrev read_option : Text → Option Text × Text
read_option [] = (none, [])
read_option (zero ∷ rest) = (none, rest)
read_option (suc n ∷ s) = (some ((read_text s).0), (read_text s).1)

read_write_option : (o : Option Text) (rest : Text) → read_option (write_option o rest) ≡ (o, rest)
read_write_option none rest = refl
read_write_option (some t) rest = rw (read_write_text t rest) refl

abbrev write_locations : List IssueLocation → Text
write_locations [] = []
write_locations (l ∷ ls) =
    l.line ∷ l.column ∷ l.end_line ∷ l.end_column ∷ write_option l.message (write_locations ls)

abbrev read_locations : ℕ → Text → List IssueLocation
read_locations zero s = []
read_locations (suc n) (a ∷ b ∷ c ∷ d ∷ s) =
    record { line = a; column = b; end_line = c; end_column = d; message = (read_option s).0 }
    ∷ read_locations n (read_option s).1
read_locations (suc n) _ = []

read_write_locations :
    (ls : List IssueLocation) → read_locations (length ls) (write_locations ls) ≡ ls
read_write_locations [] = refl
read_write_locations (l ∷ ls) =
    rw (read_write_option l.message (write_locations ls))
      (ap (λ r. l ∷ r) (read_write_locations ls))

abbrev write_cost : Option ℕ → ℕ
write_cost none = 0
write_cost (some n) = suc n

abbrev read_cost : ℕ → Option ℕ
read_cost zero = none
read_cost (suc n) = some n

read_write_cost : (o : Option ℕ) → read_cost (write_cost o) ≡ o
read_write_cost none = refl
read_write_cost (some n) = refl

abbrev write : EncodedMessage → Text
write e =
    write_cost e.cost
    ∷ write_text e.message (length e.secondary_locations ∷ write_locations e.secondary_locations)

abbrev read_rest : Option ℕ → Text × Text → Option EncodedMessage
read_rest cost (message, []) = none
read_rest cost (message, n ∷ s) =
    some record { message = message; cost = cost; secondary_locations = read_locations n s }

abbrev read : Text → Option EncodedMessage
read [] = none
read (c ∷ s) = read_rest (read_cost c) (read_text s)

read-write : (e : EncodedMessage) → read (write e) ≡ some e
read-write e =
    rw
      (
        read_write_cost e.cost,
        read_write_text e.message
            (length e.secondary_locations ∷ write_locations e.secondary_locations),
        read_write_locations e.secondary_locations,
      )
      refl

abbrev encoding_rule : RuleModule
encoding_rule = record {
  schema = some (one (record { title = none; enum = some ("sonar-runtime" ∷ []) }));
}

encoding_rule-runtime : has_sonar_runtime_option (some encoding_rule) ≡ true
unfolding has_sonar_runtime_option
encoding_rule-runtime = refl

abbrev issue : Issue
issue = record {
  rule_id = "no-sparse";
  line = 1;
  column = pos 2;
  end_line = none;
  end_column = none;
  message = [];
  cost = none;
  secondary_locations = [];
  quick_fixes = [];
}

abbrev holder : SourceLocation
holder = record { start = record { line = 3; column = 4 }; end = record { line = 3; column = 9 } }

encode_decode_example :
    (text : Text) × (decoded : Issue) × (to_encoded_message write
        (codes "Hole")
        (map some (holder ∷ []))
        none
        (some 2)
      ≡ ok text)
    × (decode_sonar_runtime read (some encoding_rule) (record issue { message = text })
        ≡ ok decoded)
    × (decoded.message ≡ codes "Hole")
    × (decoded.cost ≡ some 2)
    × Encoded (holder ∷ []) none 0 decoded.secondary_locations
    × (decoded.rule_id ≡ issue.rule_id)
    × (decoded.line ≡ issue.line)
    × (decoded.column ≡ issue.column)
encode_decode_example =
    encode_decode write read read-write (some encoding_rule) encoding_rule-runtime issue
      (codes "Hole") (holder ∷ []) none 2
