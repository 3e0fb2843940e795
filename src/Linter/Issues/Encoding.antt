-- ===== src/Linter/Issues/Encoding.antt =====
-- Secondary locations survive `toEncodedMessage` and `decodeSonarRuntime`.
use sonar_js.Prelude.{ℕ, suc, ◌≡◌, refl, ap, true, Option, some, List, [], ◌∷◌, map, Text}
use sonar_js.Metrics.Ast.{SourceLocation}
use sonar_js.Linter.Results.{ok}
use sonar_js.Linter.Rules.{RuleModule, has_sonar_runtime_option}
use sonar_js.Linter.Issues.{
  Issue, IssueLocation, EncodedMessage, to_secondary_location, secondaries, message_at,
  to_encoded_message, decode_sonar_runtime, parsed, spread,
}

-- where a secondary location starts and ends
pub span : IssueLocation → SourceLocation
span l = record {
  start = record { line = l.line; column = l.column };
  end = record { line = l.end_line; column = l.end_column };
}

-- the messages that an index and those after it have
pub messages_from : Option (List (Option Text)) → ℕ → List SourceLocation → List (Option Text)
unfolding message_at
messages_from messages i [] = []
messages_from messages i (loc ∷ locs) = message_at messages i ∷ messages_from messages (suc i) locs

location_message : IssueLocation → Option Text
location_message l = l.message

pub Encoded : List SourceLocation → Option (List (Option Text)) → ℕ → List IssueLocation → Type 0
Encoded locs messages i locations =
    (map span locations ≡ locs) × (map location_message locations ≡ messages_from messages i locs)

secondaries_lem :
    (locs : List SourceLocation) (messages : Option (List (Option Text))) (i : ℕ)
    → (locations : List IssueLocation) × (secondaries (map some locs) messages i ≡ ok locations)
      × Encoded locs messages i locations
unfolding secondaries Encoded to_secondary_location messages_from span location_message
secondaries_lem [] messages i = ([], refl, (refl, refl))
secondaries_lem (loc ∷ locs) messages i =
    let (locations, e, encoded) = secondaries_lem locs messages (suc i) in
    let (spans, texts) = encoded in
    let location : IssueLocation = record {
      line = loc.start.line;
      column = loc.start.column;
      end_line = loc.end.line;
      end_column = loc.end.column;
      message = message_at messages i;
    } in
    (
      location ∷ locations,
      rw (e) refl,
      (ap (λ l. loc ∷ l) spans, ap (λ l. message_at messages i ∷ l) texts),
    )

-- Let `JSON.parse` undo `JSON.stringify`, and let the rule have the option `sonar-runtime`. Then
-- `toEncodedMessage` succeeds on secondary locations that all have a `loc`, and an issue with the
-- text it returns is decoded to one with the message, the cost, and a secondary location for each
-- holder in order, at its `loc` and with the message of its index; rule and position of the issue
-- stay.
pub encode_decode :
    (stringify : EncodedMessage → Text) (parse : Text → Option EncodedMessage)
    → ((e : EncodedMessage) → parse (stringify e) ≡ some e)
    → (rule_module : Option RuleModule) → has_sonar_runtime_option rule_module ≡ true
    → (issue : Issue) (message : Text) (locs : List SourceLocation)
      (messages : Option (List (Option Text))) (cost : ℕ)
    → (text : Text) × (decoded : Issue) × (to_encoded_message stringify message
          (map some locs)
          messages
          (some cost)
        ≡ ok text)
      × (decode_sonar_runtime parse rule_module (record issue { message = text }) ≡ ok decoded)
      × (decoded.message ≡ message)
      × (decoded.cost ≡ some cost)
      × Encoded locs messages 0 decoded.secondary_locations
      × (decoded.rule_id ≡ issue.rule_id)
      × (decoded.line ≡ issue.line)
      × (decoded.column ≡ issue.column)
unfolding to_encoded_message decode_sonar_runtime parsed spread
encode_decode stringify parse law rule_module runtime issue message locs messages cost =
    let (locations, e, encoded) = secondaries_lem locs messages 0 in
    let content : EncodedMessage = record {
      message = message;
      cost = some cost;
      secondary_locations = locations;
    } in
    (
      stringify content,
      spread issue content,
      rw (e) refl,
      rw (runtime, law content) refl,
      refl,
      refl,
      encoded,
      refl,
      refl,
      refl,
    )
