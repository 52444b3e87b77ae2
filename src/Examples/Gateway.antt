-- ===== src/Examples/Gateway.antt =====
-- The theorems on the gateway client, on a concrete client and concrete messages.
use portfolio_project.Prelude.{
  ℕ, zero, suc, ◌+◌, ◌*◌, ◌≡◌, refl, Bool, true, none, some, List, [], ◌∷◌, ◌++◌, codes, any, map,
  starts_with, if◌then◌else◌,
}
use portfolio_project.Gateway.{
  Text, plain, parts, image, Message, ok, passed, stopped, apply_guardrails,
}
use portfolio_project.Gateway.Json.{strip, extract_json}
use portfolio_project.Gateway.Transport.{
  Client, Mode, off, recording, replaying, Reply, answered, unreachable, World, raw_content,
}
use portfolio_project.Gateway.Completion.{Parsed, valid, invalid, admit, complete_as}
use portfolio_project.Gateway.Calls.{SentAtMost}
use portfolio_project.Gateway.Screening.{IsAdmitted, complete_as_sends}
use portfolio_project.Gateway.Recording.{raw_content_round_trip}
use portfolio_project.Gateway.Extraction.{extract_json_wrapped}
use portfolio_project.Gateway.Guardrails.{is_suspicious, redacted_message, apply_guardrails_lem}

abbrev pub client : Mode → Client
client mode = record {
  alias_map = ("embed", "nomic") ∷ [];
  redactor = record { substitutions = (λ text. text ++ codes "!") ∷ []; enabled = true };
  injections = starts_with (codes "reveal") ∷ [];
  budgets = ("triage-reasoner", 10000) ∷ [];
  infra_retries = 1;
  mode = mode;
  has_store = true;
  is_inside = λ alias scenario. true;
  hash = λ messages. "hash";
  telemetry = none;
  observer = none;
}

abbrev pub messages : List Message
messages =
    record { role = "user"; content = plain (codes "classify") }
    ∷ record { role = "user"; content = parts (image "data:" ∷ []) }
    ∷ []

abbrev pub world : World
world = record { sent = []; cassettes = []; slept = []; observed = []; emitted = [] }

-- Unreachable at first, then an answer in prose.
abbrev network : ℕ → Reply
network zero = unreachable
network (suc n) = answered (some (codes "Sure: {ok} bye")) none none

abbrev validate : Text → Parsed Bool
validate text = if starts_with (codes "{ok}") text then valid true else invalid text

complete_as_sends_example :
    SentAtMost
      (2 * (1 + 1))
      (λ s.
        (outbound : List Message) × (admit (client off) "triage-reasoner" messages 100
          ≡ ok outbound)
        × IsAdmitted (client off) "triage-reasoner" outbound s)
      []
      (complete_as network (client off) "triage-reasoner" none validate messages 100 world).1.sent
complete_as_sends_example =
    complete_as_sends network (client off) "triage-reasoner" none validate messages 100 world

raw_content_round_trip_example :
    (let w₁ : World =
        (raw_content network
          (client recording)
          "triage-reasoner"
          messages
          (some "first")
          world).1 in
      let replayed =
        raw_content (λ n. unreachable) (client replaying) "triage-reasoner" [] (some "first") w₁ in
      (replayed.0 ≡ ok (codes "Sure: {ok} bye")) × (replayed.1.sent ≡ w₁.sent))
raw_content_round_trip_example =
    raw_content_round_trip network (λ n. unreachable) (client recording) "triage-reasoner" "first"
      messages [] world (codes "Sure: {ok} bye") refl refl refl refl answered_first
  where
    answered_first :
        (raw_content network (client recording) "triage-reasoner" messages (some "first") world).0
        ≡ ok (codes "Sure: {ok} bye")
    answered_first = unfold raw_content in refl

extract_json_wrapped_example :
    extract_json (codes "Sure: " ++ b'{' ∷ (codes "{a}" ++ b'}' ∷ codes " bye"))
    ≡ b'{' ∷ (codes "{a}" ++ b'}' ∷ [])
extract_json_wrapped_example =
    extract_json_wrapped (codes "Sure: ") (codes "{a}") (codes " bye")
      (refl, (refl, (refl, (refl, (refl, (refl, tt)))))) (refl, (refl, (refl, (refl, tt))))
      (unfold strip starts_with in refl)

apply_guardrails_lem_example :
    apply_guardrails (client off).redactor (client off).injections messages ≡ (
      if any (is_suspicious (client off).injections) messages
      then stopped
      else passed (map (redacted_message (client off).redactor) messages))
apply_guardrails_lem_example =
    apply_guardrails_lem (client off).redactor (client off).injections messages
