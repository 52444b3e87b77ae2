-- ===== src/Gateway/Completion.antt =====
-- `complete` and `embed` of gateway_client/client.py. The schema and the embedding's JSON form are
-- parameters.
use portfolio_project.Prelude.{
  ℕ, zero, suc, ◌/◌, String, Bool, true, false, Option, none, some, List, [], ◌∷◌, ◌++◌, length,
  take, codes, if◌then◌else◌,
}
use portfolio_project.Gateway.{
  Text, plain, Message, Failure, Result, ok, err, passed, stopped, apply_guardrails, is_known,
  within_budget,
}
use portfolio_project.Gateway.Json.{extract_json}
use portfolio_project.Gateway.Transport.{
  Client, replaying, Reply, World, resolve, observe, emit, save, raw_content, find_cassette,
  is_recording,
}

-- `model_validate_json`: the value, or the text of the error.
pub data Parsed (T : Type 0) : Type 0 where
  valid : T → Parsed T
  invalid : Text → Parsed T

-- The alias, the guardrails and the budget, in this order: the messages that may go out.
unfoldable pub admit : Client → String → List Message → ℕ → Result (List Message)
unfolding is_known apply_guardrails within_budget
admit c alias messages max_output_tokens =
    if is_known alias
    then elim (apply_guardrails c.redactor c.injections messages) [
      | stopped ↦ err Failure.guardrail
      | passed outbound ↦
          if within_budget c.budgets alias outbound max_output_tokens
          then ok outbound
          else err Failure.budget
    ]
    else err Failure.config

-- The message that asks for a correction, with at most 500 characters of the error.
abbrev pub correction : Text → Message
correction error = record {
  role = "user";
  content = plain (
      codes "Your previous reply failed schema validation with: "
      ++ take 500 error
      ++ codes ". Reply again with ONLY valid JSON for the requested schema.");
}

abbrev pub with_correction : Option Text → List Message → List Message
with_correction none messages = messages
with_correction (some error) messages = messages ++ correction error ∷ []

abbrev pub emitting : {T : Type 0} → T → Bool × World → Result T × World
emitting value (true, w) = (ok value, w)
emitting value (false, w) = (err Failure.hook, w)

module _ (network : ℕ → Reply) (c : Client) (alias : String) (scenario : Option String) where
  abbrev pub text_done : Result Text × World → Result Text × World
  text_done (err f, w) = (err f, w)
  text_done (ok content, w) =
      emitting content
        (emit c record { alias = alias; tokens_estimate = length content / 4; kind = "text" } w)

  unfoldable pub complete_text : List Message → ℕ → World → Result Text × World
  unfolding admit raw_content emit
  complete_text messages max_output_tokens w = elim (admit c alias messages max_output_tokens) [
    | err f ↦ (err f, w)
    | ok outbound ↦ text_done (raw_content network c alias outbound scenario w)
  ]

  module _ {T : Type 0} (validate : Text → Parsed T) where
    abbrev pub structured_done : Text → T → World → Result T × World
    structured_done content value w = emitting value (
        emit c record { alias = alias; tokens_estimate = length content / 4; kind = "structured" }
          w)

    abbrev pub after_parsed :
        Text → (Text → World → Result T × World) → Parsed T → World → Result T × World
    after_parsed content again (valid value) w = structured_done content value w
    after_parsed content again (invalid reason) w = again reason w

    -- One attempt, given what the next one does with the error of this one.
    abbrev pub after_text :
        (Text → World → Result T × World) → Result Text × World → Result T × World
    after_text again (err f, w) = (err f, w)
    after_text again (ok content, w) =
        after_parsed content again (validate (extract_json content)) w

    -- The attempts that are left, and the error of the one before.
    unfoldable pub structured : ℕ → Option Text → List Message → World → Result T × World
    unfolding raw_content extract_json emit
    structured zero error outbound w = (err Failure.response, w)
    structured (suc left) error outbound w =
        after_text (λ reason w₁. structured left (some reason) outbound w₁)
          (raw_content network c alias (with_correction error outbound) scenario w)

    abbrev pub when_admitted : Result (List Message) → World → Result T × World
    when_admitted (err f) w = (err f, w)
    when_admitted (ok outbound) w = structured 2 none outbound w

    unfoldable pub complete_as : List Message → ℕ → World → Result T × World
    unfolding admit structured
    complete_as messages max_output_tokens w =
        when_admitted (admit c alias messages max_output_tokens) w

-- What the embeddings endpoint gives: a vector, or one of the two failures it is asked to name.
pub data Embedded (V : Type 0) : Type 0 where
  vector : V → Embedded V
  failed : Embedded V

module _ {V : Type 0} (endpoint : String → Text → Embedded V) (dump : V → Text) (parse : Text → V)
    (c : Client) (alias : String) (text : Text) where
  abbrev embedded : V → World → Result V × World
  embedded v w = emitting v (
      emit c record { alias = alias; tokens_estimate = length text / 4; kind = "embed" }
        (observe c
          record { alias = alias; wire_model = resolve c alias; content = text; reasoning = none }
          w))

  abbrev load_embedding : World → Result V × World
  load_embedding w =
      if c.is_inside alias "embed-default"
      then elim (find_cassette alias "embed-default" w.cassettes) [
        | none ↦ (err Failure.cassette_missing, w)
        | some tape ↦ (ok (parse tape.content), w)
      ]
      else (err Failure.invalid_path, w)

  abbrev ask_endpoint : Text → World → Result V × World
  ask_endpoint redacted w = elim (endpoint (resolve c alias) redacted) [
    | failed ↦ (err Failure.transport, w)
    | vector v ↦
        if is_recording c
        then (let (written, w₁) =
              save c alias "embed-default" record { request_hash = "n/a"; content = dump v } w in
            if written then embedded v w₁ else (err Failure.invalid_path, w₁))
        else embedded v w
  ]

  abbrev is_replaying : Bool
  is_replaying = elim c.mode [ replaying ↦ c.has_store | _ ↦ false ]

  abbrev first_text : List Message → Text
  first_text [] = []
  first_text (m ∷ ms) = elim m.content [ plain t ↦ t | _ ↦ [] ]

  -- One user message goes through the guardrails; its text is what is sent.
  unfoldable pub embed : World → Result V × World
  unfolding is_known apply_guardrails save emit observe find_cassette resolve
  embed w =
      if is_known alias
      then elim (apply_guardrails c.redactor c.injections
          (record { role = "user"; content = plain text } ∷ [])) [
            | stopped ↦ (err Failure.guardrail, w)
            | passed outbound ↦
                if is_replaying then load_embedding w else ask_endpoint (first_text outbound) w
          ]
      else (err Failure.config, w)
