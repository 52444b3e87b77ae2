-- ===== src/Agents/Abstention.antt =====
-- What agents/triage.py lets the pipeline see of a model's verdict.
use portfolio_project.Prelude.{
  ℕ, zero, suc, ◌≡◌, ◌∙◌, refl, ap, subst, String, Bool, true, false, ◌&&◌, Option, none, some,
  List, str_eq, arith, if◌then◌else◌, any, str_eq→eq,
}
use portfolio_project.Float.{FloatOps, ltb_float}
use portfolio_project.Gateway.{Text, Message, Result, ok, err, ok-injective}
use portfolio_project.Gateway.Json.{extract_json}
use portfolio_project.Gateway.Transport.{Client, Reply, World, raw_content}
use portfolio_project.Gateway.Completion.{
  Parsed, valid, invalid, admit, with_correction, structured, after_parsed, after_text,
  when_admitted, emitting, complete_as,
}
use portfolio_project.Taxonomy.Wire.{code_of_value}
use portfolio_project.Agents.{
  TriageOutput, needs_human, known_classification, known_action, is_triage_output,
  enforce_abstention, checked_output, validate_output, enforced, triage, abstain_confidence_floor,
}

module _ (network : ℕ → Reply) (c : Client) (alias : String) (scenario : Option String) {T : Type 0}
    (validate : Text → Parsed T) where
  -- A value that was returned was accepted.
  abbrev Accepted : Result T × World → Type 0
  Accepted r = (value : T) → r.0 ≡ ok value → (text : Text) × (validate text ≡ valid value)

  emitting-Accepted :
      (value : T) (text : Text) (r : Bool × World)
      → validate text ≡ valid value
      → Accepted (emitting value r)
  emitting-Accepted value text (true, w) h =
      λ v e. (text, h ∙ ap (λ (t : T). valid t) (ok-injective e))
  emitting-Accepted value text (false, w) h = λ v e. absurd (ground arith)

  after_parsed-Accepted :
      (content : Text) (again : Text → World → Result T × World) (p : Parsed T) (w : World)
      → ((reason : Text) (w : World) → Accepted (again reason w))
      → validate (extract_json content) ≡ p
      → Accepted (after_parsed network c alias scenario validate content again p w)
  after_parsed-Accepted content again (valid value) w h e =
      emitting-Accepted value (extract_json content) _ e
  after_parsed-Accepted content again (invalid reason) w h e = h reason w

  after_text-Accepted :
      (again : Text → World → Result T × World) (r : Result Text × World)
      → ((reason : Text) (w : World) → Accepted (again reason w))
      → Accepted (after_text network c alias scenario validate again r)
  after_text-Accepted again (err f, w) h = λ v e. absurd (ground arith)
  after_text-Accepted again (ok content, w) h =
      after_parsed-Accepted content again (validate (extract_json content)) w h refl

  structured-Accepted :
      (left : ℕ) (error : Option Text) (outbound : List Message) (w : World)
      → Accepted (structured network c alias scenario validate left error outbound w)
  unfolding structured
  structured-Accepted zero error outbound w = λ v e. absurd (ground arith)
  structured-Accepted (suc left) error outbound w =
      after_text-Accepted
        (λ reason w₁. structured network c alias scenario validate left (some reason) outbound w₁)
        (raw_content network c alias (with_correction error outbound) scenario w)
        (λ reason w₁. structured-Accepted left (some reason) outbound w₁)

  complete_as-Accepted :
      (messages : List Message) (max_output_tokens : ℕ) (w : World)
      → Accepted (complete_as network c alias scenario validate messages max_output_tokens w)
  unfolding complete_as
  complete_as-Accepted messages max w = by_admitted (admit c alias messages max)
    where
      by_admitted :
          (r : Result (List Message))
          → Accepted (when_admitted network c alias scenario validate r w)
      by_admitted (err f) = λ v e. absurd (ground arith)
      by_admitted (ok outbound) = structured-Accepted 2 none outbound w

module _ (O : FloatOps) where
  -- A verdict that the pipeline may use: of a known class, with a known action, and either an
  -- abstention for a human, or of a confidence that reaches the floor.
  abbrev pub IsVerdict : TriageOutput O.Float → Type 0
  IsVerdict v =
      (known_classification v.classification ≡ true)
      × (known_action v.suggested_action ≡ true)
      × (if v.abstained
          then v.classification ≡ needs_human
          else ltb_float O v.confidence (abstain_confidence_floor O) ≡ false)

  enforce_abstention-IsVerdict :
      (v : TriageOutput O.Float)
      → known_classification v.classification ≡ true
      → known_action v.suggested_action ≡ true
      → IsVerdict (enforce_abstention O v)
  unfolding enforce_abstention
  enforce_abstention-IsVerdict v known action =
      by_tests (str_eq v.classification needs_human)
        (ltb_float O v.confidence (abstain_confidence_floor O)) refl refl
    where
      by_tests :
          (b c : Bool)
          → str_eq v.classification needs_human ≡ b
          → ltb_float O v.confidence (abstain_confidence_floor O) ≡ c
          → IsVerdict (
              if b
              then record v { abstained = true }
              else if c
              then record v {
                abstained = true;
                classification = needs_human;
                suggested_action = needs_human;
              }
              else record v { abstained = false })
      by_tests true c e k = (known, action, str_eq→eq v.classification needs_human e)
      by_tests false true e k =
          (unfold known_classification code_of_value in refl, unfold known_action any in refl, refl)
      by_tests false false e k = (known, action, k)

  module _ (read : Text → Parsed (TriageOutput O.Float))
      (refusal : TriageOutput O.Float → Text) where
    checked_known :
        (p : Parsed (TriageOutput O.Float)) (v : TriageOutput O.Float)
        → checked_output O read refusal p ≡ valid v
        → (known_classification v.classification ≡ true) × (known_action v.suggested_action ≡ true)
    checked_known (invalid reason) v e = absurd (ground arith)
    checked_known (valid output) v e = by_test (is_triage_output O output) refl e
      where
        both : (b c d : Bool) → (b && (c && d)) ≡ true → (b ≡ true) × (c ≡ true)
        both b c d h = (ground arith, ground arith)

        inner :
            {a b : TriageOutput O.Float}
            → ◌≡◌ {A = Parsed (TriageOutput O.Float)} (valid a) (valid b)
            → a ≡ b
        inner e = cc

        by_test :
            (b : Bool)
            → is_triage_output O output ≡ b
            → ◌≡◌ {A = Parsed (TriageOutput O.Float)}
                (if b then valid output else invalid (refusal output))
                (valid v)
            → (known_classification v.classification ≡ true)
              × (known_action v.suggested_action ≡ true)
        by_test false t e = absurd (ground arith)
        by_test true t e =
            subst
              (λ (x : TriageOutput O.Float).
                (known_classification x.classification ≡ true)
                × (known_action x.suggested_action ≡ true))
              (inner e) (unfold is_triage_output in both _ _ _ t)

-- Whatever the model answers, a verdict that the triage agent returns is of a known class with a
-- known action, and is either an abstention for a human or reaches the floor of the confidence.
pub triage-IsVerdict :
    (O : FloatOps) (read : Text → Parsed (TriageOutput O.Float))
    (refusal : TriageOutput O.Float → Text) (network : ℕ → Reply) (c : Client)
    (scenario : Option String) (messages : List Message) (w : World) (v : TriageOutput O.Float)
    → (triage O read refusal network c scenario messages w).0 ≡ ok v
    → IsVerdict O v
unfolding triage
triage-IsVerdict O read refusal network c scenario messages w v e =
    by_result
      (complete_as network c "triage-reasoner" scenario (validate_output O read refusal) messages
        2048 w)
      (complete_as-Accepted network c "triage-reasoner" scenario (validate_output O read refusal)
        messages 2048 w)
      e
  where
    by_result :
        (r : Result (TriageOutput O.Float) × World)
        → Accepted network c "triage-reasoner" scenario (validate_output O read refusal) r
        → (enforced O read refusal r).0 ≡ ok v
        → IsVerdict O v
    by_result (err f, w₁) h e = absurd (ground arith)
    by_result (ok output, w₁) h e =
        let (text, accepted) = h output refl in
        let (known, action) =
          checked_known O read refusal (read text) output (unfold validate_output in accepted) in
        subst (λ (x : TriageOutput O.Float). IsVerdict O x) (ok-injective e)
          (enforce_abstention-IsVerdict O output known action)
