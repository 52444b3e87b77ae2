-- ===== src/Gateway/Screening.antt =====
-- What `complete` of gateway_client/client.py lets out.
use portfolio_project.Prelude.{
  ℕ, zero, suc, ◌+◌, ◌*◌, ◌≡◌, ◌∙◌, refl, ap, subst, sym, ◌⊎◌, inl, inr, String, Bool, true, false,
  Option, none, some, List, [], ◌∷◌, ◌++◌, arith, All, length-append,
}
use mathlib.Core.List.{append_assoc}
use portfolio_project.Gateway.{Text, Message, Result, ok, err}
use portfolio_project.Gateway.Json.{extract_json}
use portfolio_project.Gateway.Transport.{Client, Reply, Sent, World, resolve, raw_content}
use portfolio_project.Gateway.Completion.{
  Parsed, valid, invalid, correction, admit, with_correction, structured, structured_done,
  after_parsed, after_text, when_admitted, emitting, complete_as,
}
use portfolio_project.Gateway.Calls.{SentAtMost, raw_content-sent, nothing_sent, emit-sent}

weakened :
    {P Q : Sent → Type 0} (n : ℕ) (before after : List Sent)
    → ((s : Sent) → P s → Q s)
    → SentAtMost n P before after
    → SentAtMost n Q before after
weakened {P} {Q} n before after f (new, grown, short, all) = (new, grown, short, mapped new all)
  where
    mapped : (new : List Sent) → All P new → All Q new
    mapped [] all = tt
    mapped (s ∷ new) (p, all) = (f s p, mapped new all)

joined :
    {P : Sent → Type 0} (n m : ℕ) (a b c : List Sent)
    → SentAtMost n P a b
    → SentAtMost m P b c
    → SentAtMost (n + m) P a c
joined {P} n m a b c (xs, e, le, all) (ys, e₁, le₁, all₁) = (
  ys ++ xs,
  e₁ ∙ ap (λ (t : List Sent). ys ++ t) e ∙ sym (append_assoc ys xs a),
  omega (arith, le, le₁, length-append ys xs),
  appended ys all₁ all,
)
  where
    appended : (ys : List Sent) → All P ys → All P xs → All P (ys ++ xs)
    appended [] all₁ all = all
    appended (y ∷ ys) (p, all₁) all = (p, appended ys all₁ all)

-- The messages that were admitted, alone or with one message that asks for a correction.
abbrev pub IsAdmitted : Client → String → List Message → Sent → Type 0
IsAdmitted c alias outbound s =
    (s.model ≡ resolve c alias)
    × ((s.messages ≡ outbound) ⊎ ((e : Text) × (s.messages ≡ outbound ++ correction e ∷ [])))

module _ (network : ℕ → Reply) (c : Client) (alias : String) (scenario : Option String) {T : Type 0}
    (validate : Text → Parsed T) where
  emitting-sent :
      (value : T) (w : World) (r : Bool × World)
      → r.1.sent ≡ w.sent
      → (emitting value r).1.sent ≡ w.sent
  emitting-sent value w (true, w₁) e = e
  emitting-sent value w (false, w₁) e = e

  corrected :
      (outbound : List Message) (error : Option Text) (s : Sent)
      → s ≡ record { model = resolve c alias; messages = with_correction error outbound }
      → IsAdmitted c alias outbound s
  corrected outbound none s e =
      (ap (λ (t : Sent). t.model) e, inl (ap (λ (t : Sent). t.messages) e))
  corrected outbound (some r) s e =
      (ap (λ (t : Sent). t.model) e, inr (r, ap (λ (t : Sent). t.messages) e))

  structured_done-sent :
      (content : Text) (value : T) (w : World)
      → (structured_done network c alias scenario validate content value w).1.sent ≡ w.sent
  structured_done-sent content value w = emitting-sent value w _ (emit-sent c _ w)

  abbrev Again : ℕ → List Message → (Text → World → Result T × World) → Type 0
  Again n outbound again =
      (reason : Text) (w : World)
      → SentAtMost n (IsAdmitted c alias outbound) w.sent (again reason w).1.sent

  after_parsed-sent :
      (n m : ℕ) (outbound : List Message) (before : List Sent) (content : Text)
      (again : Text → World → Result T × World)
      → Again m outbound again
      → (p : Parsed T) (w : World) → SentAtMost n (IsAdmitted c alias outbound) before w.sent
      → SentAtMost
          (n + m)
          (IsAdmitted c alias outbound)
          before
          (after_parsed network c alias scenario validate content again p w).1.sent
  after_parsed-sent n m outbound before content again rest (valid value) w h =
      joined n m before w.sent _ h
        (nothing_sent m _ w.sent _ (structured_done-sent content value w))
  after_parsed-sent n m outbound before content again rest (invalid reason) w h =
      joined n m before w.sent _ h (rest reason w)

  after_text-sent :
      (n m : ℕ) (outbound : List Message) (before : List Sent)
      (again : Text → World → Result T × World)
      → Again m outbound again
      → (r : Result Text × World) → SentAtMost n (IsAdmitted c alias outbound) before r.1.sent
      → SentAtMost
          (n + m)
          (IsAdmitted c alias outbound)
          before
          (after_text network c alias scenario validate again r).1.sent
  after_text-sent n m outbound before again rest (err f, w) h =
      joined n m before w.sent _ h (nothing_sent m _ w.sent _ refl)
  after_text-sent n m outbound before again rest (ok content, w) h =
      after_parsed-sent n m outbound before content again rest (validate (extract_json content)) w h

  structured-sent :
      (left : ℕ) (error : Option Text) (outbound : List Message) (w : World)
      → SentAtMost
          (left * (c.infra_retries + 1))
          (IsAdmitted c alias outbound)
          w.sent
          (structured network c alias scenario validate left error outbound w).1.sent
  unfolding structured
  structured-sent zero error outbound w = nothing_sent _ _ w.sent _ refl
  structured-sent (suc left) error outbound w =
      subst
        (λ (n : ℕ).
          SentAtMost n (IsAdmitted c alias outbound) w.sent
            (structured network c alias scenario validate (suc left) error outbound w).1.sent)
        (one_more (c.infra_retries + 1) left)
        (after_text-sent (c.infra_retries + 1) (left * (c.infra_retries + 1)) outbound w.sent
          (λ reason w₁. structured network c alias scenario validate left (some reason) outbound w₁)
          (λ reason w₁. structured-sent left (some reason) outbound w₁)
          (raw_content network c alias (with_correction error outbound) scenario w)
          (weakened (c.infra_retries + 1) w.sent _ (corrected outbound error)
            (raw_content-sent network c alias (with_correction error outbound) scenario w)))
    where
      one_more : (n m : ℕ) → n + m * n ≡ suc m * n
      one_more n m = omega arith

-- A structured completion sends at most two times one more than the infrastructure retries, and
-- every request carries messages that the alias check, the guardrails and the budget admitted,
-- alone or followed by one message that asks for a correction. So it sends nothing when one of them
-- refuses.
pub complete_as_sends :
    (network : ℕ → Reply) (c : Client) (alias : String) (scenario : Option String) {T : Type 0}
    (validate : Text → Parsed T) (messages : List Message) (max_output_tokens : ℕ) (w : World)
    → SentAtMost
        (2 * (c.infra_retries + 1))
        (λ s.
          (outbound : List Message) × (admit c alias messages max_output_tokens ≡ ok outbound)
          × IsAdmitted c alias outbound s)
        w.sent
        (complete_as network c alias scenario validate messages max_output_tokens w).1.sent
unfolding complete_as
complete_as_sends network c alias scenario validate messages max w =
    by_admitted (admit c alias messages max) refl
  where
    by_admitted :
        (r : Result (List Message))
        → admit c alias messages max ≡ r
        → SentAtMost
            (2 * (c.infra_retries + 1))
            (λ s.
              (outbound : List Message) × (admit c alias messages max ≡ ok outbound)
              × IsAdmitted c alias outbound s)
            w.sent
            (when_admitted network c alias scenario validate r w).1.sent
    by_admitted (err f) e = nothing_sent _ _ w.sent _ refl
    by_admitted (ok outbound) e =
        weakened _ w.sent _ (λ s a. (outbound, e, a))
          (structured-sent network c alias scenario validate 2 none outbound w)
