-- ===== src/Gateway/Calls.antt =====
-- Which requests leave the client of gateway_client/client.py.
use portfolio_project.Prelude.{
  ℕ, zero, suc, ◌+◌, ◌≤◌, ◌≡◌, ◌∙◌, refl, subst, sym, String, Bool, true, false, Option, none, some,
  List, [], ◌∷◌, ◌++◌, length, ltb, arith, if◌then◌else◌, All, length-append,
}
use mathlib.Core.List.{append_assoc}
use portfolio_project.Gateway.{Text, Message, Failure, Result, err}
use portfolio_project.Gateway.Transport.{
  Client, Mode, off, recording, replaying, Reply, answered, unreachable, status, Sent, World,
  resolve, observe, emit, save, keep_reply, after_reply, reasoning_of, sent_once, attempts, replay,
  in_mode, with_scenario, raw_content, Observation, Emission, Cassette,
}

-- At most `n` requests were added, each of which `P` holds of.
abbrev pub SentAtMost : ℕ → (Sent → Type 0) → List Sent → List Sent → Type 0
SentAtMost n P before after =
    (new : List Sent) × (after ≡ new ++ before) × (length new ≤ n) × All P new

pub nothing_sent :
    (n : ℕ) (P : Sent → Type 0) (before after : List Sent)
    → after ≡ before
    → SentAtMost n P before after
nothing_sent n P before after e = ([], e, omega arith, tt)

observe-sent : (c : Client) (o : Observation) (w : World) → (observe c o w).sent ≡ w.sent
unfolding observe
observe-sent c o w = ground arith

pub emit-sent : (c : Client) (e : Emission) (w : World) → (emit c e w).1.sent ≡ w.sent
unfolding emit
emit-sent c e w = ground arith

save-sent :
    (c : Client) (alias scenario : String) (tape : Cassette) (w : World)
    → (save c alias scenario tape w).1.sent ≡ w.sent
unfolding save
save-sent c alias scenario tape w = ground arith

module _ (network : ℕ → Reply) (c : Client) (alias : String) (messages : List Message)
    (scenario : Option String) where
  -- The request that carries these messages.
  abbrev IsRequest : Sent → Type 0
  IsRequest s = s ≡ record { model = resolve c alias; messages = messages }

  keep_reply-sent :
      (raw reasoning : Option Text) (w : World)
      → (keep_reply network c alias messages scenario raw reasoning w).1.sent ≡ w.sent
  unfolding keep_reply
  keep_reply-sent none reasoning w = refl
  keep_reply-sent (some raw) reasoning w = grind (arith, observe-sent, save-sent)

  replay-sent :
      (name : String) (w : World)
      → (replay network c alias messages scenario name w).1.sent ≡ w.sent
  unfolding replay
  replay-sent name w = grind (arith, observe-sent)

  All-snoc :
      (new : List Sent) (s : Sent) → All IsRequest new → IsRequest s → All IsRequest (new ++ s ∷ [])
  All-snoc [] s all r = (r, tt)
  All-snoc (t ∷ new) s (p, all) r = (p, All-snoc new s all r)

  one_more :
      (n : ℕ) (before after : List Sent) (s : Sent)
      → IsRequest s
      → SentAtMost n IsRequest (s ∷ before) after
      → SentAtMost (suc n) IsRequest before after
  one_more n before after s r (new, grown, short, all) = (
    new ++ s ∷ [],
    grown ∙ sym (append_assoc new (s ∷ []) before),
    omega (arith, short, length-append new (s ∷ [])),
    All-snoc new s all r,
  )

  after_reply-sent :
      (n : ℕ) (r : Reply) (rest : Result Text × World) (w : World)
      → SentAtMost n IsRequest w.sent rest.1.sent
      → SentAtMost n IsRequest w.sent
          (after_reply network c alias messages scenario r rest w).1.sent
  unfolding after_reply
  after_reply-sent n (answered raw first second) rest w h =
      nothing_sent n IsRequest w.sent _ (keep_reply-sent raw (reasoning_of first second) w)
  after_reply-sent n unreachable rest w h = h
  after_reply-sent n (status none) rest w h = nothing_sent n IsRequest w.sent _ refl
  after_reply-sent n (status (some code)) rest w h = by_code (ltb code 500)
    where
      by_code :
          (b : Bool)
          → SentAtMost n IsRequest w.sent (if b then (err Failure.config, w) else rest).1.sent
      by_code true = nothing_sent n IsRequest w.sent _ refl
      by_code false = h

  attempts-sent :
      (left attempt : ℕ) (w : World)
      → SentAtMost left IsRequest w.sent
          (attempts network c alias messages scenario left attempt w).1.sent
  unfolding attempts
  attempts-sent zero attempt w = nothing_sent 0 IsRequest w.sent _ refl
  attempts-sent (suc left) attempt w = one_more left w.sent _ _ refl (
      after_reply-sent left (network (length w.sent)) _
        (sent_once network c alias messages scenario w) (attempts-sent left (attempt + 1) _))

  with_scenario-sent :
      (n : ℕ) (s : Option String) (go : String → Result Text × World) (w : World)
      → ((name : String) → SentAtMost n IsRequest w.sent (go name).1.sent)
      → SentAtMost n IsRequest w.sent
          (with_scenario network c alias messages scenario s go w).1.sent
  with_scenario-sent n none go w h = nothing_sent n IsRequest w.sent _ refl
  with_scenario-sent n (some name) go w h = by_store c.has_store
    where
      by_store :
          (b : Bool)
          → SentAtMost n IsRequest w.sent (if b then go name else (err Failure.config, w)).1.sent
      by_store true = h name
      by_store false = nothing_sent n IsRequest w.sent _ refl

  in_mode-sent :
      (m : Mode) (w : World)
      → SentAtMost
          (c.infra_retries + 1)
          IsRequest
          w.sent
          (in_mode network c alias messages scenario m w).1.sent
  unfolding in_mode
  in_mode-sent off w = attempts-sent (c.infra_retries + 1) 0 w
  in_mode-sent recording w =
      with_scenario-sent (c.infra_retries + 1) scenario _ w
        (λ name. attempts-sent (c.infra_retries + 1) 0 w)
  in_mode-sent replaying w =
      with_scenario-sent (c.infra_retries + 1) scenario _ w
        (λ name. nothing_sent (c.infra_retries + 1) IsRequest w.sent _ (replay-sent name w))

  pub raw_content-sent :
      (w : World)
      → SentAtMost
          (c.infra_retries + 1)
          IsRequest
          w.sent
          (raw_content network c alias messages scenario w).1.sent
  unfolding raw_content
  raw_content-sent w = in_mode-sent c.mode w

  -- In replay mode nothing leaves.
  pub raw_content-replaying :
      (w : World)
      → c.mode ≡ replaying
      → (raw_content network c alias messages scenario w).1.sent ≡ w.sent
  unfolding raw_content in_mode
  raw_content-replaying w h =
      subst (λ (m : Mode). (in_mode network c alias messages scenario m w).1.sent ≡ w.sent) (sym h)
        (by_scenario scenario)
    where
      by_name :
          (b : Bool) (name : String)
          → (if b
              then replay network c alias messages scenario name w
              else (err Failure.config, w)).1.sent
            ≡ w.sent
      by_name true name = replay-sent name w
      by_name false name = refl

      by_scenario :
          (s : Option String)
          → (with_scenario network c alias messages scenario s
              (λ name. replay network c alias messages scenario name w)
              w).1.sent
            ≡ w.sent
      by_scenario none = refl
      by_scenario (some name) = by_name c.has_store name
