-- ===== src/Gateway/Recording.antt =====
-- The cassettes of gateway_client/client.py: a recorded answer is what a replay of its cassette gives.
use portfolio_project.Prelude.{
  ℕ, zero, suc, ◌+◌, ◌≡◌, ◌∙◌, refl, ap, subst, sym, String, Bool, true, false, Option, none, some,
  List, length, ltb, str_eq, arith, if◌then◌else◌, eq_refl,
}
use portfolio_project.Gateway.{Text, Message, Failure, Result, ok, err, ok-injective}
use portfolio_project.Gateway.Calls.{raw_content-replaying}
use portfolio_project.Gateway.Transport.{
  Client, Mode, recording, replaying, Reply, answered, unreachable, status, World, resolve, observe,
  save, keep_reply, after_reply, reasoning_of, attempts, replay, in_mode, raw_content,
  find_cassette, Cassette, Observation,
}

abbrev Holds : String → String → Text → World → Type 0
Holds alias name raw w =
    (tape : Cassette) × (find_cassette alias name w.cassettes ≡ some tape) × (tape.content ≡ raw)

observe-cassettes :
    (c : Client) (o : Observation) (w : World) → (observe c o w).cassettes ≡ w.cassettes
unfolding observe
observe-cassettes c o w = ground arith

module _ (network : ℕ → Reply) (c : Client) (alias : String) (messages : List Message)
    (name : String) where
  found :
      (tape : Cassette) (w : World)
      → c.is_inside alias name ≡ true
      → find_cassette alias name (save c alias name tape w).1.cassettes ≡ some tape
  unfolding save find_cassette
  found tape w h = rw (h, eq_refl alias, eq_refl name) refl

  -- An answer is on file.
  abbrev Recorded : Result Text × World → Type 0
  Recorded r = (raw : Text) → r.0 ≡ ok raw → Holds alias name raw r.1

  module _ (is_mode : c.mode ≡ recording) (stored : c.has_store ≡ true)
      (inside : c.is_inside alias name ≡ true) (named : str_eq name "" ≡ false) where
    keep_reply_saves :
        (text : Text) (reasoning : Option Text) (w : World)
        → keep_reply network c alias messages (some name) (some text) reasoning w ≡ (
          ok text,
          observe c
              record {
                alias = alias;
                wire_model = resolve c alias;
                content = text;
                reasoning = reasoning;
              }
              (save c alias name record { request_hash = c.hash messages; content = text } w).1,
        )
    unfolding keep_reply save
    keep_reply_saves text reasoning w = ground (arith, is_mode, stored, inside, named)

    keep_reply-Recorded :
        (raw reasoning : Option Text) (w : World)
        → Recorded (keep_reply network c alias messages (some name) raw reasoning w)
    unfolding keep_reply
    keep_reply-Recorded none reasoning w raw e = absurd (ground arith)
    keep_reply-Recorded (some text) reasoning w raw e =
        let tape : Cassette = record { request_hash = c.hash messages; content = text } in
        let w₁ : World = (save c alias name tape w).1 in
        subst (λ (r : Result Text × World). Holds alias name raw r.1)
          (sym (keep_reply_saves text reasoning w))
          (
            tape,
            ap (λ (files : List ((String × String) × Cassette)). find_cassette alias name files)
                  (observe-cassettes c _ w₁)
                ∙ found tape w inside,
            ok-injective (
                sym (ap (λ (r : Result Text × World). r.0) (keep_reply_saves text reasoning w))
                ∙ e),
          )

    after_reply-Recorded :
        (r : Reply) (rest : Result Text × World) (w : World)
        → Recorded rest
        → Recorded (after_reply network c alias messages (some name) r rest w)
    unfolding after_reply
    after_reply-Recorded (answered raw first second) rest w h =
        keep_reply-Recorded raw (reasoning_of first second) w
    after_reply-Recorded unreachable rest w h = h
    after_reply-Recorded (status none) rest w h = λ raw e. absurd (ground arith)
    after_reply-Recorded (status (some code)) rest w h = by_code (ltb code 500)
      where
        by_code : (b : Bool) → Recorded (if b then (err Failure.config, w) else rest)
        by_code true = λ raw e. absurd (ground arith)
        by_code false = h

    attempts-Recorded :
        (left attempt : ℕ) (w : World)
        → Recorded (attempts network c alias messages (some name) left attempt w)
    unfolding attempts
    attempts-Recorded zero attempt w = λ raw e. absurd (ground arith)
    attempts-Recorded (suc left) attempt w =
        after_reply-Recorded (network (length w.sent)) _ _ (attempts-Recorded left (attempt + 1) _)

    raw_content-Recorded :
        (w : World) → Recorded (raw_content network c alias messages (some name) w)
    unfolding raw_content in_mode
    raw_content-Recorded w =
        subst (λ (m : Mode). Recorded (in_mode network c alias messages (some name) m w))
          (sym is_mode) (by_store c.has_store)
      where
        by_store :
            (b : Bool)
            → Recorded (
                if b
                then attempts network c alias messages (some name) (c.infra_retries + 1) 0 w
                else (err Failure.config, w))
        by_store true = attempts-Recorded (c.infra_retries + 1) 0 w
        by_store false = λ raw e. absurd (ground arith)

-- What a call in record mode returns under a scenario that has a name, a call in replay mode on the
-- cassettes as that call left them returns for the same alias and scenario, whatever the messages
-- and the network are then, and it sends nothing.
pub raw_content_round_trip :
    (network later : ℕ → Reply) (c : Client) (alias name : String) (messages other : List Message)
    (w : World) (raw : Text)
    → c.mode ≡ recording
    → c.has_store ≡ true
    → c.is_inside alias name ≡ true
    → str_eq name "" ≡ false
    → (raw_content network c alias messages (some name) w).0 ≡ ok raw
    → (let w₁ : World = (raw_content network c alias messages (some name) w).1 in
        let replayed =
          raw_content later (record c { mode = replaying }) alias other (some name) w₁ in
        (replayed.0 ≡ ok raw) × (replayed.1.sent ≡ w₁.sent))
unfolding raw_content in_mode replay
raw_content_round_trip network later c alias name messages other w raw h stored inside named e =
    let w₁ : World = (raw_content network c alias messages (some name) w).1 in
    let (tape, at, same) =
      raw_content-Recorded network c alias messages name h stored inside named w raw e in
    (
      rw (stored, inside, at) (ap (λ (t : Text). ok t) same),
      raw_content-replaying later (record c { mode = replaying }) alias other (some name) w₁ refl,
    )
