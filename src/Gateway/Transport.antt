-- ===== src/Gateway/Transport.antt =====
-- gateway_client/client.py `_raw_content` and what it calls, with gateway_client/cassettes.py. The
-- network is a function: what comes back from the n-th request ever sent. A cassette file is an
-- entry of a table by alias and scenario; a later write replaces the file, so the newest comes first.
use portfolio_project.Prelude.{
  ℕ, zero, suc, ◌+◌, ◌^◌, String, Bool, true, false, Option, none, some, List, [], ◌∷◌, ◌&&◌,
  str_eq, length, ltb, get, if◌then◌else◌, is_empty, is_space,
}
use portfolio_project.Gateway.{Text, Message, Failure, Result, ok, err, Redactor}
use portfolio_project.Gateway.Json.{strip}

-- `cassette_mode`.
pub data Mode : Type 0 where
  off recording replaying : Mode

pub record Cassette : Type 0 where
  pub request_hash : String
  pub content : Text

pub record Observation : Type 0 where
  pub alias : String
  pub wire_model : String
  pub content : Text
  pub reasoning : Option Text

pub record Emission : Type 0 where
  pub alias : String
  pub tokens_estimate : ℕ
  pub kind : String

-- What the client is made with. The observer and the hook are whether they return, rather than
-- raise, on what they are given; the path test is `is_relative_to` of the store's root.
pub record Client : Type 0 where
  pub alias_map : List (String × String)
  pub redactor : Redactor
  pub injections : List (Text → Bool)
  pub budgets : List (String × ℕ)
  pub infra_retries : ℕ
  pub mode : Mode
  pub has_store : Bool
  pub is_inside : String → String → Bool
  pub hash : List Message → String
  pub telemetry : Option (Emission → Bool)
  pub observer : Option (Observation → Bool)

pub data Reply : Type 0 where
  -- `content`, `reasoning_content` and `reasoning` of the message.
  answered : Option Text → Option Text → Option Text → Reply
  unreachable : Reply
  status : Option ℕ → Reply

pub record Sent : Type 0 where
  pub model : String
  pub messages : List Message

-- Everything the client touches: requests, files, sleeps (in halves of a second), observations,
-- emissions; the newest first.
pub record World : Type 0 where
  pub sent : List Sent
  pub cassettes : List ((String × String) × Cassette)
  pub slept : List ℕ
  pub observed : List Observation
  pub emitted : List Emission

unfoldable pub resolve : Client → String → String
unfolding get
resolve c alias = elim (get alias c.alias_map) [ some model ↦ model | none ↦ alias ]

-- `CassetteStore.load` on the files: the newest entry for the path.
unfoldable pub find_cassette :
    String → String → List ((String × String) × Cassette) → Option Cassette
find_cassette alias scenario [] = none
find_cassette alias scenario (((a, s), c) ∷ files) =
    if str_eq a alias && str_eq s scenario then some c else find_cassette alias scenario files

-- `_reasoning_of`: the first of the two attributes that is a text with more than blanks.
unfoldable pub reasoning_of : Option Text → Option Text → Option Text
unfolding strip
reasoning_of first second = elim (said first) [ some text ↦ some text | none ↦ said second ]
  where
    said : Option Text → Option Text
    said none = none
    said (some text) = if is_empty (strip is_space text) then none else some text

unfoldable pub observe : Client → Observation → World → World
observe c o w = elim c.observer [
  | none ↦ w
  | some returns ↦ if returns o then record w { observed = o ∷ w.observed } else w
]

unfoldable pub emit : Client → Emission → World → Bool × World
emit c e w = elim c.telemetry [
  | none ↦ (true, w)
  | some returns ↦ (returns e, record w { emitted = e ∷ w.emitted })
]

-- `scenario or "default"`.
abbrev pub scenario_or_default : Option String → String
scenario_or_default none = "default"
scenario_or_default (some s) = if str_eq s "" then "default" else s

-- `CassetteStore.save`: the file, unless the path leaves the root.
unfoldable pub save : Client → String → String → Cassette → World → Bool × World
save c alias scenario tape w =
    if c.is_inside alias scenario
    then (true, record w { cassettes = ((alias, scenario), tape) ∷ w.cassettes })
    else (false, w)

abbrev pub is_recording : Client → Bool
is_recording c = elim c.mode [ recording ↦ c.has_store | _ ↦ false ]

module _ (network : ℕ → Reply) (c : Client) (alias : String) (messages : List Message)
    (scenario : Option String) where
  abbrev pub sent_once : World → World
  sent_once w = record w { sent = record { model = resolve c alias; messages = messages } ∷ w.sent }

  abbrev pub slept_after : ℕ → World → World
  slept_after attempt w = record w { slept = 2 ^ attempt ∷ w.slept }

  abbrev observed_reply : Text → Option Text → World → Result Text × World
  observed_reply raw reasoning w = (
    ok raw,
    observe c
        record { alias = alias; wire_model = resolve c alias; content = raw; reasoning = reasoning }
        w,
  )

  -- The branch of an answer: an empty one is an error, and record mode writes the cassette first.
  unfoldable pub keep_reply : Option Text → Option Text → World → Result Text × World
  unfolding save observe
  keep_reply none reasoning w = (err Failure.response, w)
  keep_reply (some raw) reasoning w =
      if is_recording c
      then (let (written, w₁) =
            save c alias (scenario_or_default scenario)
              record { request_hash = c.hash messages; content = raw } w in
          if written then observed_reply raw reasoning w₁ else (err Failure.invalid_path, w₁))
      else observed_reply raw reasoning w

  -- One pass of the loop, given what the passes after it do: an infrastructure failure goes on to
  -- them, any other HTTP status is the caller's error.
  unfoldable pub after_reply : Reply → Result Text × World → World → Result Text × World
  unfolding keep_reply reasoning_of
  after_reply (answered raw first second) rest w = keep_reply raw (reasoning_of first second) w
  after_reply unreachable rest w = rest
  after_reply (status none) rest w = (err Failure.config, w)
  after_reply (status (some code)) rest w = if ltb code 500 then (err Failure.config, w) else rest

  -- The loop, with the attempts that are left and the number of this one.
  unfoldable pub attempts : ℕ → ℕ → World → Result Text × World
  unfolding after_reply
  attempts zero attempt w = (err Failure.transport, w)
  attempts (suc left) attempt w =
      after_reply (network (length w.sent))
        (attempts left (attempt + 1) (slept_after attempt (sent_once w))) (sent_once w)

  unfoldable pub replay : String → World → Result Text × World
  unfolding find_cassette observe
  replay name w =
      if c.is_inside alias name
      then elim (find_cassette alias name w.cassettes) [
        | none ↦ (err Failure.cassette_missing, w)
        | some tape ↦ observed_reply tape.content none w
      ]
      else (err Failure.invalid_path, w)

  abbrev pub with_scenario :
      Option String → (String → Result Text × World) → World → Result Text × World
  with_scenario none go w = (err Failure.config, w)
  with_scenario (some name) go w = if c.has_store then go name else (err Failure.config, w)

  -- A cassette mode needs a store and a scenario.
  unfoldable pub in_mode : Mode → World → Result Text × World
  unfolding attempts replay
  in_mode off w = attempts (c.infra_retries + 1) 0 w
  in_mode recording w = with_scenario scenario (λ name. attempts (c.infra_retries + 1) 0 w) w
  in_mode replaying w = with_scenario scenario (λ name. replay name w) w

  unfoldable pub raw_content : World → Result Text × World
  unfolding in_mode
  raw_content w = in_mode c.mode w
