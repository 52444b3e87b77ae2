-- ===== src/Gateway.antt =====
-- gateway_client/guardrails.py, gateway_client/errors.py and the checks of gateway_client/client.py:
-- what stands between a caller and the model. A text is its code points. Regular expressions are
-- outside the program: a pattern is whether it is found and what its replacement gives.
pub mod Json
pub mod Extraction
pub mod Transport
pub mod Completion
pub mod Screening
pub mod Calls
pub mod Recording
pub mod Guardrails
use portfolio_project.Prelude.{
  ◌≡◌, ℕ, ◌+◌, ◌/◌, String, Bool, true, false, Option, none, some, List, [], ◌∷◌, any, str_eq,
  length, ltb, get, if◌then◌else◌,
}

abbrev pub Text : Type 0
Text = List ℕ

pub data Part : Type 0 where
  image : String → Part
  words : Text → Part

-- `content` is a text, a list of parts, or missing.
pub data Content : Type 0 where
  plain : Text → Content
  parts : List Part → Content
  missing : Content

pub record Message : Type 0 where
  pub role : String
  pub content : Content

-- The failures that have a name, the two of the cassettes, and that of the telemetry hook.
pub data Failure : Type 0 where
  config budget guardrail response transport cassette_missing invalid_path hook : Failure

pub data Result (A : Type 0) : Type 0 where
  ok : A → Result A
  err : Failure → Result A

pub ok-injective : {A : Type 0} {a b : A} → ◌≡◌ {A = Result A} (ok a) (ok b) → a ≡ b
ok-injective e = cc

pub record Redactor : Type 0 where
  -- `pattern.sub` of each pattern, in the order of the dictionary.
  pub substitutions : List (Text → Text)
  pub enabled : Bool

substitute : List (Text → Text) → Text → Text
substitute [] text = text
substitute (f ∷ fs) text = substitute fs (f text)

unfoldable pub redact : Redactor → Text → Text
unfolding substitute
redact r text = if r.enabled then substitute r.substitutions text else text

-- The injection patterns, each as whether `search` finds it.
unfoldable pub check_injection : List (Text → Bool) → Text → Bool
unfolding any
check_injection patterns text = any (λ (p : Text → Bool). p text) patterns

pub data Screened : Type 0 where
  passed : List Message → Screened
  stopped : Screened

abbrev and_then : Message → Screened → Screened
and_then m stopped = stopped
and_then m (passed ms) = passed (m ∷ ms)

abbrev with_text : Message → Text → Message
with_text m text = record m { content = plain text }

module _ (r : Redactor) (patterns : List (Text → Bool)) where
  -- One message: a text of the user is checked, every text is redacted, and what is no text passes.
  unfoldable pub screen_message : Message → Screened
  unfolding check_injection redact
  screen_message m = elim m.content [
    | plain text ↦
        if str_eq m.role "user"
        then (if check_injection patterns text
            then stopped
            else passed (with_text m (redact r text) ∷ []))
        else passed (with_text m (redact r text) ∷ [])
    | _ ↦ passed (m ∷ [])
  ]

  abbrev pub append_screened : Screened → Screened → Screened
  append_screened stopped rest = stopped
  append_screened (passed []) rest = rest
  append_screened (passed (m ∷ ms)) rest = and_then m rest

  unfoldable pub apply_guardrails : List Message → Screened
  unfolding screen_message
  apply_guardrails [] = passed []
  apply_guardrails (m ∷ ms) = append_screened (screen_message m) (apply_guardrails ms)

abbrev pub image_token_estimate : ℕ
image_token_estimate = 1600

unfoldable pub part_tokens : Part → ℕ
part_tokens (image url) = image_token_estimate
part_tokens (words text) = length text / 4

abbrev all_parts : List Part → ℕ
all_parts [] = 0
all_parts (p ∷ ps) = part_tokens p + all_parts ps

unfoldable pub content_tokens : Content → ℕ
unfolding part_tokens
content_tokens (plain text) = length text / 4
content_tokens (parts ps) = all_parts ps
content_tokens missing = 0

unfoldable pub estimate_tokens : List Message → ℕ
unfolding content_tokens
estimate_tokens [] = 0
estimate_tokens (m ∷ ms) = content_tokens m.content + estimate_tokens ms

abbrev pub known_aliases : List String
known_aliases = "extract-vision" ∷ "triage-reasoner" ∷ "eval-judge" ∷ "embed" ∷ []

unfoldable pub is_known : String → Bool
unfolding any
is_known alias = any (str_eq alias) known_aliases

-- `_check_budget` passes.
unfoldable pub within_budget : List (String × ℕ) → String → List Message → ℕ → Bool
unfolding get estimate_tokens
within_budget budgets alias messages max_output_tokens = elim (get alias budgets) [
  | none ↦ true
  | some limit ↦ if ltb limit (estimate_tokens messages + max_output_tokens) then false else true
]
