-- ===== src/Retry.antt =====
-- graph/errors.py and graph/retries.py: how failures are classified, and which are retried.
pub mod Loop
use portfolio_project.Prelude.{
  ℕ, zero, suc, ◌+◌, ◌==◌, Bool, true, false, String, ◌||◌, Option, none, some, List, [], ◌∷◌,
  str_eq, if◌then◌else◌,
}

pub data FailureKind : Type 0 where
  infra business : FailureKind

-- The exception types that the classification tells apart, with the names of `type(exc)`. `other`
-- is any type that is none of these and derives from none of them.
pub data ExceptionType : Type 0 where
  gateway_config gateway_budget gateway_guardrail gateway_response gateway_transport
        connection_error timeout_error os_error value_error key_error type_error retry_exhausted :
      ExceptionType
  other : String → ExceptionType

-- The members of `_INFRA_TYPES` and what derives from them: `ConnectionError` and `TimeoutError`
-- are `OSError`s.
abbrev pub is_infra_type : ExceptionType → Bool
is_infra_type gateway_transport = true
is_infra_type connection_error = true
is_infra_type timeout_error = true
is_infra_type os_error = true
is_infra_type _ = false

abbrev is_gateway_business : ExceptionType → Bool
is_gateway_business gateway_response = true
is_gateway_business gateway_guardrail = true
is_gateway_business gateway_config = true
is_gateway_business gateway_budget = true
is_gateway_business _ = false

abbrev is_deterministic : ExceptionType → Bool
is_deterministic value_error = true
is_deterministic key_error = true
is_deterministic type_error = true
is_deterministic _ = false

-- An exception with the types of its `__cause__` and its `__context__`.
pub record Failure : Type 0 where
  pub type_of : ExceptionType
  pub cause : Option ExceptionType
  pub context : Option ExceptionType

unfoldable pub classify_shallow : ExceptionType → Bool
classify_shallow (other name) =
    str_eq name "OperationalError"
    || (str_eq name "InterfaceError" || str_eq name "DisconnectionError")
classify_shallow t = is_infra_type t

shallow_option : Option ExceptionType → Bool
unfolding classify_shallow
shallow_option none = false
shallow_option (some t) = classify_shallow t

unfoldable pub has_cause_kind : Failure → Bool
unfolding shallow_option
has_cause_kind f = shallow_option f.cause || shallow_option f.context

unfoldable pub classify : Failure → FailureKind
unfolding has_cause_kind
classify f =
    if is_gateway_business f.type_of
    then business
    else if is_infra_type f.type_of
    then infra
    else if has_cause_kind f
    then infra
    else if is_deterministic f.type_of
    then business
    else infra

-- How one call of the node ends.
pub data Attempt (T : Type 0) : Type 0 where
  returns : T → Attempt T
  raises : Failure → Attempt T

-- How the retried call ends: the node's value, the node's own exception passed on, or
-- `RetryExhausted` with the number of attempts and the last failure (`none` is the
-- `RuntimeError` of a policy with no attempts).
pub data Outcome (T : Type 0) : Type 0 where
  value : T → Outcome T
  reraised : Failure → Outcome T
  exhausted : ℕ → Option Failure → Outcome T

abbrev is_exhaustion : ExceptionType → Bool
is_exhaustion retry_exhausted = true
is_exhaustion _ = false

-- What the loop does after one attempt.
pub data Verdict (T : Type 0) : Type 0 where
  stop : Outcome T → Verdict T
  retry : Failure → Verdict T

failure_verdict : {T : Type 0} → Failure → Verdict T
unfolding classify
failure_verdict f =
    if is_exhaustion f.type_of
    then stop (reraised f)
    else elim (classify f) [ business ↦ stop (reraised f) | infra ↦ retry f ]

unfoldable pub verdict : {T : Type 0} → Attempt T → Verdict T
unfolding failure_verdict
verdict (returns v) = stop (value v)
verdict (raises f) = failure_verdict f

-- The outcome, the number of calls made, and the attempts after which the loop slept.
abbrev pub Trace : Type 0 → Type 0
Trace T = Outcome T × ℕ × List ℕ

-- The loop from attempt `k` on, with `left` attempts to go. `run k` is what the k-th call of the
-- node does; the environment chooses it.
unfoldable pub retry_from : {T : Type 0} → (ℕ → Attempt T) → ℕ → ℕ → ℕ → Option Failure → Trace T
retry_from run attempts zero k last = (exhausted attempts last, 0, [])
retry_from run attempts (suc left) k last = elim (verdict (run k)) [
  | stop o ↦ (o, 1, [])
  | retry f ↦
      let (o, calls, sleeps) = retry_from run attempts left (k + 1) (some f) in
      (o, calls + 1, if left == 0 then sleeps else k ∷ sleeps)
]

-- `with_retries`, whose attempts are counted from 1.
unfoldable pub with_retries : {T : Type 0} → (ℕ → Attempt T) → ℕ → Trace T
unfolding retry_from
with_retries run attempts = retry_from run attempts attempts 1 none
