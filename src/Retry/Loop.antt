-- ===== src/Retry/Loop.antt =====
-- What the retry loop of graph/retries.py does.
use portfolio_project.Prelude.{
  ℕ, zero, suc, ◌+◌, ◌≤◌, ◌<◌, ◌≡◌, refl, ap, subst, false, Option, none, some, List, [], ◌∷◌,
  arith, ◌==◌, if◌then◌else◌,
}
use portfolio_project.Retry.{
  Failure, Attempt, Outcome, exhausted, stop, retry, verdict, retry_from, with_retries, Trace,
}

-- A failure after which the loop tries again.
abbrev pub IsRetried : {T : Type 0} → Attempt T → Type 0
IsRetried a = (f : Failure) × (verdict a ≡ retry f)

-- The `n` numbers from `k` on.
abbrev pub numbers_from : ℕ → ℕ → List ℕ
numbers_from k zero = []
numbers_from k (suc n) = k ∷ numbers_from (k + 1) n

module _ {T : Type 0} (run : ℕ → Attempt T) (attempts : ℕ) where
  retry_once :
      (left k : ℕ) (last : Option Failure) (f : Failure)
      → verdict (run k) ≡ retry f
      → retry_from run attempts (suc left) k last ≡ (
          let (o, calls, sleeps) = retry_from run attempts left (k + 1) (some f) in
          (o, calls + 1, if left == 0 then sleeps else k ∷ sleeps))
  unfolding retry_from
  retry_once left k last f e = rw (retry_from, e) refl

  stop_once :
      (left k : ℕ) (last : Option Failure) (o : Outcome T)
      → verdict (run k) ≡ stop o
      → retry_from run attempts (suc left) k last ≡ (o, 1, [])
  unfolding retry_from
  stop_once left k last o e = rw (retry_from, e) refl

  at_start : (k : ℕ) (P : ℕ → Type 0) → P (k + 0) → P k
  at_start k P p = subst P (zero_right k) p
    where
      zero_right : (n : ℕ) → n + 0 ≡ n
      zero_right n = omega arith

  shifted : (k m : ℕ) (P : ℕ → Type 0) → P (k + suc m) → P (k + 1 + m)
  shifted k m P p = subst P (shift k m) p
    where
      shift : (n j : ℕ) → n + suc j ≡ n + 1 + j
      shift n j = omega arith

  not_last : (left : ℕ) → (suc left == 0) ≡ false
  not_last left = ground arith

  stops_after :
      (m left k : ℕ) (last : Option Failure) (o : Outcome T)
      → m ≤ left
      → ((j : ℕ) → j < m → IsRetried (run (k + j)))
      → verdict (run (k + m)) ≡ stop o
      → retry_from run attempts (suc left) k last ≡ (o, suc m, numbers_from k m)
  stops_after zero left k last o le h e =
      stop_once left k last o (at_start k (λ n. verdict (run n) ≡ stop o) e)
  stops_after (suc m) zero k last o le h e = absurd (ground arith)
  stops_after (suc m) (suc left) k last o le h e =
      let (f, r) = at_start k (λ n. IsRetried (run n)) (h 0 (omega arith)) in
      let rest =
        stops_after m left (k + 1) (some f) o (omega arith)
          (λ j lt. shifted k j (λ n. IsRetried (run n)) (h (suc j) (omega arith)))
          (shifted k m (λ n. verdict (run n) ≡ stop o) e) in
      rw (retry_once (suc left) k last f r, rest, not_last left)
        (counted o m (k ∷ numbers_from (k + 1) m))
    where
      counted :
          (o : Outcome T) (m : ℕ) (xs : List ℕ)
          → ◌≡◌ {A = Trace T} (o, suc m + 1, xs) (o, suc (suc m), xs)
      counted o m xs = ap (λ (c : ℕ). (o, c, xs)) (omega arith)

  exhausts_after :
      (left k : ℕ) (last : Option Failure)
      → ((j : ℕ) → j ≤ left → IsRetried (run (k + j)))
      → (f : Failure) × (verdict (run (k + left)) ≡ retry f)
        × (retry_from run attempts (suc left) k last
            ≡ (exhausted attempts (some f), suc left, numbers_from k left))
  exhausts_after zero k last h =
      let (f, r) = h 0 (omega arith) in
      (
        f,
        r,
        rw (retry_once zero k last f (at_start k (λ n. verdict (run n) ≡ retry f) r))
            (unfold retry_from in refl),
      )
  exhausts_after (suc left) k last h =
      let (f, r) = at_start k (λ n. IsRetried (run n)) (h 0 (omega arith)) in
      let (g, s, rest) =
        exhausts_after left (k + 1) (some f)
          (λ j le. shifted k j (λ n. IsRetried (run n)) (h (suc j) (omega arith))) in
      (
        g,
        subst (λ n. verdict (run n) ≡ retry g) (shift_back k left) s,
        rw (retry_once (suc left) k last f r, rest, not_last left)
            (counted_all left (k ∷ numbers_from (k + 1) left) (exhausted attempts (some g))),
      )
    where
      shift_back : (n j : ℕ) → n + 1 + j ≡ n + suc j
      shift_back n j = omega arith

      counted_all :
          (m : ℕ) (xs : List ℕ) (o : Outcome T)
          → ◌≡◌ {A = Trace T} (o, suc m + 1, xs) (o, suc (suc m), xs)
      counted_all m xs o = ap (λ (c : ℕ). (o, c, xs)) (omega arith)

-- The first call whose result is not retried decides: its verdict is the outcome, no call is made
-- after it, and the loop has slept once after each call before it.
pub with_retries-stops :
    {T : Type 0} (run : ℕ → Attempt T) (attempts m : ℕ) (o : Outcome T)
    → m < attempts
    → ((j : ℕ) → j < m → IsRetried (run (1 + j)))
    → verdict (run (1 + m)) ≡ stop o
    → with_retries run attempts ≡ (o, suc m, numbers_from 1 m)
unfolding with_retries
with_retries-stops run zero m o lt h e = absurd (ground arith)
with_retries-stops run (suc left) m o lt h e =
    stops_after run (suc left) m left 1 none o (omega arith) h e

-- When every call is retried, the node is called exactly `attempts` times, the loop sleeps after
-- each call but the last, and `RetryExhausted` carries the failure of the last call.
pub with_retries-exhausts :
    {T : Type 0} (run : ℕ → Attempt T) (left : ℕ)
    → ((j : ℕ) → j ≤ left → IsRetried (run (1 + j)))
    → (f : Failure) × (verdict (run (1 + left)) ≡ retry f)
      × (with_retries run (suc left)
          ≡ (exhausted (suc left) (some f), suc left, numbers_from 1 left))
unfolding with_retries
with_retries-exhausts run left h = exhausts_after run (suc left) left 1 none h
