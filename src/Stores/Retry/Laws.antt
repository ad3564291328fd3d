-- ===== src/Stores/Retry/Laws.antt =====
-- How many attempts `withRetry` makes, and what it returns.
use gameserver_ingress_contr.Base.{ℕ, zero, suc, ◌-◌, ◌≤◌, ◌<◌, ◌<>◌, ◌≡◌, ap, ◌∙◌, arith}
use gameserver_ingress_contr.Base.Action.{Action}
use gameserver_ingress_contr.Base.Result.{ok, err}
use gameserver_ingress_contr.Platform.{Libs}
use gameserver_ingress_contr.Stores.Retry.{
  retry_loop, next_attempt, retry_failed, attempts, with_retry,
}

-- `FailsFor sleep f k w w'`: `k` attempts, each after a sleep, end with errors and lead from `w` to
-- `w'`.
pub data FailsFor {E W : Type 0} (sleep : W → W) (f : Action E W (Unit {0}))
    : ℕ → W → W → Type 0 where
  none_yet : {w : W} → FailsFor sleep f 0 w w
  fails :
      {w w1 w2 : W} {e : E} {k : ℕ}
      → f (sleep w) ≡ (err e, w1)
      → FailsFor sleep f k w1 w2
      → FailsFor sleep f (suc k) w w2

module _ {E W : Type 0} (libs : Libs E) (sleep : W → W) (f : Action E W (Unit {0})) where
  loop_succeeds :
      (n : ℕ) {k : ℕ} {w v v' : W}
      → FailsFor sleep f k w v
      → k ≤ n
      → f (sleep v) ≡ (ok tt, v')
      → retry_loop libs sleep n f w ≡ (ok tt, v')
  unfolding retry_loop
  loop_succeeds zero none_yet le e = e
  loop_succeeds (suc n) none_yet le e = ap (next_attempt (retry_loop libs sleep n f)) e
  loop_succeeds zero (fails h rest) le e = absurd (omega arith)
  loop_succeeds (suc n) (fails h rest) le e =
      ap (next_attempt (retry_loop libs sleep n f)) h ∙ loop_succeeds n rest (omega arith) e

  loop_fails :
      (n : ℕ) {w v v' : W} {e : E}
      → FailsFor sleep f n w v
      → f (sleep v) ≡ (err e, v')
      → retry_loop libs sleep n f w ≡ (err e, v')
  unfolding retry_loop
  loop_fails zero none_yet e = e
  loop_fails (suc n) (fails h rest) e =
      ap (next_attempt (retry_loop libs sleep n f)) h ∙ loop_fails n rest e

  -- If an attempt succeeds after `k` that fail, and `k` is less than the number of retries, or is 0,
  -- then `withRetry` succeeds, right after that attempt.
  pub with_retry_succeeds :
      (max_retries k : ℕ) {w v v' : W}
      → FailsFor sleep f k w v
      → k < attempts max_retries
      → f (sleep v) ≡ (ok tt, v')
      → with_retry libs sleep max_retries f w ≡ (ok tt, v')
  unfolding with_retry
  with_retry_succeeds max_retries k h lt e =
      let few : k ≤ attempts max_retries - 1 = omega arith in
      ap (λ (r, w'). (retry_failed libs sleep (attempts max_retries) r, w'))
        (loop_succeeds (attempts max_retries - 1) h few e)

  -- If all the attempts fail, which are `max_retries` ones, or one if that is 0, then `withRetry`
  -- returns the error of the last attempt, wrapped with their number.
  pub with_retry_fails :
      (max_retries : ℕ) {w v v' : W} {e : E}
      → FailsFor sleep f (attempts max_retries - 1) w v
      → f (sleep v) ≡ (err e, v')
      → with_retry libs sleep max_retries f w ≡ (
        err (
            libs.wrap e
              ("retry failed after " <> libs.format_int (attempts max_retries) <> " attempts")),
        v',
      )
  unfolding with_retry
  with_retry_fails max_retries h e =
      ap (λ (r, w'). (retry_failed libs sleep (attempts max_retries) r, w'))
        (loop_fails (attempts max_retries - 1) h e)
