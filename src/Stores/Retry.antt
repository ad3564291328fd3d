-- ===== src/Stores/Retry.antt =====
-- `withRetry` of pkg/stores/store.go, and the waits for the caches that run in it.
pub mod Laws
use gameserver_ingress_contr.Base.{ℕ, zero, suc, ◌-◌, ◌<>◌}
use gameserver_ingress_contr.Base.Result.{Result, ok, err, panic}
use gameserver_ingress_contr.Base.Action.{Action}
use gameserver_ingress_contr.Platform.{Libs}

-- `if maxRetries <= 0 { maxRetries = 1 }`
abbrev pub attempts : ℕ → ℕ
attempts zero = 1
attempts (suc n) = suc n

-- `if err = f(); err == nil { return nil }; continue`
abbrev pub next_attempt :
    {E W : Type 0} → Action E W (Unit {0}) → Result E (Unit {0}) × W → Result E (Unit {0}) × W
next_attempt rest (ok _, w) = (ok tt, w)
next_attempt rest (err _, w) = rest w
next_attempt rest (panic, w) = (panic, w)

module _ {E W : Type 0} (libs : Libs E) (sleep : W → W) where
  -- The loop, with the number of attempts that follow the first one. Every attempt sleeps first.
  unfoldable pub retry_loop : ℕ → Action E W (Unit {0}) → Action E W (Unit {0})
  retry_loop zero f w = f (sleep w)
  retry_loop (suc n) f w = next_attempt (retry_loop n f) (f (sleep w))

  abbrev pub retry_failed : ℕ → Result E (Unit {0}) → Result E (Unit {0})
  retry_failed max_retries (err e) =
      err (libs.wrap e ("retry failed after " <> libs.format_int max_retries <> " attempts"))
  retry_failed max_retries r = r

  -- A negative count is 0 here: it passes the same test.
  unfoldable pub with_retry : ℕ → Action E W (Unit {0}) → Action E W (Unit {0})
  unfolding retry_loop
  with_retry max_retries f w =
      let (r, w') = retry_loop (attempts max_retries - 1) f w in
      (retry_failed (attempts max_retries) r, w')
