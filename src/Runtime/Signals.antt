-- ===== src/Runtime/Signals.antt =====
-- internal/runtime/signal.go: the signals that end the context of the controller.
use gameserver_ingress_contr.Base.{ℕ, Bool, Option, List, [], ◌∷◌}

-- `os.Interrupt`, which is SIGINT, and SIGTERM.
pub data Signal : Type 0 where
  interrupt terminate : Signal

-- What the operating system and the libraries make of the signals that a process has received.
pub record Signals : Type 0 where
  -- `signal.NotifyContext(ctx, sigs...)`: whether the context is done after the signals received
  pub notify_context : List Signal → List Signal → Bool
  -- whether the signals end the process, and with which status: those received before the call of
  -- `ctrl.SetupSignalHandler()`, and those received after it
  pub process_ends : List Signal → List Signal → Option ℕ

-- `SetupSignal`
abbrev pub setup_signal : Signals → List Signal → Bool
setup_signal signals = signals.notify_context (interrupt ∷ [])
