-- ===== src/Runtime.antt =====
-- internal/runtime/log.go: the logger that the packages share.
pub mod Laws
pub mod Signals
use gameserver_ingress_contr.Base.{
  Bool, true, Option, none, some, List, [], ◌∷◌, if◌then◌else◌, is_some,
}

-- A logger of logrus, by what it is made with: whether its level is `Debug`. An entry is made from
-- a logger, or from a nil pointer.
abbrev pub Logger : Type 0
Logger = Bool

abbrev pub Entry : Type 0
Entry = Option Logger

-- The two variables of the package, `log` and `logger`.
pub record State : Type 0 where
  pub log : Option Logger
  pub logger : Option Entry

abbrev pub initial : State
initial = record { log = none; logger = none }

-- `log := logrus.New()` declares another variable: the package's own `log` stays as it is.
abbrev made_logger : Bool → State → State
made_logger verbose s = if is_some s.log then s else record s { logger = some (some verbose) }

-- `if logger == nil { logger = logrus.NewEntry(log) }; return logger`
abbrev returned : State → Entry × State
returned s = elim s.logger [
  | some entry ↦ (entry, s)
  | none ↦ (s.log, record s { logger = some s.log })
]

unfoldable pub new_logger : Bool → State → Entry × State
new_logger verbose s = returned (made_logger verbose s)

-- `if logger == nil { NewLogger(true) }; return logger`: the pointer, which may still be nil.
unfoldable pub shared_logger : State → Option Entry × State
unfolding new_logger
shared_logger s = elim s.logger [
  | some entry ↦ (some entry, s)
  | none ↦ let (_, s') = new_logger true s in (s'.logger, s')
]

-- The calls of the other packages.
pub data LoggerCall : Type 0 where
  call_new_logger : Bool → LoggerCall
  call_logger : LoggerCall

unfoldable pub after_call : LoggerCall → State → State
unfolding new_logger shared_logger
after_call (call_new_logger verbose) s = (new_logger verbose s).1
after_call call_logger s = (shared_logger s).1

unfoldable pub after_calls : List LoggerCall → State → State
after_calls [] s = s
after_calls (c ∷ cs) s = after_calls cs (after_call c s)
