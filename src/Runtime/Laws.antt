-- ===== src/Runtime/Laws.antt =====
-- Which logger the packages share.
use gameserver_ingress_contr.Base.{
  Bool, true, ◌≡◌, refl, ap, ◌∙◌, Option, none, some, List, [], ◌∷◌,
}
use gameserver_ingress_contr.Runtime.{
  State, initial, new_logger, shared_logger, LoggerCall, call_new_logger, call_logger, after_call,
  after_calls,
}

-- The level that a row of calls has asked for last, from the level before it.
abbrev pub asked_last : Option Bool → List LoggerCall → Option Bool
asked_last before [] = before
asked_last before (call_new_logger verbose ∷ cs) = asked_last (some verbose) cs
asked_last none (call_logger ∷ cs) = asked_last (some true) cs
asked_last (some verbose) (call_logger ∷ cs) = asked_last (some verbose) cs

-- The states that calls lead to: no logger yet, or one of a level.
abbrev pub state_of : Option Bool → State
state_of none = initial
state_of (some verbose) = record { log = none; logger = some (some verbose) }

after_calls_state :
    (before : Option Bool) (cs : List LoggerCall)
    → after_calls cs (state_of before) ≡ state_of (asked_last before cs)
unfolding after_calls after_call new_logger shared_logger
after_calls_state before [] = refl
after_calls_state none (call_new_logger verbose ∷ cs) = after_calls_state (some verbose) cs
after_calls_state (some v) (call_new_logger verbose ∷ cs) = after_calls_state (some verbose) cs
after_calls_state none (call_logger ∷ cs) = after_calls_state (some true) cs
after_calls_state (some v) (call_logger ∷ cs) = after_calls_state (some v) cs

shared_state :
    (level : Option Bool)
    → (shared_logger (state_of level)).0 ≡ some (asked_last level (call_logger ∷ []))
unfolding shared_logger new_logger
shared_state none = refl
shared_state (some v) = refl

-- From the start of the process and after any calls of `NewLogger` and `Logger`: `Logger` returns
-- an entry, never nil, on a logger of the level that the last call of `NewLogger` has asked for, or
-- on one that is verbose where there was none; and the package's variable `log` is still nil, so
-- that every call of `NewLogger` makes another logger.
pub shared_logger-asked_last :
    (cs : List LoggerCall)
    → ((shared_logger (after_calls cs initial)).0
        ≡ some (asked_last (asked_last none cs) (call_logger ∷ [])))
      × ((after_calls cs initial).log ≡ none)
shared_logger-asked_last cs = (
  ap (λ s. (shared_logger s).0) (after_calls_state none cs) ∙ shared_state (asked_last none cs),
  ap (λ (s : State). s.log) (after_calls_state none cs) ∙ no_log (asked_last none cs),
)
  where
    no_log : (level : Option Bool) → (state_of level).log ≡ none
    no_log none = refl
    no_log (some v) = refl
