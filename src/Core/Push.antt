-- ===== src/Core/Push.antt =====
-- basic_core::push_record (core.cpp): the record goes to every sink that accepted it. The core first
-- tries the sinks that are not busy, and blocks on one only when a whole round found all of them busy.
-- The array of shared pointers between `begin` and `end` is two lists, the sinks before `it` and those
-- from `it` on. The answers of the sinks, the exception handler and std::random_shuffle are arguments,
-- and may depend on all that has happened in the call before.
pub mod Count
pub mod Delivery
pub mod Once
use boost_log.Base.{
  ℕ, zero, suc, ◌+◌, Bool, true, false, Option, none, some, List, [], ◌∷◌, ◌++◌, leb, if◌then◌else◌,
  length,
}
use boost_log.Core.State.{HandlerAnswer}
use boost_log.Core.Open.{Outcome, returned, threw, interrupted}

-- sink::try_consume: true, false, or an exception.
pub data TryAnswer : Type 0 where
  done busy throws interrupts : TryAnswer

-- sink::consume, which blocks until the sink is free.
pub data ConsumeAnswer : Type 0 where
  done throws interrupts : ConsumeAnswer

-- What has happened in a call of push_record, the latest first.
pub data Event : Type 0 where
  delivered refused failed : ℕ → Event
  handled : Event

abbrev pub Trace : Type 0
Trace = List Event

pub record Environment : Type 0 where
  pub lock : ℕ → Bool
  pub try_consume : Trace → ℕ → TryAnswer
  pub consume : Trace → ℕ → ConsumeAnswer
  pub random_shuffle : Trace → List ℕ → List ℕ
  pub exception_handler : Option (Trace → HandlerAnswer)

-- weak_ptr::lock on the accepting sinks: those that still exist.
pub lock_sinks : (ℕ → Bool) → List ℕ → List ℕ
lock_sinks lock [] = []
lock_sinks lock (s ∷ ss) = if lock s then s ∷ lock_sinks lock ss else lock_sinks lock ss

-- `--end; end->swap(*it)` with the sink at `it` taken off: the last sink comes to its place.
pub last_to_front : List ℕ → List ℕ
last_to_front [] = []
last_to_front (x ∷ xs) = elim (last_to_front xs) [ [] ↦ x ∷ [] | last ∷ rest ↦ last ∷ x ∷ rest ]

-- How a round over the sinks ends: past the last one, or by an exception at the sink `it`.
pub data Round : Type 0 where
  over : List ℕ → Bool → Trace → Round
  thrown_at : List ℕ → List ℕ → Trace → Round
  interrupted_at : Trace → Round

-- The inner loop, `while (it != end)`. Its fuel is the number of sinks from `it` on.
pub try_all : Environment → ℕ → List ℕ → List ℕ → Bool → Trace → Option Round
unfolding last_to_front
try_all e fuel before [] all_locked t = some (over before all_locked t)
try_all e zero before (s ∷ after) all_locked t = none
try_all e (suc fuel) before (s ∷ after) all_locked t = elim (e.try_consume t s) [
  | TryAnswer.done ↦ try_all e fuel before (last_to_front after) false (delivered s ∷ t)
  | TryAnswer.busy ↦ try_all e fuel (before ++ s ∷ []) after all_locked (refused s ∷ t)
  | TryAnswer.throws ↦ some (thrown_at before (last_to_front after) (failed s ∷ t))
  | TryAnswer.interrupts ↦ some (interrupted_at t)
]

-- catch (...): the handler is called, if there is one.
pub data Caught : Type 0 where
  resumed escaped stopped : Trace → Caught

pub handle : Option (Trace → HandlerAnswer) → Trace → Caught
handle none t = Caught.escaped t
handle (some h) t = elim (h t) [
  | HandlerAnswer.returns ↦ resumed (handled ∷ t)
  | HandlerAnswer.rethrows ↦ Caught.escaped (handled ∷ t)
  | HandlerAnswer.interrupts ↦ Caught.stopped (handled ∷ t)
]

-- The blocking call on the first sink: the sinks left over, and the trace.
pub data Blocking : Type 0 where
  served failed_at : List ℕ → Trace → Blocking
  cut : Trace → Blocking

pub block_on_first : Environment → List ℕ → Trace → Blocking
unfolding last_to_front
block_on_first e [] t = served [] t
block_on_first e (s ∷ ss) t = elim (e.consume t s) [
  | ConsumeAnswer.done ↦ served (last_to_front ss) (delivered s ∷ t)
  | ConsumeAnswer.throws ↦ failed_at (last_to_front ss) (failed s ∷ t)
  | ConsumeAnswer.interrupts ↦ cut t
]

-- How the outer loop ends, with the sinks that are still waiting then.
pub data Push : Type 0 where
  finished : Trace → Push
  escaped stopped : List ℕ → Trace → Push

-- Where the loop goes on after the handler: `again` is the rest of the loop.
pub resume :
    (List ℕ → List ℕ → Bool → Trace → Option Push) → List ℕ → List ℕ → Bool → Caught → Option Push
resume again before after shuffled (resumed t) = again before after shuffled t
resume again before after shuffled (Caught.escaped t) = some (Push.escaped (before ++ after) t)
resume again before after shuffled (Caught.stopped t) = some (Push.stopped (before ++ after) t)

-- What follows the blocking call.
pub after_blocking :
    (List ℕ → List ℕ → Bool → Trace → Option Push)
    → Option (Trace → HandlerAnswer)
    → List ℕ
    → Blocking
    → Option Push
unfolding resume handle
after_blocking again handler ss (served left t) = again [] left true t
after_blocking again handler ss (failed_at left t) = resume again [] left true (handle handler t)
after_blocking again handler ss (cut t) = some (Push.stopped ss t)

-- What follows a round: the loop ends, blocks on the first sink, or starts another round.
pub after_round :
    (List ℕ → List ℕ → Bool → Trace → Option Push)
    → Environment
    → List ℕ
    → Bool
    → Option Round
    → Option Push
unfolding after_blocking block_on_first
after_round again e sinks shuffled none = none
after_round again e sinks shuffled (some (interrupted_at t)) = some (Push.stopped sinks t)
after_round again e sinks shuffled (some (thrown_at before after t)) =
    resume again before after shuffled (handle e.exception_handler t)
after_round again e sinks shuffled (some (over [] all_locked t)) = some (finished t)
after_round again e sinks shuffled (some (over (s ∷ ss) false t)) = again [] (s ∷ ss) shuffled t
after_round again e sinks shuffled (some (over (s ∷ ss) true t)) =
    after_blocking again e.exception_handler (s ∷ ss)
      (block_on_first e (if shuffled then s ∷ ss else e.random_shuffle t (s ∷ ss)) t)

-- The outer loop, `while (true) try { … } catch (...) { … }`.
pub push_loop : Environment → ℕ → List ℕ → List ℕ → Bool → Trace → Option Push
unfolding try_all after_round
push_loop e zero before after shuffled t = none
push_loop e (suc fuel) before after shuffled t =
    after_round (push_loop e fuel) e (before ++ after) shuffled
      (try_all e (length after) before after true t)

-- The whole call: how it ends, and the trace. The outer catch (...) calls the handler for what escaped
-- the loop.
pub push_record : Environment → List ℕ → Option (Outcome (Unit {0}) × Trace)
unfolding push_loop lock_sinks
push_record e accepting =
    let sinks = lock_sinks e.lock accepting in
    elim (push_loop e (suc (length sinks)) [] sinks (leb (length sinks) 1) []) [
      | none ↦ none
      | some (finished t) ↦ some (returned tt, t)
      | some (Push.stopped _ t) ↦ some (interrupted, t)
      | some (Push.escaped _ t) ↦ elim (handle e.exception_handler t) [
        | resumed t' ↦ some (returned tt, t')
        | Caught.escaped t' ↦ some (threw, t')
        | Caught.stopped t' ↦ some (interrupted, t')
      ]
    ]
