-- ===== src/Core/Push/Once.antt =====
-- push_record (core.cpp) with an exception handler that returns, or with sinks that do not throw: the
-- loop runs until every sink is settled.
use mathlib.Core.List.{Perm}
use boost_log.Base.{
  count, ℕ, zero, suc, ◌+◌, ◌≡◌, ◌≢◌, refl, Bool, true, false, Option, none, some, List, [], ◌∷◌,
  ◌++◌, leb, length, arith,
}
use boost_log.Core.State.{HandlerAnswer}
use boost_log.Core.Open.{returned}
use boost_log.Core.Push.{
  TryAnswer, ConsumeAnswer, Trace, Environment, delivered, refused, handled, lock_sinks,
  last_to_front, Round, over, thrown_at, interrupted_at, try_all, resumed, handle, Blocking, served,
  failed_at, cut, block_on_first, Push, finished, resume, after_blocking, after_round, push_loop,
  push_record,
}
use boost_log.Core.Push.Count.{deliveries, failures}
use boost_log.Core.Push.Delivery.{PushKeeps, push_loop-Keeps}

abbrev RoundCalm : Option Round → Type 0
RoundCalm (some (interrupted_at t)) = ⊥
RoundCalm _ = Unit {0}

abbrev BlockingCalm : Blocking → Type 0
BlockingCalm (cut t) = ⊥
BlockingCalm _ = Unit {0}

-- If the loop ends, it has served its sinks.
abbrev PushCalm : Option Push → Type 0
PushCalm none = Unit {0}
PushCalm (some (finished t)) = Unit {0}
PushCalm (some (Push.escaped left t)) = ⊥
PushCalm (some (Push.stopped left t)) = ⊥

handle_returns :
    (e : Environment) (h : Trace → HandlerAnswer)
    → e.exception_handler ≡ some h
    → ((t : Trace) → h t ≡ HandlerAnswer.returns)
    → (t : Trace) → handle e.exception_handler t ≡ resumed (handled ∷ t)
unfolding handle
handle_returns e h set hr t = ground (arith, hr t)

module _ (e : Environment)
    (calm_try : (t : Trace) (s : ℕ) → e.try_consume t s ≢ TryAnswer.interrupts)
    (calm_consume : (t : Trace) (s : ℕ) → e.consume t s ≢ ConsumeAnswer.interrupts)
    (resumes : (t : Trace) → handle e.exception_handler t ≡ resumed (handled ∷ t)) where
  try_all-Calm :
      (fuel : ℕ) (before after : List ℕ) (all_locked : Bool) (t : Trace)
      → RoundCalm (try_all e fuel before after all_locked t)
  unfolding try_all
  try_all-Calm zero before [] all_locked t = tt
  try_all-Calm (suc fuel) before [] all_locked t = tt
  try_all-Calm zero before (s ∷ after) all_locked t = tt
  try_all-Calm (suc fuel) before (s ∷ after) all_locked t = ground (
    arith,
    calm_try t s,
    try_all-Calm fuel before (last_to_front after) false (delivered s ∷ t),
    try_all-Calm fuel (before ++ s ∷ []) after all_locked (refused s ∷ t),
  )

  block_on_first-Calm : (ss : List ℕ) (t : Trace) → BlockingCalm (block_on_first e ss t)
  unfolding block_on_first
  block_on_first-Calm [] t = tt
  block_on_first-Calm (s ∷ ss) t = ground (arith, calm_consume t s)

  module _ (again : List ℕ → List ℕ → Bool → Trace → Option Push)
      (calm : (before after : List ℕ) (shuffled : Bool) (t : Trace)
        → PushCalm (again before after shuffled t)) where
    after_blocking-Calm :
        (ss : List ℕ) (b : Blocking)
        → BlockingCalm b
        → PushCalm (after_blocking again e.exception_handler ss b)
    unfolding after_blocking
    after_blocking-Calm ss (served left t) c = calm [] left true t
    after_blocking-Calm ss (failed_at left t) c =
        rw (resumes t, resume) (calm [] left true (handled ∷ t))
    after_blocking-Calm ss (cut t) c = c

    after_round-Calm :
        (ss : List ℕ) (shuffled : Bool) (r : Option Round)
        → RoundCalm r
        → PushCalm (after_round again e ss shuffled r)
    unfolding after_round
    after_round-Calm ss shuffled none c = tt
    after_round-Calm ss shuffled (some (interrupted_at t)) c = c
    after_round-Calm ss shuffled (some (thrown_at before after t)) c =
        rw (resumes t, resume) (calm before after shuffled (handled ∷ t))
    after_round-Calm ss shuffled (some (over [] all_locked t)) c = tt
    after_round-Calm ss shuffled (some (over (x ∷ xs) false t)) c = calm [] (x ∷ xs) shuffled t
    after_round-Calm ss shuffled (some (over (x ∷ xs) true t)) c =
        after_blocking-Calm (x ∷ xs) _ (block_on_first-Calm _ t)

  push_loop-Calm :
      (fuel : ℕ) (before after : List ℕ) (shuffled : Bool) (t : Trace)
      → PushCalm (push_loop e fuel before after shuffled t)
  unfolding push_loop
  push_loop-Calm zero before after shuffled t = tt
  push_loop-Calm (suc fuel) before after shuffled t =
      after_round-Calm (push_loop e fuel) (push_loop-Calm fuel) (before ++ after) shuffled _
        (try_all-Calm (length after) before after true t)

  module _ (shuffles : (t : Trace) (ss : List ℕ) → Perm (e.random_shuffle t ss) ss)
      (accepting : List ℕ) where
    abbrev sinks : List ℕ
    sinks = lock_sinks e.lock accepting

    abbrev loop : Option Push
    loop = push_loop e (suc (length sinks)) [] sinks (leb (length sinks) 1) []

    finished-at :
        (r : Option Push)
        → loop ≡ r
        → PushCalm r
        → ((a : ℕ) → PushKeeps a (count a sinks) r)
        → (t : Trace) × (push_record e accepting ≡ some (returned tt, t))
          × ((a : ℕ) → deliveries a t + failures a t ≡ count a sinks)
    unfolding push_record
    finished-at none p c k = absurd (k 0)
    finished-at (some (finished t)) p c k = (t, rw (p, push_record), k)
    finished-at (some (Push.escaped left t)) p c k = absurd c
    finished-at (some (Push.stopped left t)) p c k = absurd c

    settles_all :
        (t : Trace) × (push_record e accepting ≡ some (returned tt, t))
        × ((a : ℕ) → deliveries a t + failures a t ≡ count a (lock_sinks e.lock accepting))
    unfolding count deliveries failures
    settles_all =
        finished-at loop refl
          (push_loop-Calm (suc (length sinks)) [] sinks (leb (length sinks) 1) [])
          (λ a.
            push_loop-Keeps e a shuffles (count a sinks) (suc (length sinks)) [] sinks
              (leb (length sinks) 1) [] (omega arith) (omega arith))

-- If no sink is interrupted, the exception handler is set and always returns, and std::random_shuffle
-- permutes its range, then push_record returns, and each sink is settled exactly as often as it is
-- among the accepting sinks that still exist: by a delivery or by an exception each time. So no sink is
-- left out, and none gets the record twice.
pub push_record-once :
    (e : Environment) (h : Trace → HandlerAnswer) (accepting : List ℕ)
    → ((t : Trace) (s : ℕ) → e.try_consume t s ≢ TryAnswer.interrupts)
    → ((t : Trace) (s : ℕ) → e.consume t s ≢ ConsumeAnswer.interrupts)
    → e.exception_handler ≡ some h
    → ((t : Trace) → h t ≡ HandlerAnswer.returns)
    → ((t : Trace) (ss : List ℕ) → Perm (e.random_shuffle t ss) ss)
    → (t : Trace) × (push_record e accepting ≡ some (returned tt, t))
      × ((a : ℕ) → deliveries a t + failures a t ≡ count a (lock_sinks e.lock accepting))
push_record-once e h accepting calm_try calm_consume set hr shuffles =
    settles_all e calm_try calm_consume (handle_returns e h set hr) shuffles accepting
