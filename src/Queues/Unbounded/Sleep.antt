-- ===== src/Queues/Unbounded/Sleep.antt =====
-- The consumer of unbounded_fifo_queue (sinks/unbounded_fifo_queue.hpp) does not sleep beside a record.
use boost_log.Base.{
  ℕ, suc, ◌+◌, ◌≡◌, ◌≢◌, ◌≤◌, ◌⊎◌, inl, inr, Bool, true, false, List, [], ◌∷◌, arith, refl, subst,
}
use boost_log.Queues.Unbounded.{
  Consumer, waiting, resetting, checking, clearing, State, Action, enqueue, interrupt_dequeue,
  try_set, post, dequeue, try_dequeue, construct, try_pop, dequeue_step, step, run,
}

List-cases : (xs : List ℕ) → (xs ≡ []) ⊎ ((y : ℕ) × (ys : List ℕ) × (xs ≡ y ∷ ys))
List-cases [] = inl refl
List-cases (y ∷ ys) = inr (y, ys, refl)

abbrev one_if : Bool → ℕ
one_if true = 1
one_if false = 0

abbrev length_of : List ℕ → ℕ
length_of [] = 0
length_of (x ∷ xs) = suc (length_of xs)

-- Whether the consumer is behind sem_wait and has not reset the event yet, whether it has and will look at
-- the interruption flag, and whether it sleeps.
abbrev is_resetting : Consumer → ℕ
is_resetting resetting = 1
is_resetting _ = 0

abbrev is_before_check : Consumer → ℕ
is_before_check resetting = 1
is_before_check checking = 1
is_before_check clearing = 1
is_before_check _ = 0

abbrev is_before_pop : Consumer → ℕ
is_before_pop waiting = 0
is_before_pop _ = 1

-- A state that is set will be seen, a record or an interruption will set it.
pub record IsAwake (s : State) : Type 0 where
  set : one_if s.is_set ≤ s.semaphore + s.before_post + is_resetting s.consumer
  queued : (length_of s.queue ≡ 0) ⊎ (1 ≤ one_if s.is_set + s.before_set + is_before_pop s.consumer)
  interrupted :
      one_if s.is_interruption_requested
      ≤ one_if s.is_set + s.before_set + is_before_check s.consumer

construct-IsAwake : IsAwake construct
unfolding construct
construct-IsAwake = record { set = ground arith; queued = inl refl; interrupted = ground arith }

step-IsAwake : (a : Action) (s : State) → IsAwake s → IsAwake (step a s)
unfolding step dequeue_step try_pop
step-IsAwake (enqueue r) s is = record {
  set = ground (arith, is.set);
  queued = ground (arith, is.queued, is.set);
  interrupted = ground (arith, is.interrupted);
}
step-IsAwake interrupt_dequeue s is = record {
  set = ground (arith, is.set);
  queued = ground (arith, is.queued, is.set);
  interrupted = ground (arith, is.interrupted);
}
step-IsAwake try_set s is = record {
  set = ground (arith, is.set);
  queued = ground (arith, is.queued, is.set);
  interrupted = ground (arith, is.interrupted);
}
step-IsAwake post s is = record {
  set = ground (arith, is.set);
  queued = ground (arith, is.queued, is.set);
  interrupted = ground (arith, is.interrupted);
}
step-IsAwake dequeue s is = record {
  set = ground (arith, is.set);
  queued = ground (arith, is.queued, is.set);
  interrupted = ground (arith, is.interrupted);
}
step-IsAwake try_dequeue s is = record {
  set = ground (arith, is.set);
  queued = ground (arith, is.queued, is.set);
  interrupted = ground (arith, is.interrupted);
}

run-IsAwake : (actions : List Action) (s : State) → IsAwake s → IsAwake (run actions s)
unfolding run
run-IsAwake [] s is = is
run-IsAwake (a ∷ rest) s is = run-IsAwake rest (step a s) (step-IsAwake a s is)

-- After any steps of the threads in any order, where the consumer sleeps and a record is in the queue or
-- an interruption was requested, the semaphore lets it go on, or a thread that will post it is still in
-- set_signalled: no wake-up is lost.
pub run-awake :
    (actions : List Action) (s : State)
    → run actions construct ≡ s
    → s.consumer ≡ waiting
    → (s.queue ≢ []) ⊎ (s.is_interruption_requested ≡ true)
    → (1 ≤ s.semaphore) ⊎ (1 ≤ s.before_set + s.before_post)
run-awake actions s ran sleeps due =
    let is = subst IsAwake ran (run-IsAwake actions construct construct-IsAwake) in
    elim due [
      | inl some_record ↦ elim (List-cases s.queue) [
        | inl e ↦ absurd (some_record e)
        | inr (r, rs, e) ↦ ground (arith, is.set, is.queued, sleeps, e)
      ]
      | inr interruption ↦ ground (arith, is.set, is.interrupted, sleeps, interruption)
    ]
