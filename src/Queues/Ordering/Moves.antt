-- ===== src/Queues/Ordering/Moves.antt =====
-- What a step of unbounded_ordering_queue (sinks/unbounded_ordering_queue.hpp) does to its set of records.
use boost_log.Base.{ℕ, ◌≡◌, true, false, some, Option-cases, Bool-cases, inl, inr, leb, refl}
use boost_log.Queues.Ordering.{
  PriorityQueue, EnqueuedRecord, OrderingQueue, Action, enqueue, try_enqueue, try_dequeue_ready,
  try_dequeue, dequeue_ready, interrupt_dequeue, Result, pushed, taken, elapsed, enqueue_unlocked,
  take, step,
}

-- A step other than try_dequeue, which does not wait for the window.
abbrev pub IsReady : {R : Type 0} → ℕ × Action R → Type 0
IsReady (now, try_dequeue) = ⊥
IsReady _ = Unit

module _ {R S : Type 0} (set : PriorityQueue (EnqueuedRecord R) S) (ordering_window : ℕ) where
  -- A record that is pushed has the time of the step. One that is taken was the top, and had been there
  -- for the window if the step waits for it.
  abbrev pub Moves : ℕ → Action R → S → OrderingQueue S × Result R → Type 0
  Moves now a s (q, pushed e) = (e.timestamp ≡ now) × (q.queue ≡ set.push e s)
  Moves now a s (q, taken e) =
      (set.top s ≡ some e)
      × (q.queue ≡ set.pop s)
      × (IsReady (now, a) → leb ordering_window (elapsed now e.timestamp) ≡ true)
  Moves now a s (q, _) = q.queue ≡ s

  pub step-Moves :
      (now : ℕ) (a : Action R) (q : OrderingQueue S)
      → Moves now a q.queue (step set ordering_window now a q)
  unfolding step enqueue_unlocked take
  step-Moves now (enqueue r) q = (refl, refl)
  step-Moves now (try_enqueue true r) q = (refl, refl)
  step-Moves now (try_enqueue false r) q = refl
  step-Moves now try_dequeue_ready q = elim (Option-cases (set.top q.queue)) [
    | inl e ↦ rw (step, e) refl
    | inr (x, e) ↦ elim (Bool-cases (leb ordering_window (elapsed now x.timestamp))) [
      | inl f ↦ rw (step, e, f) (e, refl, λ _. f)
      | inr f ↦ rw (step, e, f) refl
    ]
  ]
  step-Moves now try_dequeue q = elim (Option-cases (set.top q.queue)) [
    | inl e ↦ rw (step, e) refl
    | inr (x, e) ↦ rw (step, e) (e, refl, λ ready. absurd ready)
  ]
  step-Moves now dequeue_ready q = elim (Bool-cases q.is_interruption_requested) [
    | inl i ↦ rw (step, i) refl
    | inr i ↦ elim (Option-cases (set.top q.queue)) [
      | inl e ↦ rw (step, i, e) refl
      | inr (x, e) ↦ elim (Bool-cases (leb ordering_window (elapsed now x.timestamp))) [
        | inl f ↦ rw (step, i, e, f) (e, refl, λ _. f)
        | inr f ↦ rw (step, i, e, f) refl
      ]
    ]
  ]
  step-Moves now interrupt_dequeue q = refl
