-- ===== src/AsyncFrontend/Ordering.antt =====
-- unbounded_ordering_queue (sinks/unbounded_ordering_queue.hpp) as the queueing strategy of
-- asynchronous_sink (sinks/async_frontend.hpp).
use mathlib.Core.List.{Perm}
use mathlib.Core.List.Perm
use boost_log.Base.{
  ℕ, ◌≡◌, Bool, true, false, Option, none, some, List, ◌∷◌, map, if◌then◌else◌, arith, refl, sym,
  subst,
}
use boost_log.Queues.Ordering.{
  PriorityQueue, IsPriorityQueue, EnqueuedRecord, OrderingQueue, order, enqueue_unlocked, take,
  Action, enqueue, try_enqueue, try_dequeue_ready, try_dequeue, dequeue_ready, interrupt_dequeue,
  Result, pushed, taken, sleeps, nothing, step,
}
use boost_log.Queues.Ordering.Moves.{Moves, step-Moves}
use boost_log.AsyncFrontend.{RecordQueue, IsInterruptible, Pass, received, interrupted, waits}
use boost_log.AsyncFrontend.Conservation.{IsConserving, got, got_by_pass}

module _ {R : Type 0} where
  -- The results as the frontend sees them.
  abbrev given : Result R → Option R
  given (taken e) = some e.rec
  given _ = none

  abbrev is_pushed : Result R → Bool
  is_pushed (pushed e) = true
  is_pushed _ = false

  abbrev pass_of : Bool → Result R → Pass R
  pass_of was_requested (taken e) = received e.rec
  pass_of true _ = interrupted
  pass_of false _ = waits

module _ {R S : Type 0} (set : PriorityQueue (EnqueuedRecord R) S) (ordering_window : ℕ) where
  abbrev records_in : S → List R
  records_in s = map (λ e. e.rec) (set.contents s)

  unfoldable pub ordering_strategy : RecordQueue R (OrderingQueue S)
  ordering_strategy = record {
    enqueue = λ now r q. (step set ordering_window now (enqueue r) q).0;
    try_enqueue = λ now owns_lock r q.
        let (q1, result) = step set ordering_window now (try_enqueue owns_lock r) q in
        (q1, is_pushed result);
    try_dequeue_ready = λ now q.
        let (q1, result) = step set ordering_window now try_dequeue_ready q in (q1, given result);
    try_dequeue = λ now q.
        let (q1, result) = step set ordering_window now try_dequeue q in (q1, given result);
    dequeue_ready = λ now q.
        let (q1, result) = step set ordering_window now dequeue_ready q in
        (q1, pass_of q.is_interruption_requested result);
    interrupt_dequeue = λ q. (step set ordering_window 0 interrupt_dequeue q).0;
    contents = λ q. records_in q.queue;
    is_interrupted = λ q. q.is_interruption_requested;
  }

  pub ordering_strategy-IsInterruptible : IsInterruptible ordering_strategy
  unfolding ordering_strategy step enqueue_unlocked take
  ordering_strategy-IsInterruptible = record {
    interrupt = λ q. refl;
    enqueue = λ now r q e. e;
    try_enqueue = λ now owns_lock r q e. ground (arith, e);
    dequeue_ready = λ now q e. ground (arith, e);
  }

  module _ (less : R → R → Bool) (is : IsPriorityQueue (order less) set) where
    shrinks :
        (now : ℕ) (a : Action R) (s : S) (q : OrderingQueue S) (result : Result R)
        → Moves set ordering_window now a s (q, result)
        → is_pushed result ≡ false
        → Perm (records_in s) (got (given result) (records_in q.queue))
    shrinks now a s q (pushed e) moved kept = absurd (ground (arith, kept))
    shrinks now a s q (taken e) (at_top, popped, _) kept =
        subst (λ t. Perm (records_in s) (e.rec ∷ records_in t)) (sym popped)
          (Perm.map (λ e. e.rec) (is.contents-pop s e at_top))
    shrinks now a s q (sleeps n) same kept =
        subst (λ t. Perm (records_in s) (records_in t)) (sym same) (Perm.refl (records_in s))
    shrinks now a s q nothing same kept =
        subst (λ t. Perm (records_in s) (records_in t)) (sym same) (Perm.refl (records_in s))

    pushed-grows :
        (now : ℕ) (r : R) (s : S)
        → Perm (records_in (set.push (record { timestamp = now; rec = r }) s)) (r ∷ records_in s)
    pushed-grows now r s =
        Perm.map (λ e. e.rec) (is.contents-push (record { timestamp = now; rec = r }) s)

    tried-grows :
        (now : ℕ) (owns_lock : Bool) (r : R) (q : OrderingQueue S)
        → let (q1, result) = step set ordering_window now (try_enqueue owns_lock r) q in
          Perm
            (records_in q1.queue)
            (if is_pushed result then r ∷ records_in q.queue else records_in q.queue)
    unfolding step enqueue_unlocked
    tried-grows now true r q = pushed-grows now r q.queue
    tried-grows now false r q = Perm.refl (records_in q.queue)

    passes :
        (now : ℕ) (q : OrderingQueue S) (requested : Bool) (result : Result R) (l : List R)
        → got_by_pass (pass_of requested result) l ≡ got (given result) l
    passes now q requested result l = ground arith

    step-keeps :
        (now : ℕ) (a : Action R) (q : OrderingQueue S)
        → is_pushed (step set ordering_window now a q).1 ≡ false
        → let (q1, result) = step set ordering_window now a q in
          Perm (records_in q.queue) (got (given result) (records_in q1.queue))
    step-keeps now a q kept =
        let (q1, result) = step set ordering_window now a q in
        shrinks now a q.queue q1 result (step-Moves set ordering_window now a q) kept

    pub ordering_strategy-IsConserving : IsConserving ordering_strategy
    unfolding ordering_strategy step enqueue_unlocked take
    ordering_strategy-IsConserving = record {
      enqueue = λ now r q. pushed-grows now r q.queue;
      try_enqueue = tried-grows;
      try_dequeue_ready = λ now q. step-keeps now try_dequeue_ready q (ground arith);
      try_dequeue = λ now q. step-keeps now try_dequeue q (ground arith);
      dequeue_ready = λ now q.
          let (q1, result) = step set ordering_window now dequeue_ready q in
          subst (Perm (records_in q.queue))
            (sym (passes now q q.is_interruption_requested result (records_in q1.queue)))
            (step-keeps now dequeue_ready q (ground arith));
      interrupt_dequeue = λ q. refl;
    }
