-- ===== src/Queues/Ordering/Records.antt =====
-- What becomes of the records in unbounded_ordering_queue (sinks/unbounded_ordering_queue.hpp).
use mathlib.Core.List.{Perm, perm_append_singleton, append-nil}
use mathlib.Core.List.Perm
use boost_log.Base.{sequence-Perm, ℕ, ◌≡◌, Bool, some, List, [], ◌∷◌, ◌++◌, sym, subst}
use boost_log.Queues.Ordering.{
  PriorityQueue, IsPriorityQueue, EnqueuedRecord, OrderingQueue, Action, Result, pushed, taken,
  sleeps, nothing, order, empty_queue, step, run,
}
use boost_log.Queues.Ordering.Moves.{Moves, step-Moves}

module _ {R : Type 0} where
  abbrev pushed_by : Result R → List (EnqueuedRecord R)
  pushed_by (pushed e) = e ∷ []
  pushed_by _ = []

  abbrev taken_by : Result R → List (EnqueuedRecord R)
  taken_by (taken e) = e ∷ []
  taken_by _ = []

  pub all_pushed : List (Result R) → List (EnqueuedRecord R)
  all_pushed [] = []
  all_pushed (r ∷ results) = pushed_by r ++ all_pushed results

  unfoldable pub all_taken : List (Result R) → List (EnqueuedRecord R)
  all_taken [] = []
  all_taken (r ∷ results) = taken_by r ++ all_taken results

module _ {R S : Type 0} (set : PriorityQueue (EnqueuedRecord R) S) (before : R → R → Bool)
    (ordering_window : ℕ) (is : IsPriorityQueue (order before) set) where
  abbrev Settles : S → OrderingQueue S × Result R → Type 0
  Settles s (q, result) =
      Perm (set.contents s ++ pushed_by result) (taken_by result ++ set.contents q.queue)

  same-Settles : (s : S) → Perm (set.contents s ++ []) (set.contents s)
  same-Settles s = rw append-nil (Perm.refl (set.contents s))

  push-Settles :
      (e : EnqueuedRecord R) (s : S) → Perm (set.contents s ++ e ∷ []) (set.contents (set.push e s))
  push-Settles e s =
      Perm.trans (perm_append_singleton e (set.contents s)) (Perm.symm (is.contents-push e s))

  pop-Settles :
      (e : EnqueuedRecord R) (s : S)
      → set.top s ≡ some e
      → Perm (set.contents s ++ []) (e ∷ set.contents (set.pop s))
  pop-Settles e s at_top = rw append-nil (is.contents-pop s e at_top)

  step-Settles :
      (now : ℕ) (a : Action R) (s : S) (r : OrderingQueue S × Result R)
      → Moves set ordering_window now a s r
      → Settles s r
  step-Settles now a s (q, pushed e) (_, grown) =
      subst (λ t. Perm (set.contents s ++ e ∷ []) (set.contents t)) (sym grown) (push-Settles e s)
  step-Settles now a s (q, taken e) (at_top, popped, _) =
      subst (λ t. Perm (set.contents s ++ []) (e ∷ set.contents t)) (sym popped)
        (pop-Settles e s at_top)
  step-Settles now a s (q, sleeps n) same =
      subst (λ t. Perm (set.contents s ++ []) (set.contents t)) (sym same) (same-Settles s)
  step-Settles now a s (q, nothing) same =
      subst (λ t. Perm (set.contents s ++ []) (set.contents t)) (sym same) (same-Settles s)

  run-Settles :
      (actions : List (ℕ × Action R)) (q : OrderingQueue S)
      → let (q', results) = run set ordering_window actions q in
        Perm
          (set.contents q.queue ++ all_pushed results)
          (all_taken results ++ set.contents q'.queue)
  unfolding run all_pushed all_taken
  run-Settles [] q = same-Settles q.queue
  run-Settles ((now, a) ∷ rest) q =
      let r = step set ordering_window now a q in
      let others = run set ordering_window rest r.0 in
      sequence-Perm (set.contents q.queue) (pushed_by r.1) (taken_by r.1) (set.contents r.0.queue)
        (all_pushed others.1) (all_taken others.1) (set.contents others.0.queue)
        (step-Settles now a q.queue r (step-Moves set ordering_window now a q))
        (run-Settles rest r.0)

  -- The records that were put into the queue are, in some order, those that were taken from it and those
  -- that are still in it: none is lost or doubled.
  run-conserved :
      (actions : List (ℕ × Action R))
      → let (q, results) = run set ordering_window actions (empty_queue set) in
        Perm (all_pushed results) (all_taken results ++ set.contents q.queue)
  unfolding empty_queue
  run-conserved actions =
      let (q, results) = run set ordering_window actions (empty_queue set) in
      subst (λ l. Perm (l ++ all_pushed results) (all_taken results ++ set.contents q.queue))
        is.contents-empty (run-Settles actions (empty_queue set))
