-- ===== src/Queues/Ordering/Window.antt =====
-- The order in which unbounded_ordering_queue (sinks/unbounded_ordering_queue.hpp) hands on its records.
use mathlib.Core.Bool.{Bool-set}
use mathlib.Core.List.{Mem, mem-cons_self, mem-cons_of_mem, forall_mem-cons}
use mathlib.Core.List.Perm
use boost_log.Base.{
  ℕ, ◌+◌, ◌*◌, ◌^◌, ◌≡◌, ◌≤◌, ◌<◌, Bool, true, not, ◌||◌, some, List, [], ◌∷◌, All, leb, arith, sym,
  subst,
}
use boost_log.Queues.Ordering.{
  PriorityQueue, IsPriorityQueue, EnqueuedRecord, OrderingQueue, Action, Result, pushed, taken,
  sleeps, nothing, order, elapsed, step, run,
}
use boost_log.Queues.Ordering.Moves.{IsReady, Moves, step-Moves}

-- The times of the steps do not go back, from `t` on. A clock of 63 bits does not wrap.
unfoldable pub IsClock : {R : Type 0} → ℕ → List (ℕ × Action R) → Type 0
IsClock t [] = Unit
IsClock t ((now, a) ∷ rest) = (t ≤ now) × (now < 2 ^ 63) × IsClock now rest

abbrev TakenIs : {R : Type 0} → (EnqueuedRecord R → Bool) → Result R → Type 0
TakenIs p (taken e) = p e ≡ true
TakenIs p _ = Unit

module _ {R S : Type 0} (set : PriorityQueue (EnqueuedRecord R) S) (before : R → R → Bool)
    (ordering_window : ℕ) where
  -- `x` may follow `e`: it does not come before it, or it was put into the queue a window later.
  abbrev may_follow : EnqueuedRecord R → EnqueuedRecord R → Bool
  may_follow e x =
      not (order before e x) || leb (e.timestamp + ordering_window * 1000000) x.timestamp

  pub IsOrdered : List (Result R) → Type 0
  IsOrdered [] = Unit
  IsOrdered (taken e ∷ results) = All (TakenIs (may_follow e)) results × IsOrdered results
  IsOrdered (_ ∷ results) = IsOrdered results

  module _ (is : IsPriorityQueue (order before) set) where
    abbrev Holds : (EnqueuedRecord R → Bool) → S → Type 0
    Holds p s = (x : EnqueuedRecord R) → Mem x (set.contents s) → p x ≡ true

    push-Holds :
        (p : EnqueuedRecord R → Bool) (e : EnqueuedRecord R) (s : S)
        → p e ≡ true
        → Holds p s
        → Holds p (set.push e s)
    push-Holds p e s at_e holds x m =
        (forall_mem-cons (λ y. Bool-set (p y) true)).1 (at_e, holds) x
          ((Perm.mem_iff (is.contents-push e s)).0 m)

    pop-Holds :
        (p : EnqueuedRecord R → Bool) (e : EnqueuedRecord R) (s : S)
        → set.top s ≡ some e
        → Holds p s
        → Holds p (set.pop s) × (p e ≡ true)
    pop-Holds p e s at_top holds =
        let all = is.contents-pop s e at_top in
        (
          (λ x m. holds x ((Perm.mem_iff all).1 (mem-cons_of_mem e m))),
          holds e ((Perm.mem_iff all).1 mem-cons_self),
        )

    abbrev Keeps : (EnqueuedRecord R → Bool) → OrderingQueue S × Result R → Type 0
    Keeps p (q, result) = Holds p q.queue × TakenIs p result

    step-Keeps :
        (p : EnqueuedRecord R → Bool) (now : ℕ) (a : Action R) (s : S)
        (r : OrderingQueue S × Result R)
        → Moves set ordering_window now a s r
        → Holds p s
        → ((rec : R) → p (record { timestamp = now; rec = rec }) ≡ true)
        → Keeps p r
    step-Keeps p now a s (q, pushed e) (at_now, grown) holds new =
        let at_e : p e ≡ true =
          subst (λ t. p (record { timestamp = t; rec = e.rec }) ≡ true) (sym at_now) (new e.rec) in
        (subst (Holds p) (sym grown) (push-Holds p e s at_e holds), tt)
    step-Keeps p now a s (q, taken e) (at_top, popped, _) holds new =
        let (rest, at_e) = pop-Holds p e s at_top holds in (subst (Holds p) (sym popped) rest, at_e)
    step-Keeps p now a s (q, sleeps n) same holds new = (subst (Holds p) (sym same) holds, tt)
    step-Keeps p now a s (q, nothing) same holds new = (subst (Holds p) (sym same) holds, tt)

    -- What is taken was in the queue, or came into it.
    run-taken :
        (p : EnqueuedRecord R → Bool) (t : ℕ) (actions : List (ℕ × Action R)) (q : OrderingQueue S)
        → IsClock t actions
        → Holds p q.queue
        → ((now : ℕ) (r : R) → t ≤ now → p (record { timestamp = now; rec = r }) ≡ true)
        → All (TakenIs p) (run set ordering_window actions q).1
    unfolding run IsClock
    run-taken p t [] q clock holds new = tt
    run-taken p t ((now, a) ∷ rest) q (le, lt, clock) holds new =
        let (kept, at_result) =
          step-Keeps p now a q.queue (step set ordering_window now a q)
            (step-Moves set ordering_window now a q) holds (λ r. new now r le) in
        (
          at_result,
          run-taken p now rest (step set ordering_window now a q).0 clock kept
              (λ later r f. new later r (omega (arith, le, f))),
        )

    elapsed-window :
        (now timestamp : ℕ)
        → timestamp ≤ now
        → now < 2 ^ 63
        → leb ordering_window (elapsed now timestamp) ≡ true
        → timestamp + ordering_window * 1000000 ≤ now
    unfolding elapsed
    elapsed-window now timestamp le lt due = ground arith

    abbrev is_before : ℕ → EnqueuedRecord R → Bool
    is_before t x = leb x.timestamp t

    abbrev FollowedWell : Result R → List (Result R) → Type 0
    FollowedWell (taken e) results = All (TakenIs (may_follow e)) results
    FollowedWell _ results = Unit

    cons-IsOrdered :
        (result : Result R) (results : List (Result R))
        → FollowedWell result results
        → IsOrdered results
        → IsOrdered (result ∷ results)
    unfolding IsOrdered
    cons-IsOrdered (pushed e) results well ordered = ordered
    cons-IsOrdered (taken e) results well ordered = (well, ordered)
    cons-IsOrdered (sleeps n) results well ordered = ordered
    cons-IsOrdered nothing results well ordered = ordered

    due-FollowedWell :
        (now : ℕ) (a : Action R) (s : S) (r : OrderingQueue S × Result R)
        (rest : List (ℕ × Action R))
        → now < 2 ^ 63
        → Moves set ordering_window now a s r
        → IsReady (now, a)
        → Holds (is_before now) s
        → IsClock now rest
        → FollowedWell r.1 (run set ordering_window rest r.0).1
    due-FollowedWell now a s (q, pushed e) rest lt moves ready stamped clock = tt
    due-FollowedWell now a s (q, sleeps n) rest lt moves ready stamped clock = tt
    due-FollowedWell now a s (q, nothing) rest lt moves ready stamped clock = tt
    due-FollowedWell now a s (q, taken e) rest lt (at_top, popped, late) ready stamped clock =
        let in_time =
          elapsed-window now e.timestamp
            (ground (arith, (pop-Holds (is_before now) e s at_top stamped).1)) lt (late ready) in
        let follow : Holds (may_follow e) s = λ x m. ground (arith, is.top-first s e x at_top m) in
        run-taken (may_follow e) now rest q clock
          (subst (Holds (may_follow e)) (sym popped) (pop-Holds (may_follow e) e s at_top follow).0)
          (λ later r f. ground (arith, in_time, f))

    -- If the records are taken by the calls that wait for the window, and the clock does not go back,
    -- then of any two records the one that comes before the other is taken first, unless it was put into
    -- the queue a window or more after the other.
    pub run-IsOrdered :
        (t : ℕ) (actions : List (ℕ × Action R)) (q : OrderingQueue S)
        → IsClock t actions
        → All IsReady actions
        → Holds (is_before t) q.queue
        → IsOrdered (run set ordering_window actions q).1
    unfolding run IsClock IsOrdered
    run-IsOrdered t [] q clock ready stamped = tt
    run-IsOrdered t ((now, a) ∷ rest) q (le, lt, clock) (at_a, ready) stamped =
        let r = step set ordering_window now a q in
        let later : Holds (is_before now) q.queue = λ x m. ground (arith, stamped x m, le) in
        let kept =
          step-Keeps (is_before now) now a q.queue r (step-Moves set ordering_window now a q) later
            (λ s. ground arith) in
        cons-IsOrdered r.1 (run set ordering_window rest r.0).1
          (due-FollowedWell now a q.queue r rest lt (step-Moves set ordering_window now a q) at_a
            later clock)
          (run-IsOrdered now rest r.0 clock ready kept.0)
