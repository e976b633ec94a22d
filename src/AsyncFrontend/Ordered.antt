-- ===== src/AsyncFrontend/Ordered.antt =====
-- asynchronous_sink (sinks/async_frontend.hpp) over unbounded_ordering_queue
-- (sinks/unbounded_ordering_queue.hpp), whose priority queue has the laws of std::priority_queue.
use mathlib.Core.List.{Perm}
use boost_log.Base.{ℕ, ◌≡◌, ◌≤◌, Bool, true, Option, List, ◌++◌, ap, map}
use boost_log.Queues.Ordering.{
  PriorityQueue, IsPriorityQueue, EnqueuedRecord, OrderingQueue, order, empty_queue,
}
use boost_log.AsyncFrontend.{System, outside, Move, calls_stop}
use boost_log.AsyncFrontend.Steps.{step, run_steps, construct}
use boost_log.AsyncFrontend.Feeding.{reached, is_inside}
use boost_log.AsyncFrontend.Stopping.{Departs, own_steps, run_steps-stop_ends}
use boost_log.AsyncFrontend.Records.{all_by, enqueued_by, taken_by, fed_by, held}
use boost_log.AsyncFrontend.Conservation.{run_steps-keeps_records}
use boost_log.AsyncFrontend.Ordering.{
  ordering_strategy, ordering_strategy-IsInterruptible, ordering_strategy-IsConserving,
}

module _ {R S : Type 0} (set : PriorityQueue (EnqueuedRecord R) S) (ordering_window : ℕ) where
  -- With unbounded_ordering_queue: whatever the threads do, the records that were enqueued are, in some order,
  -- those that the backend was given, the one that the feeding thread has in hand, and those in the queue; and
  -- the backend is given them in the order in which they are taken from the queue. The priority queue of the
  -- queue keeps the laws of std::priority_queue for the order of its records.
  pub ordered-keeps_records :
      (less : R → R → Bool) (dedicated_thread : Option ℕ) (moves : List (ℕ × ℕ × Move R))
      → IsPriorityQueue (order less) set
      → let strategy = ordering_strategy set ordering_window in
        let (s, results) =
          run_steps strategy moves (construct strategy (empty_queue set) dedicated_thread) in
        Perm
          (all_by enqueued_by results)
          (all_by fed_by results ++ held strategy s ++ strategy.contents s.frontend.queue)
        × (all_by taken_by results ≡ all_by fed_by results ++ held strategy s)
  unfolding ordering_strategy empty_queue
  ordered-keeps_records less dedicated_thread moves is =
      run_steps-keeps_records (ordering_strategy set ordering_window)
        (ordering_strategy-IsConserving set ordering_window less is) (empty_queue set)
        dedicated_thread moves (ap (map (λ e. e.rec)) is.contents-empty)

  -- The state of the sink after the moves, from its construction on.
  abbrev run_earlier : Option ℕ → List (ℕ × ℕ × Move R) → System R (OrderingQueue S)
  run_earlier = reached (ordering_strategy set ordering_window) (empty_queue set)

  -- With unbounded_ordering_queue: if a thread feeds records when another one, which is in no call, calls stop(),
  -- it leaves the functions that feed records, and resets the flag for which stop() waits, before it has done nine
  -- further steps, whatever the other threads do and whatever the backend, the priority queue and the clock
  -- answer.
  pub ordered-stop_ends :
      (dedicated_thread : Option ℕ) (earlier moves : List (ℕ × ℕ × Move R)) (t u now : ℕ)
      → is_inside ((run_earlier dedicated_thread earlier).phases t) ≡ true
      → (run_earlier dedicated_thread earlier).phases u ≡ outside
      → 9 ≤ own_steps t moves
      → Departs
          (ordering_strategy set ordering_window)
          (ordering_strategy-IsInterruptible set ordering_window)
          t
          (step
            (ordering_strategy set ordering_window)
            (u, now, calls_stop)
            (run_earlier dedicated_thread earlier)).0
          moves
  ordered-stop_ends dedicated_thread earlier moves t u now =
      run_steps-stop_ends (ordering_strategy set ordering_window)
        (ordering_strategy-IsInterruptible set ordering_window) (empty_queue set) dedicated_thread
        earlier moves t u now
