-- ===== src/AsyncFrontend/Examples.antt =====
-- Runs of asynchronous_sink (sinks/async_frontend.hpp) with an ordering queue.
use mathlib.Core.List.{Perm}
use boost_log.Base.{
  ℕ, zero, suc, ◌≡◌, true, false, none, some, List, [], ◌∷◌, ◌++◌, ◌==◌, ltb, if◌then◌else◌, arith,
  refl,
}
use boost_log.Queues.Ordering.{
  OrderingQueue, elapsed, empty_queue, enqueue_unlocked, take, step as queue_step,
}
use boost_log.Queues.Ordering.Searched.{
  Records, searched, searched-IsPriorityQueue, least, without_least,
}
use boost_log.AsyncFrontend.{
  RecordQueue, outside, stopping, System, Move, calls_consume, calls_stop, goes_on,
}
use boost_log.AsyncFrontend.Steps.{step, run_steps, construct}
use boost_log.AsyncFrontend.Feeding.{reached, is_inside, run_steps-one_feeder}
use boost_log.AsyncFrontend.Stuck.{may_feed, is_blocked, run_steps-stays_blocked}
use boost_log.AsyncFrontend.Stopping.{Departs, own_steps}
use boost_log.AsyncFrontend.Records.{all_by, enqueued_by, taken_by, fed_by, held}
use boost_log.AsyncFrontend.Ordered.{ordered-keeps_records, ordered-stop_ends}
use boost_log.AsyncFrontend.Ordering.{ordering_strategy, ordering_strategy-IsInterruptible}

-- A window of no time.
abbrev strategy : RecordQueue ℕ (OrderingQueue Records)
strategy = ordering_strategy searched 0

abbrev empty : OrderingQueue Records
empty = empty_queue searched

-- So many steps of a thread.
steps : ℕ → ℕ → List (ℕ × ℕ × Move ℕ)
steps t zero = []
steps t (suc n) = (t, 1, goes_on true) ∷ steps t n

-- Thread 2 enqueues two records, and the dedicated thread 1 goes through its loop.
abbrev two_records : List (ℕ × ℕ × Move ℕ)
unfolding steps
two_records =
    (2, 0, calls_consume 9)
    ∷ (2, 0, goes_on true)
    ∷ (2, 0, calls_consume 4)
    ∷ (2, 0, goes_on true)
    ∷ steps 1 8

-- The lesser record is fed first, and the other one is in the hand of the thread.
two_records-fed :
    let (s, results) = run_steps strategy two_records (construct strategy empty (some 1)) in
    (all_by fed_by results ≡ 4 ∷ []) × (held strategy s ≡ 9 ∷ [])
unfolding two_records run_steps construct step queue_step enqueue_unlocked take elapsed empty_queue
    searched least without_least ordering_strategy all_by fed_by held
two_records-fed = (refl, refl)

run_steps-one_feeder_example :
    (◌≡◌ {A = ℕ} 1 1)
    × ((reached strategy empty (some 1) two_records).frontend.feeding_thread_id ≡ some 1)
unfolding two_records run_steps construct step queue_step enqueue_unlocked take elapsed empty_queue
    searched least without_least ordering_strategy is_inside
run_steps-one_feeder_example =
    run_steps-one_feeder strategy empty (some 1) two_records 1 1 refl refl

ordered-keeps_records_example :
    let (s, results) = run_steps strategy two_records (construct strategy empty (some 1)) in
    Perm
      (all_by enqueued_by results)
      (all_by fed_by results ++ held strategy s ++ strategy.contents s.frontend.queue)
    × (all_by taken_by results ≡ all_by fed_by results ++ held strategy s)
unfolding ordering_strategy empty_queue searched
ordered-keeps_records_example =
    ordered-keeps_records searched 0 ltb (some 1) two_records searched-IsPriorityQueue

ordered-stop_ends_example :
    Departs strategy
      (ordering_strategy-IsInterruptible searched 0)
      1
      (step strategy (2, 3, calls_stop) (reached strategy empty (some 1) two_records)).0
      (steps 1 9)
unfolding two_records run_steps construct step queue_step enqueue_unlocked take elapsed empty_queue
    searched least without_least ordering_strategy is_inside steps own_steps
ordered-stop_ends_example =
    ordered-stop_ends searched 0 (some 1) two_records (steps 1 9) 1 2 3 refl refl (omega arith)

-- The dedicated thread 1 is interrupted while it waits for a record, and leaves; then thread 2 calls stop.
abbrev interrupted_thread : List (ℕ × ℕ × Move ℕ)
unfolding steps
interrupted_thread =
    steps 1 6 ++ (1, 1, goes_on false) ∷ (1, 1, goes_on true) ∷ (2, 1, calls_stop) ∷ []

abbrev hanging : System ℕ (OrderingQueue Records)
hanging = record {
  frontend = record {
    queue = record { queue = []; is_interruption_requested = true; is_consumer_asleep = false };
    feeding_thread_id = none;
    dedicated_thread = some 1;
    is_stop_requested = true;
    is_flush_requested = false;
  };
  phases = λ t. if t == 2 then stopping else outside;
}

interrupted_thread-hanging :
    let s = reached strategy empty (some 1) interrupted_thread in
    (s.frontend ≡ hanging.frontend) × (s.phases 1 ≡ outside) × (s.phases 2 ≡ stopping)
unfolding interrupted_thread run_steps construct step queue_step enqueue_unlocked take elapsed
    empty_queue searched least without_least ordering_strategy
interrupted_thread-hanging = (refl, refl, refl)

run_steps-stays_blocked_example :
    (run_steps strategy
        ((1, 2, goes_on true) ∷ (2, 2, goes_on true) ∷ (3, 2, calls_consume 7) ∷ [])
        hanging).0.phases
      2
    ≡ hanging.phases 2
unfolding may_feed is_blocked is_inside
run_steps-stays_blocked_example =
    run_steps-stays_blocked strategy
      ((1, 2, goes_on true) ∷ (2, 2, goes_on true) ∷ (3, 2, calls_consume 7) ∷ []) hanging 2
      (tt, (tt, (tt, tt))) (λ t. ground arith) refl
