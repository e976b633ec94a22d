-- ===== src/Queues/Examples.antt =====
-- Runs of bounded_fifo_queue (sinks/bounded_fifo_queue.hpp) on concrete steps.
use boost_log.Base.{◌+◌, ◌≡◌, ◌≤◌, true, false, List, [], ◌∷◌, ◌++◌, length, count, arith, refl}
use boost_log.Queues.Bounded.{
  drop_on_overflow, block_on_overflow, Queue, Action, pushed, discarded, blocked, taken, nothing,
  enqueue, resume, try_enqueue, try_dequeue, dequeue_ready, interrupt_dequeue, empty_queue, run,
}
use boost_log.Queues.Bounded.Fifo.{all_pushed, all_taken, run-fifo}
use boost_log.Queues.Bounded.Records.{all_offered, all_settled, held, run-conserves}
use boost_log.Queues.Bounded.Wakeup.{dequeues, run-starves}

-- Two records fill the queue, the next two block; one is woken and gets in before a newcomer.
abbrev steps : List Action
steps =
    enqueue 1
    ∷ enqueue 2
    ∷ enqueue 3
    ∷ enqueue 4
    ∷ try_dequeue
    ∷ resume 0
    ∷ enqueue 5
    ∷ dequeue_ready
    ∷ interrupt_dequeue
    ∷ resume 1
    ∷ try_enqueue true 6
    ∷ dequeue_ready
    ∷ []

run-steps :
    (run block_on_overflow 2 steps empty_queue).1
    ≡ pushed 1
      ∷ pushed 2
      ∷ blocked 3
      ∷ blocked 4
      ∷ taken 1
      ∷ pushed 3
      ∷ blocked 5
      ∷ taken 2
      ∷ nothing
      ∷ discarded 5
      ∷ pushed 6
      ∷ nothing
      ∷ []
unfolding run empty_queue
run-steps = refl

drops :
    (run drop_on_overflow 1 (enqueue 1 ∷ enqueue 2 ∷ []) empty_queue).1
    ≡ pushed 1 ∷ discarded 2 ∷ []
unfolding run empty_queue
drops = refl

run-fifo_example :
    let (q', results) = run block_on_overflow 2 steps empty_queue in
    (empty_queue.queue ++ all_pushed results ≡ all_taken results ++ q'.queue)
    × (length empty_queue.queue ≤ 2 → length q'.queue ≤ 2)
run-fifo_example = run-fifo block_on_overflow 2 steps empty_queue

run-conserves_example :
    let (q', results) = run block_on_overflow 2 steps empty_queue in
    count 5 (all_offered steps) + held 5 empty_queue ≡ count 5 (all_settled results) + held 5 q'
run-conserves_example = run-conserves 5 block_on_overflow 2 steps empty_queue

-- A full queue with two blocked threads.
abbrev crowded : Queue
crowded = record {
  queue = 1 ∷ 2 ∷ [];
  interruption_requested = false;
  thread_contexts = 3 ∷ 4 ∷ [];
  woken_threads = [];
  is_consumer_asleep = false;
}

run-starves_example :
    ((run block_on_overflow 2 (dequeues crowded.queue) crowded).0 ≡ record crowded {
      queue = [];
      thread_contexts = 4 ∷ [];
      woken_threads = record { waiting_record = 3; result = true } ∷ [];
    })
    × ((run block_on_overflow 2
          (resume 0 ∷ try_dequeue ∷ [])
          (run block_on_overflow 2 (dequeues crowded.queue) crowded).0).0
        ≡ record crowded { queue = []; thread_contexts = 4 ∷ []; woken_threads = [] })
run-starves_example = run-starves 2 3 crowded (4 ∷ []) (omega arith) refl refl refl
