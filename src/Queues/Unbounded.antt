-- ===== src/Queues/Unbounded.antt =====
-- unbounded_fifo_queue (sinks/unbounded_fifo_queue.hpp) with sem_based_event (event.cpp), on which its
-- consumer sleeps. Any number of threads enqueue or interrupt, and one thread dequeues. A step is one
-- access to shared memory, and the steps of the threads come in any order. The thread safe queue is a
-- list, and a record a number. The calls of the semaphore succeed.
pub mod Sleep
mod Examples
use boost_log.Base.{ℕ, zero, suc, ◌-◌, Bool, true, false, List, [], ◌∷◌, ◌++◌, ◌==◌, if◌then◌else◌}

-- The thread in dequeue_ready: outside, in the first try_pop, in sem_wait, behind it, behind the reset of
-- the event, behind the test of the interruption flag where it is set and where it is not.
pub data Consumer : Type 0 where
  outside trying waiting resetting checking clearing popping : Consumer

-- `is_set` is m_state of the event, and `semaphore` its count. `before_set` threads in set_signalled have
-- not set the state yet, and `before_post` have set it and not posted yet.
pub record State : Type 0 where
  pub queue : List ℕ
  pub is_interruption_requested : Bool
  pub is_set : Bool
  pub semaphore : ℕ
  pub before_set : ℕ
  pub before_post : ℕ
  pub consumer : Consumer

unfoldable pub construct : State
construct = record {
  queue = [];
  is_interruption_requested = false;
  is_set = false;
  semaphore = 0;
  before_set = 0;
  before_post = 0;
  consumer = outside;
}

-- `enqueue` and `interrupt_dequeue` are the calls up to set_signalled, `try_set` and `post` the steps in
-- it, `dequeue` a step of the consumer, and `try_dequeue` a call of it.
pub data Action : Type 0 where
  enqueue : ℕ → Action
  interrupt_dequeue try_set post dequeue try_dequeue : Action

-- The first record is taken off, and the consumer goes on at one place or the other.
pub try_pop : Consumer → Consumer → State → State
try_pop found missing s = elim s.queue [
  | [] ↦ record s { consumer = missing }
  | r ∷ rs ↦ record s { queue = rs; consumer = found }
]

-- A step in dequeue_ready.
pub dequeue_step : State → State
unfolding try_pop
dequeue_step s = elim s.consumer [
  | outside ↦ record s { consumer = trying }
  | trying ↦ try_pop outside waiting s
  | waiting ↦ elim s.semaphore [
    | zero ↦ s
    | suc k ↦ record s { semaphore = k; consumer = resetting }
  ]
  | resetting ↦ record s { is_set = false; consumer = checking }
  | checking ↦
      if s.is_interruption_requested
      then record s { consumer = clearing }
      else record s { consumer = popping }
  | clearing ↦ record s { is_interruption_requested = false; consumer = outside }
  | popping ↦ try_pop outside waiting s
]

unfoldable pub step : Action → State → State
unfolding dequeue_step try_pop
step (enqueue r) s = record s { queue = s.queue ++ r ∷ []; before_set = suc s.before_set }
step interrupt_dequeue s = record s {
  is_interruption_requested = true;
  before_set = suc s.before_set;
}
step try_set s = elim s.before_set [
  | zero ↦ s
  | suc k ↦
      if s.is_set
      then record s { before_set = k }
      else record s { is_set = true; before_set = k; before_post = suc s.before_post }
]
step post s = elim s.before_post [
  | zero ↦ s
  | suc k ↦ record s { semaphore = suc s.semaphore; before_post = k }
]
step dequeue s = dequeue_step s
step try_dequeue s = elim s.consumer [ outside ↦ try_pop outside outside s | _ ↦ s ]

unfoldable pub run : List Action → State → State
unfolding step
run [] s = s
run (a ∷ rest) s = run rest (step a s)
