-- ===== src/Queues/Bounded.antt =====
-- bounded_fifo_queue (sinks/bounded_fifo_queue.hpp) with the strategies drop_on_overflow and
-- block_on_overflow (sinks/drop_on_overflow.hpp, sinks/block_on_overflow.hpp). The mutex makes the code
-- between two waits one step. A record is a number, and a blocked thread is the record that it wants to
-- enqueue.
pub mod Fifo
pub mod Records
pub mod Wakeup
use boost_log.Base.{
  ℕ, zero, suc, Bool, true, false, Option, none, some, List, [], ◌∷◌, ◌++◌, map, leb, ◌==◌,
  if◌then◌else◌, length, take_at,
}

pub data OverflowStrategy : Type 0 where
  drop_on_overflow block_on_overflow : OverflowStrategy

-- A thread that is no longer in the list of blocked threads and waits for the mutex, with the `result`
-- of its thread_context.
pub record Woken : Type 0 where
  pub waiting_record : ℕ
  pub result : Bool

-- `thread_contexts` are the blocked threads, and `is_consumer_asleep` says that the consumer waits on
-- m_cond.
pub record Queue : Type 0 where
  pub queue : List ℕ
  pub interruption_requested : Bool
  pub thread_contexts : List ℕ
  pub woken_threads : List Woken
  pub is_consumer_asleep : Bool

-- The bounded queue at its construction.
unfoldable pub empty_queue : Queue
empty_queue = record {
  queue = [];
  interruption_requested = false;
  thread_contexts = [];
  woken_threads = [];
  is_consumer_asleep = false;
}

-- A step of a thread. `resume i` is the i-th of the woken threads, which gets the mutex, and
-- `dequeue_ready` one pass of the loop there. The wait in on_overflow is an interruption point of its thread:
-- `interrupt_blocked i` and `interrupt_woken i` interrupt the i-th of the blocked or of the woken threads, which
-- leaves enqueue with an exception. So is the wait in dequeue_ready: `interrupt_consumer` ends it with an exception.
pub data Action : Type 0 where
  enqueue resume interrupt_blocked interrupt_woken : ℕ → Action
  try_enqueue : Bool → ℕ → Action
  try_dequeue dequeue_ready interrupt_dequeue interrupt_consumer : Action

-- What the step did with a record. `interrupted` is the exception with which its thread leaves enqueue.
pub data Result : Type 0 where
  pushed discarded refused blocked taken interrupted : ℕ → Result
  nothing : Result

-- m_queue.push, after which the consumer is notified if the queue was empty.
pub push : ℕ → Queue → Queue
push r q = record q {
  queue = q.queue ++ r ∷ [];
  is_consumer_asleep = if length q.queue == 0 then false else q.is_consumer_asleep;
}

-- The strategies. on_overflow, up to the wait in it.
pub on_overflow : OverflowStrategy → ℕ → Queue → Queue × Result
on_overflow drop_on_overflow r q = (q, discarded r)
on_overflow block_on_overflow r q =
    (record q { thread_contexts = q.thread_contexts ++ r ∷ [] }, blocked r)

pub on_queue_space_available : OverflowStrategy → Queue → Queue
on_queue_space_available drop_on_overflow q = q
on_queue_space_available block_on_overflow q = elim q.thread_contexts [
  | [] ↦ q
  | p ∷ ps ↦ record q {
    thread_contexts = ps;
    woken_threads = q.woken_threads ++ record { waiting_record = p; result = true } ∷ [];
  }
]

pub interrupt : OverflowStrategy → Queue → Queue
interrupt drop_on_overflow q = q
interrupt block_on_overflow q = record q {
  thread_contexts = [];
  woken_threads =
      q.woken_threads ++ map (λ p. record { waiting_record = p; result = false }) q.thread_contexts;
}

-- The test of enqueue, also when a thread returns from on_overflow to it.
pub attempt : OverflowStrategy → ℕ → ℕ → Queue → Queue × Result
unfolding push on_overflow
attempt strategy max_queue_size r q =
    if leb max_queue_size (length q.queue) then on_overflow strategy r q else (push r q, pushed r)

-- The end of on_overflow: the record is discarded after an interruption, and tried again otherwise.
pub resume_thread : OverflowStrategy → ℕ → Queue → Option (Woken × List Woken) → Queue × Result
unfolding attempt
resume_thread strategy max_queue_size q none = (q, nothing)
resume_thread strategy max_queue_size q (some (w, others)) =
    let left : Queue = record q { woken_threads = others } in
    if w.result
    then attempt strategy max_queue_size w.waiting_record left
    else (left, discarded w.waiting_record)

-- An interruption in the wait: the destructor of the thread_context takes it off the list.
pub leave_blocked : Queue → Option (ℕ × List ℕ) → Queue × Result
leave_blocked q none = (q, nothing)
leave_blocked q (some (r, others)) = (record q { thread_contexts = others }, interrupted r)

pub leave_woken : Queue → Option (Woken × List Woken) → Queue × Result
leave_woken q none = (q, nothing)
leave_woken q (some (w, others)) =
    (record q { woken_threads = others }, interrupted w.waiting_record)

-- The first record is taken off, and the strategy is told so if the queue was full.
pub pop : OverflowStrategy → ℕ → Queue → Queue × Result
unfolding on_queue_space_available
pop strategy max_queue_size q = elim q.queue [
  | [] ↦ (q, nothing)
  | r ∷ rs ↦
      let rest : Queue = record q { queue = rs } in
      (
        if length q.queue == max_queue_size then on_queue_space_available strategy rest else rest,
        taken r,
      )
]

-- One step under the mutex.
pub step : OverflowStrategy → ℕ → Action → Queue → Queue × Result
unfolding attempt push resume_thread leave_blocked leave_woken take_at pop interrupt
step strategy max_queue_size (enqueue r) q = attempt strategy max_queue_size r q
step strategy max_queue_size (resume i) q =
    resume_thread strategy max_queue_size q (take_at i q.woken_threads)
step strategy max_queue_size (interrupt_blocked i) q = leave_blocked q (take_at i q.thread_contexts)
step strategy max_queue_size (interrupt_woken i) q = leave_woken q (take_at i q.woken_threads)
step strategy max_queue_size (try_enqueue owns_lock r) q =
    if owns_lock
    then (if leb max_queue_size (length q.queue) then (q, refused r) else (push r q, pushed r))
    else (q, refused r)
step strategy max_queue_size try_dequeue q = pop strategy max_queue_size q
step strategy max_queue_size dequeue_ready q =
    if q.interruption_requested
    then (record q { interruption_requested = false; is_consumer_asleep = false }, nothing)
    else elim q.queue [
      | [] ↦ (record q { is_consumer_asleep = true }, nothing)
      | _ ∷ _ ↦ pop strategy max_queue_size (record q { is_consumer_asleep = false })
    ]
step strategy max_queue_size interrupt_dequeue q = (
  record (interrupt strategy q) { interruption_requested = true; is_consumer_asleep = false },
  nothing,
)
step strategy max_queue_size interrupt_consumer q =
    (record q { is_consumer_asleep = false }, nothing)

-- A sequence of steps, with what they did.
unfoldable pub run : OverflowStrategy → ℕ → List Action → Queue → Queue × List Result
unfolding step
run strategy max_queue_size [] q = (q, [])
run strategy max_queue_size (a ∷ rest) q =
    let (q1, result) = step strategy max_queue_size a q in
    let (q2, results) = run strategy max_queue_size rest q1 in (q2, result ∷ results)
