-- ===== src/Queues/Ordering.antt =====
-- unbounded_ordering_queue (sinks/unbounded_ordering_queue.hpp): records that are ordered by a predicate
-- and held back for a time. std::priority_queue is an interface with its laws, get_timestamp an argument
-- of each step. The mutex makes the code between two waits one step.
pub mod Moves
pub mod Window
pub mod Records
pub mod Searched
mod Examples
use mathlib.Core.List.{Mem, Perm}
use boost_log.Base.{
  ℕ, ◌+◌, ◌-◌, ◌*◌, ◌/◌, ◌%◌, ◌^◌, ◌≡◌, Bool, true, false, Option, none, some, List, [], ◌∷◌, ◌==◌,
  ltb, leb, if◌then◌else◌,
}

-- `top` is none where empty() holds. `contents` are the elements, in any order.
pub record PriorityQueue (E S : Type 0) : Type 0 where
  pub empty : S
  pub push : E → S → S
  pub top : S → Option E
  pub pop : S → S
  pub contents : S → List E

-- What std::priority_queue promises for a comparison: the top is not less than any element.
pub record IsPriorityQueue {E S : Type 0} (less : E → E → Bool) (set : PriorityQueue E S)
    : Type 0 where
  pub contents-empty : set.contents set.empty ≡ []
  pub contents-push : (e : E) (s : S) → Perm (set.contents (set.push e s)) (e ∷ set.contents s)
  pub top-none : (s : S) → set.top s ≡ none → set.contents s ≡ []
  pub contents-pop :
      (s : S) (e : E) → set.top s ≡ some e → Perm (set.contents s) (e ∷ set.contents (set.pop s))
  pub top-first : (s : S) (e x : E) → set.top s ≡ some e → Mem x (set.contents s) → less e x ≡ false

-- A record with the time at which it was put into the queue.
pub record EnqueuedRecord (R : Type 0) : Type 0 where
  pub timestamp : ℕ
  pub rec : R

-- enqueued_record::order, which swaps the arguments, so that the top comes first.
abbrev pub order : {R : Type 0} → (R → R → Bool) → EnqueuedRecord R → EnqueuedRecord R → Bool
order less left right = less right.rec left.rec

pub record OrderingQueue (S : Type 0) : Type 0 where
  pub queue : S
  pub is_interruption_requested : Bool
  pub is_consumer_asleep : Bool

-- What a thread does under the mutex. `dequeue_ready` is one pass of the loop there.
pub data Action (R : Type 0) : Type 0 where
  enqueue : R → Action R
  try_enqueue : Bool → R → Action R
  try_dequeue_ready try_dequeue dequeue_ready interrupt_dequeue : Action R

-- What came of it. `sleeps` is a wait of so many milliseconds.
pub data Result (R : Type 0) : Type 0 where
  pushed taken : EnqueuedRecord R → Result R
  sleeps : ℕ → Result R
  nothing : Result R

-- timestamp::operator- and duration::milliseconds, converted to uint64_t: the ticks are nanoseconds in an
-- unsigned number of 64 bits, and their difference is a signed one.
unfoldable pub elapsed : ℕ → ℕ → ℕ
elapsed now timestamp =
    let ticks = (now + 2 ^ 64 - timestamp) % 2 ^ 64 in
    if ltb ticks (2 ^ 63) then ticks / 1000000 else (2 ^ 64 - (2 ^ 64 - ticks) / 1000000) % 2 ^ 64

module _ {R S : Type 0} (set : PriorityQueue (EnqueuedRecord R) S) where
  unfoldable pub empty_queue : OrderingQueue S
  empty_queue = record {
    queue = set.empty;
    is_interruption_requested = false;
    is_consumer_asleep = false;
  }

  -- enqueue_unlocked: the consumer is notified if the queue was empty.
  unfoldable pub enqueue_unlocked : ℕ → R → OrderingQueue S → OrderingQueue S × Result R
  enqueue_unlocked now r q =
      let e : EnqueuedRecord R = record { timestamp = now; rec = r } in
      (
        record q {
          queue = set.push e q.queue;
          is_consumer_asleep = elim (set.top q.queue) [
            | none ↦ false
            | some _ ↦ q.is_consumer_asleep
          ];
        },
        pushed e,
      )

  unfoldable pub take : EnqueuedRecord R → OrderingQueue S → OrderingQueue S × Result R
  take e q = (record q { queue = set.pop q.queue }, taken e)

  module _ (ordering_window : ℕ) where
    -- The wait in dequeue_ready is left by a notification or by its end.
    unfoldable pub step : ℕ → Action R → OrderingQueue S → OrderingQueue S × Result R
    unfolding enqueue_unlocked take elapsed
    step now (enqueue r) q = enqueue_unlocked now r q
    step now (try_enqueue owns_lock r) q =
        if owns_lock then enqueue_unlocked now r q else (q, nothing)
    step now try_dequeue_ready q = elim (set.top q.queue) [
      | none ↦ (q, nothing)
      | some e ↦ if leb ordering_window (elapsed now e.timestamp) then take e q else (q, nothing)
    ]
    step now try_dequeue q = elim (set.top q.queue) [ none ↦ (q, nothing) | some e ↦ take e q ]
    step now dequeue_ready q =
        if q.is_interruption_requested
        then (record q { is_interruption_requested = false; is_consumer_asleep = false }, nothing)
        else (elim (set.top q.queue) [
          | none ↦ (record q { is_consumer_asleep = true }, nothing)
          | some e ↦
              if leb ordering_window (elapsed now e.timestamp)
              then take e (record q { is_consumer_asleep = false })
              else (
                record q { is_consumer_asleep = true },
                sleeps (ordering_window - elapsed now e.timestamp),
              )
        ])
    step now interrupt_dequeue q =
        (record q { is_interruption_requested = true; is_consumer_asleep = false }, nothing)

    -- A sequence of steps, each with its time, and what came of them.
    unfoldable pub run : List (ℕ × Action R) → OrderingQueue S → OrderingQueue S × List (Result R)
    unfolding step
    run [] q = (q, [])
    run ((now, a) ∷ rest) q =
        let (q1, result) = step now a q in let (q2, results) = run rest q1 in (q2, result ∷ results)
