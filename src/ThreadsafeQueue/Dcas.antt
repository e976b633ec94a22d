-- ===== src/ThreadsafeQueue/Dcas.antt =====
-- threadsafe_queue_impl_dcas (threadsafe_queue.cpp), the queue over a double-width compare and swap
-- (DCAS). A step is one access of a thread to memory that other threads see: a load or a DCAS. Any number
-- of threads push, one thread pops, and the steps of the threads come in any order.
pub mod Stale
pub mod Chain
pub mod Invariant
pub mod Advance
pub mod Pushes
pub mod Front
pub mod Pops
mod Examples
use boost_log.Base.{
  ℕ, ◌+◌, ◌%◌, ◌^◌, Bool, true, false, not, ◌&&◌, Option, none, some, List, [], ◌∷◌, ◌==◌,
  if◌then◌else◌, take_at,
}
use boost_log.ThreadsafeQueue.{
  Event, Creation, created, bad_alloc, copy_threw, idle, read, threw, allocated, linked, tail_moved,
  found_empty, head_moved, returned,
}

-- A pointer to a node, or null, and the counter beside it.
pub record PointerRep : Type 0 where
  pub counter : ℕ
  pub node : Option ℕ

abbrev is_same_node : Option ℕ → Option ℕ → Bool
is_same_node none none = true
is_same_node (some a) (some b) = a == b
is_same_node _ _ = false

-- operator== of pointer_rep, the comparison of a DCAS.
unfoldable pub is_same : PointerRep → PointerRep → Bool
is_same a b = (a.counter == b.counter) && is_same_node a.node b.node

-- The replacement in a DCAS: the counter, a uintptr_t of 64 bits, is one more than that of the old pointer.
pub replacement : PointerRep → Option ℕ → PointerRep
replacement old node = record { counter = (old.counter + 1) % 2 ^ 64; node = node }

pub record Node (V : Type 0) : Type 0 where
  pub next : PointerRep
  pub storage : Option V

abbrev pub Memory : Type 0 → Type 0
Memory V = ℕ → Option (Node V)

abbrev pub set_node : {V : Type 0} → ℕ → Option (Node V) → Memory V → Memory V
set_node a n memory c = if c == a then n else memory c

-- A thread in push, with its node, its value and what it has loaded: before the load of the tail, before
-- that of the next pointer, before the DCAS of the loop, and before the one behind it.
pub data Pusher (V : Type 0) : Type 0 where
  starts : ℕ → V → Pusher V
  has_tail : ℕ → V → PointerRep → Pusher V
  has_next : ℕ → V → PointerRep → PointerRep → Pusher V
  has_linked : ℕ → V → PointerRep → Pusher V

-- The thread that pops: outside or at the start of the loop, with what it has loaded, and with
-- node_to_free and node_with_value behind the loop.
pub data Popper : Type 0 where
  outside : Popper
  has_head : PointerRep → Popper
  has_next : PointerRep → PointerRep → Popper
  has_tail : PointerRep → PointerRep → PointerRep → Popper
  has_popped : Option ℕ → Option ℕ → Popper

pub record Queue (V : Type 0) : Type 0 where
  pub memory : Memory V
  pub head : PointerRep
  pub tail : PointerRep
  pub pushers : List (Pusher V)
  pub popper : Popper

-- `push` creates a node, `push_step` is a step of the i-th thread in push, `pop_step` one of the thread
-- that pops.
pub data Action (V : Type 0) : Type 0 where
  push : Creation → V → Action V
  push_step : ℕ → Action V
  pop_step : Action V

module _ {V : Type 0} where
  -- The node of a pointer, of which `none` is an access to a null pointer or to a node that is not
  -- allocated.
  abbrev at_node : {B : Type 0} → Memory V → Option ℕ → (ℕ → Node V → Option B) → Option B
  at_node memory none f = none
  at_node memory (some a) f = elim (memory a) [ none ↦ none | some n ↦ f a n ]

  -- The constructors, with a dummy node at the address `a`.
  unfoldable pub construct : ℕ → Queue V
  construct a = record {
    memory =
        set_node a (some (record { next = record { counter = 0; node = none }; storage = none }))
          (λ c. none);
    head = record { counter = 0; node = some a };
    tail = record { counter = 0; node = some a };
    pushers = [];
    popper = outside;
  }

  unfoldable pub create_node : Creation → V → Queue V → Option (Queue V × Event V)
  create_node bad_alloc v q = some (q, threw)
  create_node copy_threw v q = some (q, threw)
  create_node (created a) v q = elim (q.memory a) [
    | some _ ↦ some (q, idle)
    | none ↦ some (
      record q {
        memory =
            set_node a
              (some (record { next = record { counter = 0; node = none }; storage = some v }))
              q.memory;
        pushers = starts a v ∷ q.pushers;
      },
      allocated,
    )
  ]

  -- pointer_dcas on m_Tail. A step with it counts as `tail_moved` also where it fails.
  pub swap_tail : PointerRep → Option ℕ → Queue V → Queue V
  unfolding is_same replacement
  swap_tail old node q = record q {
    tail = if is_same q.tail old then replacement old node else q.tail;
  }

  -- A step in push, of a thread that is no longer among those in `q`.
  pub advance : Pusher V → Queue V → Option (Queue V × Event V)
  unfolding swap_tail is_same replacement
  advance (starts p v) q = some (record q { pushers = has_tail p v q.tail ∷ q.pushers }, read)
  advance (has_tail p v tail) q =
      at_node q.memory tail.node
        λ a n. some (record q { pushers = has_next p v tail n.next ∷ q.pushers }, read)
  advance (has_next p v tail next) q = elim next.node [
    | none ↦ at_node q.memory tail.node λ a n. some (
        if is_same n.next next
        then (
          record q {
            memory = set_node a (some (record n { next = replacement next (some p) })) q.memory;
            pushers = has_linked p v tail ∷ q.pushers;
          },
          linked v,
        )
        else (record q { pushers = starts p v ∷ q.pushers }, read))
    | some m ↦
        some (record (swap_tail tail (some m) q) { pushers = starts p v ∷ q.pushers }, tail_moved)
  ]
  advance (has_linked p v tail) q = some (swap_tail tail (some p) q, tail_moved)

  -- A step in try_pop. The last one is the end of try_pop of threadsafe_queue, where the value is moved
  -- out, the one node freed and the value of the other destroyed.
  pub pop_next : Queue V → Option (Queue V × Event V)
  unfolding swap_tail is_same replacement
  pop_next q = elim q.popper [
    | outside ↦ some (record q { popper = has_head q.head }, read)
    | has_head head ↦
        at_node q.memory head.node λ a n. some (record q { popper = has_next head n.next }, read)
    | has_next head next ↦ some (record q { popper = has_tail head next q.tail }, read)
    | has_tail head next tail ↦
        if not (is_same_node head.node tail.node)
        then some (
            if is_same q.head head
            then (
              record q {
                head = replacement head next.node;
                popper = has_popped head.node next.node;
              },
              head_moved,
            )
            else (record q { popper = outside }, read))
        else (elim next.node [
          | none ↦ some (record q { popper = outside }, found_empty)
          | some m ↦ some (record (swap_tail tail (some m) q) { popper = outside }, tail_moved)
        ])
    | has_popped dealloc destr ↦ at_node q.memory destr λ b n. elim n.storage [
      | none ↦ none
      | some v ↦ at_node q.memory dealloc λ a _. some (
        record q {
          memory = set_node b (some (record n { storage = none })) (set_node a none q.memory);
          popper = outside;
        },
        returned v,
      )
    ]
  ]

  unfoldable pub step : Action V → Queue V → Option (Queue V × Event V)
  unfolding create_node advance pop_next take_at
  step (push c v) q = create_node c v q
  step (push_step i) q = elim (take_at i q.pushers) [
    | none ↦ some (q, idle)
    | some (thread, others) ↦ advance thread (record q { pushers = others })
  ]
  step pop_step q = pop_next q

  unfoldable pub run : List (Action V) → Queue V → Option (Queue V × List (Event V))
  unfolding step
  run [] q = some (q, [])
  run (a ∷ rest) q = elim (step a q) [
    | none ↦ none
    | some (q1, e) ↦ elim (run rest q1) [ none ↦ none | some (q2, es) ↦ some (q2, e ∷ es) ]
  ]

  -- unsafe_empty, which may move a tail that lags behind.
  unfoldable pub unsafe_empty : Queue V → Option (Queue V × Bool)
  unfolding swap_tail is_same replacement
  unsafe_empty q =
      if not (is_same_node q.head.node q.tail.node)
      then some (q, false)
      else at_node q.memory q.tail.node λ a n. elim n.next.node [
        | none ↦ some (q, true)
        | some m ↦ some (swap_tail q.tail (some m) q, false)
      ]
