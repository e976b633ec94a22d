-- ===== src/ThreadsafeQueue.antt =====
-- threadsafe_queue (detail/threadsafe_queue.hpp) over threadsafe_queue_impl_generic
-- (threadsafe_queue.cpp), the queue with two locks: an intrusive list with a dummy node at its head. Any
-- number of threads push, and one thread pops. A step is what a thread does between two accesses to
-- memory that other threads see, and steps of the threads come in any order.
pub mod Chain
pub mod Invariant
pub mod Link
pub mod Steps
pub mod Fifo
pub mod Destruction
pub mod Dcas
mod Examples
use boost_log.Base.{
  ℕ, zero, suc, Bool, true, false, Option, none, some, List, [], ◌∷◌, ◌==◌, if◌then◌else◌, take_at,
}

-- A node, with no value before its construction and after its destruction. `next` is the address of a
-- node or null.
pub record Node (V : Type 0) : Type 0 where
  pub next : Option ℕ
  pub storage : Option V

-- The nodes that are allocated, by their addresses.
abbrev pub Memory : Type 0 → Type 0
Memory V = ℕ → Option (Node V)

abbrev pub set_node : {V : Type 0} → ℕ → Option (Node V) → Memory V → Memory V
set_node a n memory c = if c == a then n else memory c

-- `head` and `tail` are m_Head.node and m_Tail.node. `new_nodes` are the nodes of the threads that wait
-- for m_Tail.mutex in push, and `owner` is the node of the thread that holds it. `popped` are
-- node_to_free and node_with_value of the thread in try_pop.
pub record Queue (V : Type 0) : Type 0 where
  pub memory : Memory V
  pub head : ℕ
  pub tail : ℕ
  pub new_nodes : List ℕ
  pub owner : Option ℕ
  pub popped : Option (ℕ × ℕ)

-- What the allocation and the construction of a node come to.
pub data Creation : Type 0 where
  created : ℕ → Creation
  bad_alloc copy_threw : Creation

-- `push` is push of threadsafe_queue up to the lock, `link` and `move_tail` the assignments under it,
-- `link` by the i-th of the threads that wait. `try_pop` is the part of try_pop under the other lock, and
-- `take_value` the rest of it.
pub data Action (V : Type 0) : Type 0 where
  push : Creation → V → Action V
  link : ℕ → Action V
  move_tail try_pop take_value : Action V

-- What a step did. `idle` is a step that the thread cannot make now, and `read` one that changes nothing
-- that other threads see.
pub data Event (V : Type 0) : Type 0 where
  idle read threw allocated : Event V
  linked : V → Event V
  tail_moved found_empty head_moved : Event V
  returned : V → Event V

module _ {V : Type 0} where
  -- The node at an address, of which `none` is an access to memory that is not allocated.
  abbrev with_node : {B : Type 0} → Memory V → ℕ → (Node V → Option B) → Option B
  with_node memory a f = elim (memory a) [ none ↦ none | some n ↦ f n ]

  -- The constructors, with a dummy node at the address `a`.
  unfoldable pub construct : ℕ → Queue V
  construct a = record {
    memory = set_node a (some (record { next = none; storage = none })) (λ c. none);
    head = a;
    tail = a;
    new_nodes = [];
    owner = none;
    popped = none;
  }

  pub create_node : Creation → V → Queue V → Option (Queue V × Event V)
  create_node bad_alloc v q = some (q, threw)
  create_node copy_threw v q = some (q, threw)
  create_node (created a) v q = elim (q.memory a) [
    | some _ ↦ some (q, idle)
    | none ↦ some (
      record q {
        memory = set_node a (some (record { next = none; storage = some v })) q.memory;
        new_nodes = a ∷ q.new_nodes;
      },
      allocated,
    )
  ]

  -- The first assignment under the lock of push: set_next(m_Tail.node, p).
  pub link_node : ℕ → List ℕ → Queue V → Option (Queue V × Event V)
  link_node p others q = with_node q.memory q.tail λ last. with_node q.memory p λ n.
      elim n.storage [
        | none ↦ none
        | some v ↦ some (
          record q {
            memory = set_node q.tail (some (record last { next = some p })) q.memory;
            new_nodes = others;
            owner = some p;
          },
          linked v,
        )
      ]

  pub pop_node : Queue V → Option (Queue V × Event V)
  pop_node q = with_node q.memory q.head λ n. elim n.next [
    | none ↦ some (q, found_empty)
    | some next ↦ some (record q { head = next; popped = some (q.head, next) }, head_moved)
  ]

  -- The end of try_pop: the value is moved out, and auto_deallocate frees the one node and destroys the
  -- value of the other.
  pub take_node : ℕ → ℕ → Queue V → Option (Queue V × Event V)
  take_node dealloc destr q = with_node q.memory destr λ n. elim n.storage [
    | none ↦ none
    | some v ↦ with_node q.memory dealloc λ _. some (
      record q {
        memory =
            set_node destr (some (record n { storage = none })) (set_node dealloc none q.memory);
        popped = none;
      },
      returned v,
    )
  ]

  pub step : Action V → Queue V → Option (Queue V × Event V)
  unfolding create_node link_node pop_node take_node
  step (push c v) q = create_node c v q
  step (link i) q = elim q.owner [
    | some _ ↦ some (q, idle)
    | none ↦ elim (take_at i q.new_nodes) [
      | none ↦ some (q, idle)
      | some (p, others) ↦ link_node p others q
    ]
  ]
  step move_tail q = elim q.owner [
    | none ↦ some (q, idle)
    | some p ↦ some (record q { tail = p; owner = none }, tail_moved)
  ]
  step try_pop q = elim q.popped [ some _ ↦ some (q, idle) | none ↦ pop_node q ]
  step take_value q = elim q.popped [
    | none ↦ some (q, idle)
    | some (dealloc, destr) ↦ take_node dealloc destr q
  ]

  -- A sequence of steps, with what they did.
  unfoldable pub run : List (Action V) → Queue V → Option (Queue V × List (Event V))
  unfolding step
  run [] q = some (q, [])
  run (a ∷ rest) q = elim (step a q) [
    | none ↦ none
    | some (q1, e) ↦ elim (run rest q1) [ none ↦ none | some (q2, es) ↦ some (q2, e ∷ es) ]
  ]

  -- m_Head.node == m_Tail.node
  pub unsafe_empty : Queue V → Bool
  unsafe_empty q = q.head == q.tail

  -- The loop of the destructor, while (try_pop(value)), on fuel.
  pub drain : ℕ → Queue V → Option (Queue V)
  unfolding pop_node take_node
  drain zero q = none
  drain (suc k) q = elim (pop_node q) [
    | none ↦ none
    | some (q1, e) ↦ elim q1.popped [
      | none ↦ some q1
      | some (dealloc, destr) ↦ elim (take_node dealloc destr q1) [
        | none ↦ none
        | some (q2, e2) ↦ drain k q2
      ]
    ]
  ]

  -- reset_last_node with its assertion, and the deallocation of the dummy node.
  pub free_last : Queue V → Option (Memory V)
  unfolding unsafe_empty
  free_last q =
      if unsafe_empty q
      then (elim (q.memory q.head) [ none ↦ none | some _ ↦ some (set_node q.head none q.memory) ])
      else none

  -- The destructor.
  pub destroy : ℕ → Queue V → Option (Memory V)
  unfolding drain unsafe_empty free_last
  destroy k q = elim (if unsafe_empty q then some q else drain k q) [
    | none ↦ none
    | some q1 ↦ free_last q1
  ]
