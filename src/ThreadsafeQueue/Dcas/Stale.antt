-- ===== src/ThreadsafeQueue/Dcas/Stale.antt =====
-- A pop from an empty queue over a DCAS (threadsafe_queue.cpp) beside a push.
use boost_log.Base.{ℕ, ◌≡◌, none, some, List, [], ◌∷◌, arith, refl, take_at}
use boost_log.ThreadsafeQueue.{Event, created, read, allocated, linked, tail_moved, head_moved}
use boost_log.ThreadsafeQueue.Dcas.{
  Node, Queue, Action, outside, has_popped, set_node, push, push_step, pop_step, is_same,
  replacement, swap_tail, advance, create_node, pop_next, step, run,
}

module _ {V : Type 0} where
  -- try_pop loads the head and its next pointer; then push runs from its start to its end; then try_pop
  -- loads the tail and makes its DCAS.
  abbrev pub stale_pop : ℕ → V → List (Action V)
  stale_pop p v =
      pop_step
      ∷ pop_step
      ∷ push (created p) v
      ∷ push_step 0
      ∷ push_step 0
      ∷ push_step 0
      ∷ push_step 0
      ∷ pop_step
      ∷ pop_step
      ∷ []

  -- The queue behind these steps.
  abbrev after : Queue V → ℕ → ℕ → V → Node V → Queue V
  unfolding replacement
  after q a p v n = record {
    memory = set_node a (some (record n { next = replacement n.next (some p) })) (
        set_node p (some (record { next = record { counter = 0; node = none }; storage = some v }))
          q.memory);
    head = replacement q.head none;
    tail = replacement q.tail (some p);
    pushers = [];
    popper = has_popped (some a) none;
  }

  -- Where a queue is empty and a value is pushed between the loads of the head's next pointer and of the
  -- tail in try_pop, try_pop takes the null pointer that it has loaded for the node of the value: m_Head
  -- becomes null, although the value is linked in the list, and the access to the value of the null node
  -- fails.
  pub run-stale_pop :
      (q : Queue V) (a p : ℕ) (v : V) (n : Node V)
      → q.head.node ≡ some a
      → q.tail.node ≡ some a
      → q.memory a ≡ some n
      → n.next.node ≡ none
      → q.memory p ≡ none
      → q.popper ≡ outside
      → q.pushers ≡ []
      → (q' : Queue V) × (es : List (Event V)) × (run (stale_pop p v) q ≡ some (q', es))
        × (q'.head.node ≡ none)
        × (q'.popper ≡ has_popped (some a) none)
        × (q'.tail.node ≡ some p)
        × (step pop_step q' ≡ none)
  unfolding is_same replacement swap_tail advance create_node pop_next step run take_at
  run-stale_pop q a p v n at_head at_tail at_a last at_p idle alone = (
    after q a p v n,
    read ∷ read ∷ allocated ∷ read ∷ read ∷ linked v ∷ tail_moved ∷ read ∷ head_moved ∷ [],
    grind arith,
    refl,
    refl,
    refl,
    refl,
  )
