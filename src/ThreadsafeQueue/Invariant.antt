-- ===== src/ThreadsafeQueue/Invariant.antt =====
-- What holds between the steps of the queue with two locks (threadsafe_queue.cpp), and the plain queue
-- that it implements.
use boost_log.Base.{
  ℕ, ◌+◌, ◌≡◌, ◌≤◌, ◌↔◌, inl, inr, Option-cases, Option, none, some, List, [], ◌∷◌, ◌++◌, count,
  All, arith, refl,
}
use boost_log.ThreadsafeQueue.{
  Node, Memory, Queue, Event, linked, found_empty, head_moved, returned, set_node,
}
use boost_log.ThreadsafeQueue.Chain.{addresses, values, last_address, Chain}

-- The specification: a queue, and the value that was popped and not returned yet.
pub record Promise (V : Type 0) : Type 0 where
  pub contents : List V
  pub hand : Option V

abbrev freeing : Option (ℕ × ℕ) → List ℕ
freeing none = []
freeing (some (dealloc, destr)) = dealloc ∷ []

abbrev pub IsLast : Option ℕ → ℕ → ℕ → Type 0
IsLast none tail last = tail ≡ last
IsLast (some p) tail last = p ≡ last

module _ {V : Type 0} where
  -- What an event may do to it.
  unfoldable pub Accepts : Event V → Promise V → Promise V → Type 0
  Accepts (linked v) s s' = (s'.contents ≡ s.contents ++ v ∷ []) × (s'.hand ≡ s.hand)
  Accepts found_empty s s' = (s.contents ≡ []) × (s.hand ≡ none) × (s' ≡ s)
  Accepts head_moved s s' =
      (v : V) × (s.contents ≡ v ∷ s'.contents) × (s.hand ≡ none) × (s'.hand ≡ some v)
  Accepts (returned v) s s' = (s.hand ≡ some v) × (s'.contents ≡ s.contents) × (s'.hand ≡ none)
  Accepts _ s s' = s' ≡ s

  abbrev pub IsNew : Memory V → ℕ → Type 0
  IsNew m p = (v : V) × (m p ≡ some (record { next = none; storage = some v }))

  abbrev pub IsPopping : Option (ℕ × ℕ) → ℕ → Option V → Type 0
  IsPopping none head hand = hand ≡ none
  IsPopping (some (dealloc, destr)) head hand = (destr ≡ head) × ((v : V) × (hand ≡ some v))

  -- How often an address stands in the queue or with a thread inside it.
  unfoldable pub uses : Queue V → List (ℕ × V) → ℕ → ℕ
  unfolding count addresses
  uses q cells a =
      count a (freeing q.popped) + count a (q.head ∷ addresses cells) + count a q.new_nodes

  -- `cells` are the nodes behind the head. Exactly the nodes that are in use are allocated.
  pub record IsQueue (q : Queue V) (cells : List (ℕ × V)) (hand : Option V) : Type 0 where
    pub chain : Chain q.memory q.head hand cells
    pub popping : IsPopping q.popped q.head hand
    pub last : IsLast q.owner q.tail (last_address q.head cells)
    pub new : All (IsNew q.memory) q.new_nodes
    pub once : (a : ℕ) → uses q cells a ≤ 1
    pub live : (a : ℕ) → (q.memory a ≡ none) ↔ (uses q cells a ≡ 0)

  unfoldable pub promise : List (ℕ × V) → Option V → Promise V
  unfolding values
  promise cells hand = record { contents = values cells; hand = hand }

  -- The step does not access memory that is not allocated, and the specification allows what it does.
  unfoldable pub Advances : Promise V → Option (Queue V × Event V) → Type 0
  unfolding Accepts promise
  Advances s none = ⊥
  Advances s (some (q', e)) =
      (cells : List (ℕ × V)) × (hand : Option V) × IsQueue q' cells hand
      × Accepts e s (promise cells hand)

  -- The node at an address in use.
  pub live_node :
      (q : Queue V) (cells : List (ℕ × V)) (hand : Option V)
      → IsQueue q cells hand
      → (a : ℕ) → 1 ≤ uses q cells a
      → (n : Node V) × (q.memory a ≡ some n)
  live_node q cells hand is a used = elim (Option-cases (q.memory a)) [
    | inl e ↦ absurd (ground (arith, (is.live a).0 e, used))
    | inr found ↦ found
  ]

  pub set_node-New :
      (c : ℕ) (n : Option (Node V)) (m : Memory V) (ps : List ℕ)
      → count c ps ≡ 0
      → All (IsNew m) ps
      → All (IsNew (set_node c n m)) ps
  unfolding count
  set_node-New c n m [] e new = tt
  set_node-New c n m (p ∷ ps) e ((v, is), new) =
      ((v, ground (arith, e, is)), set_node-New c n m ps (ground (arith, e)) new)

  pub Chain-head :
      (m : Memory V) (a : ℕ) (w : Option V) (cs : List (ℕ × V))
      → Chain m a w cs
      → (n : Node V) × (m a ≡ some n) × (n.storage ≡ w)
  unfolding Chain
  Chain-head m a w [] chain = (record { next = none; storage = w }, chain, refl)
  Chain-head m a w ((b, v) ∷ cs) chain = (record { next = some b; storage = w }, chain.0, refl)
