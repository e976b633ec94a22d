-- ===== src/ThreadsafeQueue/Destruction.antt =====
-- The destructor of threadsafe_queue (detail/threadsafe_queue.hpp).
use boost_log.Base.{
  ℕ, count, suc, ◌≡◌, true, Bool-cases, none, some, inl, inr, List, [], ◌∷◌, length, arith, refl,
  subst,
}
use boost_log.ThreadsafeQueue.{
  Memory, Queue, Action, Event, found_empty, set_node, construct, run, pop_node, take_node,
  unsafe_empty, drain, free_last, destroy,
}
use boost_log.ThreadsafeQueue.Chain.{Chain, addresses, last_address, last_address-count}
use boost_log.ThreadsafeQueue.Invariant.{IsQueue, IsLast, IsPopping, uses, Chain-head}
use boost_log.ThreadsafeQueue.Steps.{pop_node-IsQueue, take_node-IsQueue}
use boost_log.ThreadsafeQueue.Fifo.{run-refines}

module _ {V : Type 0} where
  -- No thread is in push or try_pop.
  pub record IsQuiet (q : Queue V) : Type 0 where
    pub not_popping : q.popped ≡ none
    pub not_linking : q.owner ≡ none
    pub not_pushing : q.new_nodes ≡ []

  -- A queue that is empty.
  abbrev IsDrained : Queue V → Type 0
  IsDrained q = IsQueue q [] none × IsQuiet q

  drain-IsDrained :
      (q : Queue V) (cells : List (ℕ × V))
      → IsQueue q cells none
      → IsQuiet q
      → (q' : Queue V) × (drain (suc (length cells)) q ≡ some q') × IsDrained q'
  unfolding drain pop_node take_node Chain
  drain-IsDrained q [] is quiet =
      let popped : pop_node q ≡ some (q, found_empty) = ground (arith, is.chain) in
      (q, ground (arith, popped, quiet.not_popping), (is, quiet))
  drain-IsDrained q ((b, v) ∷ cs) is quiet =
      let is1 = pop_node-IsQueue q b v cs none is quiet.not_popping in
      let (n, at_b, stored) = Chain-head q.memory b (some v) cs is1.chain in
      let q1 : Queue V = record q { head = b; popped = some (q.head, b) } in
      let is2 = take_node-IsQueue q1 cs (some v) is1 q.head b v refl refl refl n at_b in
      let q2 : Queue V = record q {
        memory = set_node b (some (record n { storage = none })) (set_node q.head none q.memory);
        head = b;
        popped = none;
      } in
      let (q', drained, done) = drain-IsDrained q2 cs is2 (record {
        not_popping = refl;
        not_linking = quiet.not_linking;
        not_pushing = quiet.not_pushing;
      }) in
      (q', rw (drain, pop_node, is.chain.0, take_node, at_b, stored, is.chain.0) drained, done)

  -- The head is the tail exactly if nothing is behind it.
  unsafe_empty-cells :
      (q : Queue V) (cells : List (ℕ × V))
      → IsQueue q cells none
      → IsQuiet q
      → unsafe_empty q ≡ true
      → cells ≡ []
  unfolding unsafe_empty last_address uses addresses count
  unsafe_empty-cells q [] is quiet e = refl
  unsafe_empty-cells q ((b, v) ∷ cs) is quiet e =
      let at_tail = subst (λ o. IsLast o q.tail (last_address b cs)) quiet.not_linking is.last in
      absurd (ground (arith, e, at_tail, is.once q.head, last_address-count b cs))

  free_last-frees :
      (q : Queue V) → IsDrained q → (m : Memory V) × (free_last q ≡ some m) × ((a : ℕ) → m a ≡ none)
  unfolding free_last unsafe_empty last_address uses addresses count Chain
  free_last-frees q (is, quiet) =
      let at_tail = subst (λ o. IsLast o q.tail q.head) quiet.not_linking is.last in
      (
        set_node q.head none q.memory,
        ground (arith, at_tail, is.chain),
        λ a. ground (arith, (is.live a).1, quiet.not_popping, quiet.not_pushing),
      )

  -- Once no thread is in push or try_pop, the destructor ends, its assertion holds, and it leaves no node
  -- allocated.
  pub destroy-frees :
      (actions : List (Action V)) (a : ℕ) (q : Queue V) (es : List (Event V))
      → run actions (construct a) ≡ some (q, es)
      → IsQuiet q
      → (k : ℕ) × (m : Memory V) × (destroy k q ≡ some m) × ((c : ℕ) → m c ≡ none)
  unfolding destroy
  destroy-frees actions a q es ran quiet =
      let (q', es', ran', cells, hand, is, _) = run-refines actions a in
      let same : q' ≡ q = ground (arith, ran, ran') in
      let is_same : IsQueue q cells hand = subst (λ x. IsQueue x cells hand) same is in
      let no_hand : hand ≡ none =
        subst (λ o. IsPopping o q.head hand) quiet.not_popping is_same.popping in
      let is_q : IsQueue q cells none = subst (IsQueue q cells) no_hand is_same in
      elim (Bool-cases (unsafe_empty q)) [
        | inl e ↦
            let (m, freed, nothing) = free_last-frees q (
              subst (λ cs. IsQueue q cs none) (unsafe_empty-cells q cells is_q quiet e) is_q,
              quiet,
            ) in
            (0, m, rw (destroy, e) freed, nothing)
        | inr e ↦
            let (q1, drained, done) = drain-IsDrained q cells is_q quiet in
            let (m, freed, nothing) = free_last-frees q1 done in
            (suc (length cells), m, rw (destroy, e, drained) freed, nothing)
      ]
