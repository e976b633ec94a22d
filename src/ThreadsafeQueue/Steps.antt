-- ===== src/ThreadsafeQueue/Steps.antt =====
-- Each step of the queue with two locks (threadsafe_queue.cpp) keeps its invariant.
use boost_log.Base.{
  ℕ, ◌≡◌, inl, inr, Option-cases, Option, none, some, List, [], ◌∷◌, take_at, count, arith, refl,
  sym, subst, ap, ◌∙◌,
}
use boost_log.ThreadsafeQueue.{
  Node, Queue, Creation, created, bad_alloc, copy_threw, Action, push, link, move_tail, try_pop,
  take_value, idle, tail_moved, set_node, create_node, pop_node, take_node, step,
}
use boost_log.ThreadsafeQueue.Chain.{
  addresses, values, last_address, Chain, set_node-Chain, set_storage-Chain,
}
use boost_log.ThreadsafeQueue.Invariant.{
  Accepts, IsPopping, IsLast, uses, IsQueue, Advances, promise, live_node, set_node-New, Chain-head,
}
use boost_log.ThreadsafeQueue.Link.{link_node-Advances}

module _ {V : Type 0} where
  module _ (q : Queue V) (cells : List (ℕ × V)) (hand : Option V) (is : IsQueue q cells hand) where
    create_node-IsQueue :
        (a : ℕ) (v : V)
        → q.memory a ≡ none
        → IsQueue
            (record q {
              memory = set_node a (some (record { next = none; storage = some v })) q.memory;
              new_nodes = a ∷ q.new_nodes;
            })
            cells
            hand
    unfolding uses count addresses
    create_node-IsQueue a v e = record {
      chain =
          set_node-Chain a (some (record { next = none; storage = some v })) q.memory q.head hand
            cells (ground (arith, (is.live a).0 e)) is.chain;
      popping = is.popping;
      last = is.last;
      new = (
        (v, ground arith),
        set_node-New a (some (record { next = none; storage = some v })) q.memory q.new_nodes
            (ground (arith, (is.live a).0 e)) is.new,
      );
      once = λ c. ground (arith, is.once c, (is.live a).0 e);
      live =
          λ c. ((λ f. ground (arith, (is.live c).0, f)), (λ f. ground (arith, (is.live c).1, f)));
    }

    create_node-Advances :
        (c : Creation) (v : V) → Advances (promise cells hand) (create_node c v q)
    unfolding Advances create_node Accepts promise
    create_node-Advances bad_alloc v = (cells, hand, is, refl)
    create_node-Advances copy_threw v = (cells, hand, is, refl)
    create_node-Advances (created a) v = elim (Option-cases (q.memory a)) [
      | inr (n, e) ↦ rw (create_node, e) (cells, hand, is, refl)
      | inl e ↦ rw (create_node, e) (cells, hand, create_node-IsQueue a v e, refl)
    ]

    idle-Advances : Advances (promise cells hand) (some (q, idle))
    unfolding Advances Accepts promise
    idle-Advances = (cells, hand, is, refl)

    move_tail-Advances :
        (p : ℕ)
        → q.owner ≡ some p
        → Advances (promise cells hand) (some (record q { tail = p; owner = none }, tail_moved))
    unfolding Advances Accepts promise uses count addresses
    move_tail-Advances p e = (
      cells,
      hand,
      record {
        chain = is.chain;
        popping = is.popping;
        last = subst (λ o. IsLast o q.tail (last_address q.head cells)) e is.last;
        new = is.new;
        once = is.once;
        live = is.live;
      },
      refl,
    )

    module _ (d p : ℕ) (v : V) (taking : q.popped ≡ some (d, p)) (at_head : p ≡ q.head)
        (held : hand ≡ some v) where
      pub take_node-IsQueue :
          (n : Node V)
          → q.memory p ≡ some n
          → IsQueue
              (record q {
                memory = set_node p (some (record n { storage = none })) (set_node d none q.memory);
                popped = none;
              })
              cells
              none
      unfolding uses count addresses
      take_node-IsQueue n at_n = record {
        chain =
            subst
              (λ a.
                Chain (set_node a (some (record n { storage = none })) (set_node d none q.memory))
                  q.head none cells)
              (sym at_head)
              (set_storage-Chain (set_node d none q.memory) q.head hand none cells n
                (ground (arith, is.once q.head))
                (set_node-Chain d none q.memory q.head hand cells
                  (ground (arith, is.once d, taking)) is.chain)
                (ground (arith, at_n, at_head, is.once d, taking)));
        popping = refl;
        last = is.last;
        new =
            set_node-New p (some (record n { storage = none })) (set_node d none q.memory)
              q.new_nodes (ground (arith, is.once p, at_head))
              (set_node-New d none q.memory q.new_nodes (ground (arith, is.once d, taking)) is.new);
        once = λ c. ground (arith, is.once c);
        live = λ c. (
          (λ f. ground (arith, (is.live c).0, is.once c, f, taking)),
          (λ f. ground (arith, (is.live c).1, f, taking, at_head)),
        );
      }

      take_node-Advances : Advances (promise cells hand) (take_node d p q)
      unfolding Advances take_node Accepts promise uses count
      take_node-Advances =
          let (n, at_n, stored) = Chain-head q.memory q.head hand cells is.chain in
          let (m, at_d) = live_node q cells hand is d (ground (arith, taking)) in
          let at_p : q.memory p ≡ some n = ap q.memory at_head ∙ at_n in
          rw (Advances, take_node, at_p, stored ∙ held, at_d)
            (cells, none, take_node-IsQueue n at_p, (held, refl, refl))

  pub pop_node-IsQueue :
      (q : Queue V) (b : ℕ) (v : V) (cs : List (ℕ × V)) (hand : Option V)
      → IsQueue q ((b, v) ∷ cs) hand
      → q.popped ≡ none
      → IsQueue (record q { head = b; popped = some (q.head, b) }) cs (some v)
  unfolding Chain last_address uses count addresses
  pop_node-IsQueue q b v cs hand is e = record {
    chain = is.chain.1;
    popping = (refl, (v, refl));
    last = is.last;
    new = is.new;
    once = λ c. ground (arith, is.once c, e);
    live = λ c.
        ((λ f. ground (arith, (is.live c).0, f, e)), (λ f. ground (arith, (is.live c).1, f, e)));
  }

  pop_node-Advances :
      (q : Queue V) (cells : List (ℕ × V)) (hand : Option V)
      → IsQueue q cells hand
      → q.popped ≡ none
      → Advances (promise cells hand) (pop_node q)
  unfolding Advances pop_node Accepts promise Chain values
  pop_node-Advances q [] hand is e =
      rw (Advances, pop_node, is.chain)
        ([], hand, is, (refl, subst (λ o. IsPopping o q.head hand) e is.popping, refl))
  pop_node-Advances q ((b, v) ∷ cs) hand is e =
      rw (Advances, pop_node, is.chain.0)
        (
          cs,
          some v,
          pop_node-IsQueue q b v cs hand is e,
          (v, refl, subst (λ o. IsPopping o q.head hand) e is.popping, refl),
        )

  pub step-Advances :
      (a : Action V) (q : Queue V) (cells : List (ℕ × V)) (hand : Option V)
      → IsQueue q cells hand
      → Advances (promise cells hand) (step a q)
  unfolding step
  step-Advances (push c v) q cells hand is = create_node-Advances q cells hand is c v
  step-Advances (link i) q cells hand is = elim (Option-cases q.owner) [
    | inr (p, e) ↦ rw (step, e) (idle-Advances q cells hand is)
    | inl e ↦ elim (Option-cases (take_at i q.new_nodes)) [
      | inl f ↦ rw (step, e, f) (idle-Advances q cells hand is)
      | inr ((p, others), f) ↦ rw (step, e, f) (link_node-Advances q cells hand is p others i e f)
    ]
  ]
  step-Advances move_tail q cells hand is = elim (Option-cases q.owner) [
    | inl e ↦ rw (step, e) (idle-Advances q cells hand is)
    | inr (p, e) ↦ rw (step, e) (move_tail-Advances q cells hand is p e)
  ]
  step-Advances try_pop q cells hand is = elim (Option-cases q.popped) [
    | inr (p, e) ↦ rw (step, e) (idle-Advances q cells hand is)
    | inl e ↦ rw (step, e) (pop_node-Advances q cells hand is e)
  ]
  step-Advances take_value q cells hand is = elim (Option-cases q.popped) [
    | inl e ↦ rw (step, e) (idle-Advances q cells hand is)
    | inr ((d, p), e) ↦
        let (at_head, (v, held)) = subst (λ o. IsPopping o q.head hand) e is.popping in
        rw (step, e) (take_node-Advances q cells hand is d p v e at_head held)
  ]
