-- ===== src/ThreadsafeQueue/Dcas/Advance.antt =====
-- Each step of a thread in push of the queue over a DCAS (threadsafe_queue.cpp) keeps the invariant.
use boost_log.Base.{
  ℕ, ◌≡◌, ◌≤◌, true, false, none, some, Bool-cases, Option-cases, inl, inr, List, [], ◌∷◌, ◌++◌,
  count, arith, refl, sym, ◌∙◌, subst,
}
use boost_log.ThreadsafeQueue.{Creation, created, bad_alloc, copy_threw, linked, read}
use boost_log.ThreadsafeQueue.Chain.{addresses, values-append, addresses-append}
use boost_log.ThreadsafeQueue.Dcas.{
  PointerRep, Node, Pusher, starts, has_tail, has_next, has_linked, Queue, set_node, is_same,
  replacement, swap_tail, create_node, advance,
}
use boost_log.ThreadsafeQueue.Dcas.Chain.{
  PointsInto, PointsInto-frame, FollowsAt, Knows, new_nodes, Follows-frame, set_node-Chain,
  link-Chain, Knows-frame,
}
use boost_log.ThreadsafeQueue.Dcas.Invariant.{
  is_same-node, IsPushing, Pushes, new_nodes-cons, same_values, swap_tail-PointsInto,
  FollowsAt-linked, loaded-FollowsAt, tail_node,
}

module _ {V : Type 0} where
  module _ (q : Queue V) (h : ℕ) (cells : List (ℕ × V)) where
    create_node-IsPushing :
        (a : ℕ) (v : V)
        → q.memory a ≡ none
        → IsPushing q h cells
        → IsPushing
            (record q {
              memory =
                  set_node a
                    (some (record { next = record { counter = 0; node = none }; storage = some v }))
                    q.memory;
              pushers = starts a v ∷ q.pushers;
            })
            h
            cells
    unfolding Knows new_nodes count
    create_node-IsPushing a v e is =
        let n : Node V = record { next = record { counter = 0; node = none }; storage = some v } in
        record {
          at_head = is.at_head;
          chain = set_node-Chain q.memory h none cells a n e is.chain;
          at_tail = is.at_tail;
          threads = (
            ground arith,
            Knows-frame q.memory (set_node a (some n) q.memory) (h ∷ addresses cells)
                (h ∷ addresses cells) q.pushers
                (λ y z. Follows-frame q.memory a n y z (λ k w. absurd (ground (arith, w, e))))
                (λ y w. w) (λ c w. ground (arith, w, is.live a e)) is.threads,
          );
          once = λ c. ground (arith, is.once c, is.live a e);
          live = λ c w. ground (arith, is.live c, w);
        }

    pub create_node-Pushes :
        (c : Creation) (v : V) → IsPushing q h cells → Pushes h cells (create_node c v q)
    unfolding Pushes create_node
    create_node-Pushes bad_alloc v is = (cells, is, same_values cells)
    create_node-Pushes copy_threw v is = (cells, is, same_values cells)
    create_node-Pushes (created a) v is = elim (Option-cases (q.memory a)) [
      | inr (n, e) ↦ rw (Pushes, create_node, e) (cells, is, same_values cells)
      | inl e ↦
          rw (Pushes, create_node, e) (cells, create_node-IsPushing a v e is, same_values cells)
    ]

    abbrev behind : Pusher V → Queue V
    behind t = record q { pushers = t ∷ q.pushers }

    -- The thread changes what it knows, and the tail may change too.
    keep-IsPushing :
        (t t' : Pusher V) (tail : PointerRep)
        → IsPushing (behind t) h cells
        → ((a : ℕ) → count a (new_nodes (t' ∷ [])) ≡ count a (new_nodes (t ∷ [])))
        → Knows q.memory (h ∷ addresses cells) t'
        → PointsInto (h ∷ addresses cells) tail.node
        → IsPushing (record q { tail = tail; pushers = t' ∷ q.pushers }) h cells
    keep-IsPushing t t' tail is same knows into = record {
      at_head = is.at_head;
      chain = is.chain;
      at_tail = into;
      threads = (knows, is.threads.1);
      once = λ a.
          omega
            (arith, is.once a, same a, new_nodes-cons a t q.pushers, new_nodes-cons a t' q.pushers);
      live = λ a e.
          omega (
            arith,
            is.live a e,
            same a,
            new_nodes-cons a t q.pushers,
            new_nodes-cons a t' q.pushers,
          );
    }

    starts-Pushes :
        (p : ℕ) (v : V)
        → IsPushing (behind (starts p v)) h cells
        → Pushes h cells (advance (starts p v) q)
    unfolding Pushes advance Knows new_nodes
    starts-Pushes p v is = (
      cells,
      keep-IsPushing (starts p v) (has_tail p v q.tail) q.tail is (λ a. refl)
          (is.threads.0, is.at_tail) is.at_tail,
      same_values cells,
    )

    has_tail-Pushes :
        (p : ℕ) (v : V) (tail : PointerRep)
        → IsPushing (behind (has_tail p v tail)) h cells
        → Pushes h cells (advance (has_tail p v tail) q)
    unfolding Pushes advance Knows new_nodes
    has_tail-Pushes p v tail is =
        let (x, n, e, at_x, known) =
          tail_node (behind (has_tail p v tail)) h cells tail is is.threads.0.1 in
        let stepped : advance (has_tail p v tail) q
            ≡ some (record q { pushers = has_next p v tail n.next ∷ q.pushers }, read) =
          ground (arith, e, at_x) in
        subst (Pushes h cells) (sym stepped) (
          cells,
          keep-IsPushing (has_tail p v tail) (has_next p v tail n.next) q.tail is (λ a. refl)
              (
                is.threads.0.0,
                is.threads.0.1,
                subst (λ o. FollowsAt q.memory o n.next.node) (sym e)
                    (loaded-FollowsAt q.memory x n n.next.node at_x refl),
              )
              is.at_tail,
          same_values cells,
        )

    has_linked-Pushes :
        (p : ℕ) (v : V) (tail : PointerRep)
        → IsPushing (behind (has_linked p v tail)) h cells
        → Pushes h cells (advance (has_linked p v tail) q)
    unfolding Pushes advance Knows new_nodes swap_tail
    has_linked-Pushes p v tail is = (
      cells,
      record {
        at_head = is.at_head;
        chain = is.chain;
        at_tail =
            swap_tail-PointsInto (h ∷ addresses cells) tail (some p) q is.at_tail (
              FollowsAt-linked q.memory h cells tail.node p is.chain is.threads.0.0 is.threads.0.1);
        threads = is.threads.1;
        once = is.once;
        live = is.live;
      },
      same_values cells,
    )

    -- The DCAS behind which the node is linked.
    link-IsPushing :
        (p : ℕ) (v : V) (tail next : PointerRep) (x : ℕ) (n : Node V)
        → IsPushing (behind (has_next p v tail next)) h cells
        → tail.node ≡ some x
        → q.memory x ≡ some n
        → n.next.node ≡ none
        → 1 ≤ count x (h ∷ addresses cells)
        → IsPushing
            (record q {
              memory = set_node x (some (record n { next = replacement next (some p) })) q.memory;
              pushers = has_linked p v tail ∷ q.pushers;
            })
            h
            (cells ++ (p, v) ∷ [])
    unfolding replacement Knows new_nodes count
    link-IsPushing p v tail next x n is e at_x open_end known =
        let more : (y : ℕ)
            → 1 ≤ count y (h ∷ addresses cells)
            → 1 ≤ count y (h ∷ addresses (cells ++ (p, v) ∷ [])) =
          λ y w. ground (arith, w, addresses-append y cells p v) in
        let new : count p (h ∷ addresses cells) ≡ 0 = ground (arith, is.once p) in
        record {
          at_head = is.at_head;
          chain =
              link-Chain q.memory h none cells x p v n (replacement next (some p)) is.chain known
                at_x open_end refl new is.threads.0.0;
          at_tail =
              PointsInto-frame (h ∷ addresses cells) (h ∷ addresses (cells ++ (p, v) ∷ []))
                q.tail.node more is.at_tail;
          threads = (
            (
              PointsInto-frame (h ∷ addresses cells) (h ∷ addresses (cells ++ (p, v) ∷ []))
                  tail.node more is.threads.0.1,
              subst
                  (λ o.
                    FollowsAt
                      (set_node x (some (record n { next = replacement next (some p) })) q.memory) o
                      (some p))
                  (sym e) (record n { next = replacement next (some p) }, ground arith, refl),
            ),
            Knows-frame q.memory
                (set_node x (some (record n { next = replacement next (some p) })) q.memory)
                (h ∷ addresses cells) (h ∷ addresses (cells ++ (p, v) ∷ [])) q.pushers
                (λ y z.
                  Follows-frame q.memory x (record n { next = replacement next (some p) }) y z
                    (λ k w. grind (arith, w, at_x, open_end)))
                more (λ c w. ground (arith, is.once c, known, w)) is.threads.1,
          );
          once = λ a. ground (arith, is.once a, addresses-append a cells p v);
          live = λ a w. ground (arith, is.live a, w, addresses-append a cells p v);
        }

    module _ (p : ℕ) (v : V) (tail next : PointerRep) (x : ℕ) (n : Node V) (e : next.node ≡ none)
        (f : tail.node ≡ some x) (at_x : q.memory x ≡ some n) where
      advance-linked :
          is_same n.next next ≡ true
          → advance (has_next p v tail next) q
            ≡ some (
              record q {
                memory = set_node x (some (record n { next = replacement next (some p) })) q.memory;
                pushers = has_linked p v tail ∷ q.pushers;
              },
              linked v,
            )
      unfolding advance
      advance-linked g = ground (arith, e, f, at_x, g)

      advance-again :
          is_same n.next next ≡ false
          → advance (has_next p v tail next) q
            ≡ some (record q { pushers = starts p v ∷ q.pushers }, read)
      unfolding advance
      advance-again g = ground (arith, e, f, at_x, g)

    has_next-Pushes :
        (p : ℕ) (v : V) (tail next : PointerRep)
        → IsPushing (behind (has_next p v tail next)) h cells
        → Pushes h cells (advance (has_next p v tail next) q)
    unfolding Pushes advance Knows new_nodes swap_tail
    has_next-Pushes p v tail next is = elim (Option-cases next.node) [
      | inr (m, e) ↦
          rw (Pushes, advance, e)
            (
              cells,
              keep-IsPushing (has_next p v tail next) (starts p v) (swap_tail tail (some m) q).tail
                  is (λ a. refl) is.threads.0.0
                  (swap_tail-PointsInto (h ∷ addresses cells) tail (some m) q is.at_tail (
                    FollowsAt-linked q.memory h cells tail.node m is.chain is.threads.0.1
                      (subst (FollowsAt q.memory tail.node) e is.threads.0.2))),
              same_values cells,
            )
      | inl e ↦
          let (x, n, f, at_x, known) =
            tail_node (behind (has_next p v tail next)) h cells tail is is.threads.0.1 in
          elim (Bool-cases (is_same n.next next)) [
            | inl g ↦ subst (Pushes h cells) (sym (advance-linked p v tail next x n e f at_x g)) (
              cells ++ (p, v) ∷ [],
              link-IsPushing p v tail next x n is f at_x (is_same-node n.next next g ∙ e) known,
              values-append cells p v,
            )
            | inr g ↦ subst (Pushes h cells) (sym (advance-again p v tail next x n e f at_x g)) (
              cells,
              keep-IsPushing (has_next p v tail next) (starts p v) q.tail is (λ a. refl)
                  is.threads.0.0 is.at_tail,
              same_values cells,
            )
          ]
    ]

    pub advance-Pushes :
        (t : Pusher V) → IsPushing (behind t) h cells → Pushes h cells (advance t q)
    advance-Pushes (starts p v) = starts-Pushes p v
    advance-Pushes (has_tail p v tail) = has_tail-Pushes p v tail
    advance-Pushes (has_next p v tail next) = has_next-Pushes p v tail next
    advance-Pushes (has_linked p v tail) = has_linked-Pushes p v tail
