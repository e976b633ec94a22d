-- ===== src/ThreadsafeQueue/Link.antt =====
-- The step of push that links a node, under the lock of the tail (threadsafe_queue.cpp).
use boost_log.Base.{
  ℕ, ◌≡◌, ◌≤◌, Option, none, some, List, [], ◌∷◌, ◌++◌, take_at, take_at-All, take_at-count, count,
  arith, refl, sym, subst,
}
use boost_log.ThreadsafeQueue.{Node, Queue, set_node, link_node}
use boost_log.ThreadsafeQueue.Chain.{
  addresses, last_address, Chain, values-append, last_address-append, addresses-append,
  last_address-count, link-Chain,
}
use boost_log.ThreadsafeQueue.Invariant.{
  Accepts, IsNew, IsLast, uses, IsQueue, Advances, promise, live_node, set_node-New,
}

module _ {V : Type 0} where
  module _ (q : Queue V) (cells : List (ℕ × V)) (hand : Option V) (is : IsQueue q cells hand) where
    module _ (p : ℕ) (others : List ℕ) (i : ℕ) (free : q.owner ≡ none)
        (taken : take_at i q.new_nodes ≡ some (p, others)) where
      abbrev at_tail : q.tail ≡ last_address q.head cells
      at_tail = subst (λ o. IsLast o q.tail (last_address q.head cells)) free is.last

      link_node-IsQueue :
          (n : Node V) (v : V)
          → q.memory q.tail ≡ some n
          → q.memory p ≡ some (record { next = none; storage = some v })
          → IsQueue
              (record q {
                memory = set_node q.tail (some (record n { next = some p })) q.memory;
                new_nodes = others;
                owner = some p;
              })
              (cells ++ (p, v) ∷ [])
              hand
      unfolding uses count addresses
      link_node-IsQueue n v at_n at_p = record {
        chain =
            subst
              (λ t.
                Chain (set_node t (some (record n { next = some p })) q.memory) q.head hand
                  (cells ++ (p, v) ∷ []))
              (sym at_tail)
              (link-Chain q.memory q.head p hand v cells n (λ c. ground (arith, is.once c))
                (ground (arith, is.once p, take_at-count p i q.new_nodes p others taken)) at_p
                is.chain (subst (λ t. q.memory t ≡ some n) at_tail at_n));
        popping = is.popping;
        last = sym (last_address-append q.head cells p v);
        new =
            set_node-New q.tail (some (record n { next = some p })) q.memory others
              (ground (
                arith,
                is.once q.tail,
                at_tail,
                last_address-count q.head cells,
                take_at-count q.tail i q.new_nodes p others taken,
              ))
              (take_at-All (IsNew q.memory) i q.new_nodes p others is.new taken).1;
        once = λ c. ground (
          arith,
          is.once c,
          take_at-count c i q.new_nodes p others taken,
          addresses-append c cells p v,
        );
        live = λ c. (
          (λ f. ground (
            arith,
            (is.live c).0,
            f,
            take_at-count c i q.new_nodes p others taken,
            addresses-append c cells p v,
          )),
          (λ f. ground (
            arith,
            (is.live c).1,
            f,
            at_tail,
            last_address-count q.head cells,
            take_at-count c i q.new_nodes p others taken,
            addresses-append c cells p v,
          )),
        );
      }

      pub link_node-Advances : Advances (promise cells hand) (link_node p others q)
      unfolding Advances link_node Accepts promise uses
      link_node-Advances =
          let (n, at_n) = live_node q cells hand is q.tail (
            subst (λ t. 1 ≤ uses q cells t) (sym at_tail)
              (ground (arith, last_address-count q.head cells))) in
          let (v, at_p) = (take_at-All (IsNew q.memory) i q.new_nodes p others is.new taken).0 in
          rw (Advances, link_node, at_n, at_p)
            (
              cells ++ (p, v) ∷ [],
              hand,
              link_node-IsQueue n v at_n at_p,
              (values-append cells p v, refl),
            )
