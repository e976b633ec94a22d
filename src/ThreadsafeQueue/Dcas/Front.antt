-- ===== src/ThreadsafeQueue/Dcas/Front.antt =====
-- Chains of nodes whose first node is freed or loses its value (threadsafe_queue.cpp, the queue over a DCAS).
use boost_log.Base.{ℕ, ◌≡◌, ◌≢◌, Option, none, some, List, [], ◌∷◌, count, arith, refl}
use boost_log.ThreadsafeQueue.Chain.{addresses}
use boost_log.ThreadsafeQueue.Dcas.{Node, Memory, set_node}
use boost_log.ThreadsafeQueue.Dcas.Chain.{Chain, IsAt}

module _ {V : Type 0} where
  off-IsAt :
      (m : Memory V) (a : ℕ) (next : Option ℕ) (w : Option V) (c : ℕ) (o : Option (Node V))
      → a ≢ c
      → IsAt m a next w
      → IsAt (set_node c o m) a next w
  off-IsAt m a next w c o ne is = record {
    found = is.found;
    at_found = ground (arith, ne, is.at_found);
    next_node = is.next_node;
    stored = is.stored;
  }

  pub off-Chain :
      (m : Memory V) (a : ℕ) (w : Option V) (cs : List (ℕ × V)) (c : ℕ) (o : Option (Node V))
      → count c (a ∷ addresses cs) ≡ 0
      → Chain m a w cs
      → Chain (set_node c o m) a w cs
  unfolding Chain addresses count
  off-Chain m a w [] c o e chain = off-IsAt m a none w c o (λ q. ground (arith, e, q)) chain
  off-Chain m a w ((b, v) ∷ cs) c o e (first, rest) = (
    off-IsAt m a (some b) w c o (λ q. ground (arith, e, q)) first,
    off-Chain m b (some v) cs c o (ground (arith, e)) rest,
  )

  -- The node at the start of a chain, and the chain without its value.
  pub start-Chain :
      (m : Memory V) (a : ℕ) (w : Option V) (cs : List (ℕ × V))
      → count a (addresses cs) ≡ 0
      → Chain m a w cs
      → (n : Node V) × (m a ≡ some n)
        × (n.storage ≡ w)
        × Chain (set_node a (some (record n { storage = none })) m) a none cs
  unfolding Chain addresses count
  start-Chain m a w [] e chain = (
    chain.found,
    chain.at_found,
    chain.stored,
    record {
      found = record chain.found { storage = none };
      at_found = ground arith;
      next_node = chain.next_node;
      stored = refl;
    },
  )
  start-Chain m a w ((b, v) ∷ cs) e (first, rest) = (
    first.found,
    first.at_found,
    first.stored,
    (
      record {
        found = record first.found { storage = none };
        at_found = ground arith;
        next_node = first.next_node;
        stored = refl;
      },
      off-Chain m b (some v) cs a (some (record first.found { storage = none })) (ground (arith, e))
          rest,
    ),
  )
