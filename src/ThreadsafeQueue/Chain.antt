-- ===== src/ThreadsafeQueue/Chain.antt =====
-- The nodes of the queue with two locks (threadsafe_queue.cpp), linked from the head to the end.
use boost_log.Base.{
  ℕ, ◌+◌, ◌≡◌, ◌≢◌, ◌≤◌, Option, none, some, List, [], ◌∷◌, ◌++◌, count, arith, refl, ap, ◌∙◌,
}
use boost_log.ThreadsafeQueue.{Node, Memory, set_node}

module _ {V : Type 0} where
  unfoldable pub addresses : List (ℕ × V) → List ℕ
  addresses [] = []
  addresses ((b, v) ∷ cs) = b ∷ addresses cs

  unfoldable pub values : List (ℕ × V) → List V
  values [] = []
  values ((b, v) ∷ cs) = v ∷ values cs

  unfoldable pub last_address : ℕ → List (ℕ × V) → ℕ
  last_address a [] = a
  last_address a ((b, v) ∷ cs) = last_address b cs

  -- The node at `a` has the given storage, and the cells are the nodes behind it.
  unfoldable pub Chain : Memory V → ℕ → Option V → List (ℕ × V) → Type 0
  Chain m a w [] = m a ≡ some (record { next = none; storage = w })
  Chain m a w ((b, v) ∷ cs) =
      (m a ≡ some (record { next = some b; storage = w })) × Chain m b (some v) cs

  pub values-append :
      (cs : List (ℕ × V)) (p : ℕ) (v : V) → values (cs ++ (p, v) ∷ []) ≡ values cs ++ v ∷ []
  unfolding values
  values-append [] p v = refl
  values-append ((b, u) ∷ cs) p v = ap (λ vs. u ∷ vs) (values-append cs p v)

  pub last_address-append :
      (a : ℕ) (cs : List (ℕ × V)) (p : ℕ) (v : V) → last_address a (cs ++ (p, v) ∷ []) ≡ p
  unfolding last_address
  last_address-append a [] p v = refl
  last_address-append a ((b, u) ∷ cs) p v = last_address-append b cs p v

  pub addresses-append :
      (c : ℕ) (cs : List (ℕ × V)) (p : ℕ) (v : V)
      → count c (addresses (cs ++ (p, v) ∷ [])) ≡ count c (addresses cs) + count c (p ∷ [])
  unfolding addresses count
  addresses-append c [] p v = ground arith
  addresses-append c ((b, u) ∷ cs) p v = ground (arith, addresses-append c cs p v)

  pub last_address-count :
      (a : ℕ) (cs : List (ℕ × V)) → 1 ≤ count (last_address a cs) (a ∷ addresses cs)
  unfolding addresses count last_address
  last_address-count a [] = ground arith
  last_address-count a ((b, u) ∷ cs) = ground (arith, last_address-count b cs)

  set_node_same : (c : ℕ) (n : Option (Node V)) (m : Memory V) → set_node c n m c ≡ n
  set_node_same c n m = ground arith

  set_node_other : (a c : ℕ) (n : Option (Node V)) (m : Memory V) → a ≢ c → set_node c n m a ≡ m a
  set_node_other a c n m ne = ground (arith, ne)

  -- What lies outside the chain does not matter to it.
  pub set_node-Chain :
      (c : ℕ) (n : Option (Node V)) (m : Memory V) (a : ℕ) (w : Option V) (cs : List (ℕ × V))
      → count c (a ∷ addresses cs) ≡ 0
      → Chain m a w cs
      → Chain (set_node c n m) a w cs
  unfolding Chain addresses count
  set_node-Chain c n m a w [] e chain = set_node_other a c n m (λ q. ground (arith, e, q)) ∙ chain
  set_node-Chain c n m a w ((b, v) ∷ cs) e (at_a, rest) = (
    set_node_other a c n m (λ q. ground (arith, e, q)) ∙ at_a,
    set_node-Chain c n m b (some v) cs (ground (arith, e)) rest,
  )

  -- The storage of the first node changes.
  pub set_storage-Chain :
      (m : Memory V) (a : ℕ) (w w' : Option V) (cs : List (ℕ × V)) (n : Node V)
      → count a (addresses cs) ≡ 0
      → Chain m a w cs
      → m a ≡ some n
      → Chain (set_node a (some (record n { storage = w' })) m) a w' cs
  unfolding Chain addresses count
  set_storage-Chain m a w w' [] n e chain is = grind arith
  set_storage-Chain m a w w' ((b, v) ∷ cs) n e (at_a, rest) is = (
    grind arith,
    set_node-Chain a (some (record n { storage = w' })) m b (some v) cs (ground (arith, e)) rest,
  )

  -- A node is linked behind the last one.
  pub link-Chain :
      (m : Memory V) (a p : ℕ) (w : Option V) (v : V) (cs : List (ℕ × V)) (n : Node V)
      → ((c : ℕ) → count c (a ∷ addresses cs) ≤ 1)
      → count p (a ∷ addresses cs) ≡ 0
      → m p ≡ some (record { next = none; storage = some v })
      → Chain m a w cs
      → m (last_address a cs) ≡ some n
      → Chain
          (set_node (last_address a cs) (some (record n { next = some p })) m)
          a
          w
          (cs ++ (p, v) ∷ [])
  unfolding Chain addresses count last_address
  link-Chain m a p w v [] n once new is chain at_last = (grind arith, grind arith)
  link-Chain m a p w v ((b, u) ∷ cs) n once new is (at_a, rest) at_last = (
    set_node_other a (last_address b cs) (some (record n { next = some p })) m
          (λ q. ground (arith, once a, q, last_address-count b cs))
        ∙ at_a,
    link-Chain m b p (some u) v cs n (λ c. ground (arith, once c)) (ground (arith, new)) is rest
        at_last,
  )
