-- ===== src/ThreadsafeQueue/Dcas/Chain.antt =====
-- The nodes of the queue over a DCAS (threadsafe_queue.cpp), linked from the head to the end, and what a
-- thread in push knows of them.
use boost_log.Base.{
  ℕ, ◌≡◌, ◌≤◌, ◌==◌, Option, none, some, Bool-cases, inl, inr, List, [], ◌∷◌, ◌++◌, count, All,
  arith, refl, ◌∙◌,
}
use boost_log.ThreadsafeQueue.Chain.{addresses}
use boost_log.ThreadsafeQueue.Dcas.{
  PointerRep, Node, Memory, Pusher, starts, has_tail, has_next, has_linked, set_node,
}

-- A pointer to one of the linked nodes.
abbrev pub PointsInto : List ℕ → Option ℕ → Type 0
PointsInto nodes none = ⊥
PointsInto nodes (some x) = 1 ≤ count x nodes

-- The same of a list with more nodes.
pub PointsInto-frame :
    (nodes nodes' : List ℕ) (o : Option ℕ)
    → ((x : ℕ) → 1 ≤ count x nodes → 1 ≤ count x nodes')
    → PointsInto nodes o
    → PointsInto nodes' o
PointsInto-frame nodes nodes' none linked into = into
PointsInto-frame nodes nodes' (some x) linked into = linked x into

module _ {V : Type 0} where
  -- The node at `a` has the given next node and storage.
  pub record IsAt (m : Memory V) (a : ℕ) (next : Option ℕ) (w : Option V) : Type 0 where
    pub found : Node V
    pub at_found : m a ≡ some found
    pub next_node : found.next.node ≡ next
    pub stored : found.storage ≡ w

  unfoldable pub Chain : Memory V → ℕ → Option V → List (ℕ × V) → Type 0
  Chain m a w [] = IsAt m a none w
  Chain m a w ((b, v) ∷ cs) = IsAt m a (some b) w × Chain m b (some v) cs

  -- A node whose next node is `p`, and one that is not linked yet.
  abbrev Follows : Memory V → ℕ → ℕ → Type 0
  Follows m x p = (n : Node V) × (m x ≡ some n) × (n.next.node ≡ some p)

  abbrev pub IsNew : Memory V → ℕ → V → Type 0
  IsNew m p v = m p ≡ some (record { next = record { counter = 0; node = none }; storage = some v })

  abbrev pub FollowsAt : Memory V → Option ℕ → Option ℕ → Type 0
  FollowsAt m (some x) (some p) = Follows m x p
  FollowsAt m _ _ = Unit

  -- What a thread in push has loaded is true as long as nothing is popped.
  unfoldable pub Knows : Memory V → List ℕ → Pusher V → Type 0
  Knows m nodes (starts p v) = IsNew m p v
  Knows m nodes (has_tail p v tail) = IsNew m p v × PointsInto nodes tail.node
  Knows m nodes (has_next p v tail next) =
      IsNew m p v × PointsInto nodes tail.node × FollowsAt m tail.node next.node
  Knows m nodes (has_linked p v tail) = PointsInto nodes tail.node × FollowsAt m tail.node (some p)

  -- The nodes of the threads that are not linked yet.
  unfoldable pub new_nodes : List (Pusher V) → List ℕ
  new_nodes [] = []
  new_nodes (starts p v ∷ ts) = p ∷ new_nodes ts
  new_nodes (has_tail p v tail ∷ ts) = p ∷ new_nodes ts
  new_nodes (has_next p v tail next ∷ ts) = p ∷ new_nodes ts
  new_nodes (has_linked p v tail ∷ ts) = new_nodes ts

  -- A link is not taken back.
  pub Follows-frame :
      (m : Memory V) (c : ℕ) (n : Node V) (x p : ℕ)
      → ((k : Node V) → m c ≡ some k → k.next.node ≡ none)
      → Follows m x p
      → Follows (set_node c (some n) m) x p
  Follows-frame m c n x p open_end (k, at_x, next) =
      (k, ground (arith, open_end k, at_x, next), next)

  -- The next node of a linked node is linked.
  pub Follows-linked :
      (m : Memory V) (a : ℕ) (w : Option V) (cs : List (ℕ × V)) (x p : ℕ)
      → Chain m a w cs
      → 1 ≤ count x (a ∷ addresses cs)
      → Follows m x p
      → 1 ≤ count p (a ∷ addresses cs)
  unfolding Chain addresses count
  Follows-linked m a w [] x p chain linked (n, at_x, next) =
      absurd (grind (arith, chain.at_found, chain.next_node))
  Follows-linked m a w ((b, v) ∷ cs) x p (first, rest) linked (n, at_x, next) =
      elim (Bool-cases (a == x)) [
        | inl e ↦
            let same : b ≡ p = grind (arith, e, first.at_found, first.next_node, at_x, next) in
            ground (arith, same)
        | inr e ↦ ground (
          arith,
          e,
          linked,
          Follows-linked m b (some v) cs x p rest (ground (arith, e, linked)) (n, at_x, next),
        )
      ]

  set_node-IsAt :
      (m : Memory V) (a : ℕ) (next : Option ℕ) (w : Option V) (c : ℕ) (n : Node V)
      → m c ≡ none
      → IsAt m a next w
      → IsAt (set_node c (some n) m) a next w
  set_node-IsAt m a next w c n e is = record {
    found = is.found;
    at_found = ground (arith, e, is.at_found);
    next_node = is.next_node;
    stored = is.stored;
  }

  -- A node is created.
  pub set_node-Chain :
      (m : Memory V) (a : ℕ) (w : Option V) (cs : List (ℕ × V)) (c : ℕ) (n : Node V)
      → m c ≡ none
      → Chain m a w cs
      → Chain (set_node c (some n) m) a w cs
  unfolding Chain
  set_node-Chain m a w [] c n e chain = set_node-IsAt m a none w c n e chain
  set_node-Chain m a w ((b, v) ∷ cs) c n e (first, rest) =
      (set_node-IsAt m a (some b) w c n e first, set_node-Chain m b (some v) cs c n e rest)

  pub link-Chain :
      (m : Memory V) (a : ℕ) (w : Option V) (cs : List (ℕ × V)) (x p : ℕ) (v : V) (n : Node V)
      (r : PointerRep)
      → Chain m a w cs
      → 1 ≤ count x (a ∷ addresses cs)
      → m x ≡ some n
      → n.next.node ≡ none
      → r.node ≡ some p
      → count p (a ∷ addresses cs) ≡ 0
      → IsNew m p v
      → Chain (set_node x (some (record n { next = r })) m) a w (cs ++ (p, v) ∷ [])
  unfolding Chain addresses count
  link-Chain m a w [] x p v n r chain linked at_x last at_r new is_new = (
    record {
      found = record n { next = r };
      at_found = ground (arith, linked);
      next_node = at_r;
      stored = grind (arith, linked, chain.at_found, chain.stored, at_x);
    },
    record {
      found = record { next = record { counter = 0; node = none }; storage = some v };
      at_found = ground (arith, linked, new, is_new);
      next_node = refl;
      stored = refl;
    },
  )
  link-Chain m a w ((b, u) ∷ cs) x p v n r (first, rest) linked at_x last at_r new is_new = (
    record {
      found = first.found;
      at_found = grind (arith, first.at_found, first.next_node, at_x, last);
      next_node = first.next_node;
      stored = first.stored;
    },
    link-Chain m b (some u) cs x p v n r rest
        (elim (Bool-cases (a == x)) [
          | inl e ↦ absurd (grind (arith, e, first.at_found, first.next_node, at_x, last))
          | inr e ↦ ground (arith, e, linked)
        ])
        at_x last at_r (ground (arith, new)) is_new,
  )

  FollowsAt-frame :
      (m m' : Memory V) (o o' : Option ℕ)
      → ((x p : ℕ) → Follows m x p → Follows m' x p)
      → FollowsAt m o o'
      → FollowsAt m' o o'
  FollowsAt-frame m m' none o' follows f = tt
  FollowsAt-frame m m' (some x) none follows f = tt
  FollowsAt-frame m m' (some x) (some p) follows f = follows x p f

  -- What a thread knows stays true while nodes are created and linked.
  pub Knows-frame :
      (m m' : Memory V) (nodes nodes' : List ℕ) (ts : List (Pusher V))
      → ((x p : ℕ) → Follows m x p → Follows m' x p)
      → ((x : ℕ) → 1 ≤ count x nodes → 1 ≤ count x nodes')
      → ((p : ℕ) → 1 ≤ count p (new_nodes ts) → m' p ≡ m p)
      → All (Knows m nodes) ts
      → All (Knows m' nodes') ts
  unfolding Knows new_nodes count
  Knows-frame m m' nodes nodes' [] follows linked new all = tt
  Knows-frame m m' nodes nodes' (starts p v ∷ ts) follows linked new (k, all) = (
    new p (ground arith) ∙ k,
    Knows-frame m m' nodes nodes' ts follows linked (λ c e. new c (ground (arith, e))) all,
  )
  Knows-frame m m' nodes nodes' (has_tail p v tail ∷ ts) follows linked new ((k, into), all) = (
    (new p (ground arith) ∙ k, PointsInto-frame nodes nodes' tail.node linked into),
    Knows-frame m m' nodes nodes' ts follows linked (λ c e. new c (ground (arith, e))) all,
  )
  Knows-frame m m' nodes nodes' (has_next p v tail next ∷ ts) follows linked new
        ((k, into, f), all) =
      (
        (
          new p (ground arith) ∙ k,
          PointsInto-frame nodes nodes' tail.node linked into,
          FollowsAt-frame m m' tail.node next.node follows f,
        ),
        Knows-frame m m' nodes nodes' ts follows linked (λ c e. new c (ground (arith, e))) all,
      )
  Knows-frame m m' nodes nodes' (has_linked p v tail ∷ ts) follows linked new ((into, f), all) = (
    (
      PointsInto-frame nodes nodes' tail.node linked into,
      FollowsAt-frame m m' tail.node (some p) follows f,
    ),
    Knows-frame m m' nodes nodes' ts follows linked new all,
  )
