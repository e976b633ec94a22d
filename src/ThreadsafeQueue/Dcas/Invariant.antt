-- ===== src/ThreadsafeQueue/Dcas/Invariant.antt =====
-- What holds of the queue over a DCAS (threadsafe_queue.cpp) while threads push and none pops.
use boost_log.Base.{
  ℕ, ◌+◌, ◌≡◌, ◌≤◌, true, Option, none, some, Bool-cases, Option-cases, inl, inr, List, [], ◌∷◌,
  ◌++◌, count, All, arith, refl, sym, subst,
}
use mathlib.Core.List.{append-nil}
use boost_log.ThreadsafeQueue.{Event}
use boost_log.ThreadsafeQueue.Chain.{addresses, values}
use boost_log.ThreadsafeQueue.Fifo.{linked_by}
use boost_log.ThreadsafeQueue.Dcas.{
  PointerRep, Node, Memory, Pusher, starts, has_tail, has_next, has_linked, Queue, construct,
  is_same, replacement, swap_tail,
}
use boost_log.ThreadsafeQueue.Dcas.Chain.{
  Chain, PointsInto, FollowsAt, Knows, new_nodes, Follows-linked,
}

pub is_same-node : (a b : PointerRep) → is_same a b ≡ true → a.node ≡ b.node
unfolding is_same
is_same-node a b e = ground (arith, e)

module _ {V : Type 0} where
  -- `cells` are the nodes behind the head, whose address is `h`.
  pub record IsPushing (q : Queue V) (h : ℕ) (cells : List (ℕ × V)) : Type 0 where
    pub at_head : q.head.node ≡ some h
    pub chain : Chain q.memory h none cells
    pub at_tail : PointsInto (h ∷ addresses cells) q.tail.node
    pub threads : All (Knows q.memory (h ∷ addresses cells)) q.pushers
    pub once : (a : ℕ) → count a (h ∷ addresses cells) + count a (new_nodes q.pushers) ≤ 1
    pub live :
        (a : ℕ)
        → q.memory a ≡ none
        → count a (h ∷ addresses cells) + count a (new_nodes q.pushers) ≡ 0

  unfoldable pub Pushes : ℕ → List (ℕ × V) → Option (Queue V × Event V) → Type 0
  Pushes h cells none = ⊥
  Pushes h cells (some (q', e)) =
      (cells' : List (ℕ × V)) × IsPushing q' h cells'
      × (values cells' ≡ values cells ++ linked_by e)

  pub new_nodes-cons :
      (a : ℕ) (t : Pusher V) (ts : List (Pusher V))
      → count a (new_nodes (t ∷ ts)) ≡ count a (new_nodes (t ∷ [])) + count a (new_nodes ts)
  unfolding new_nodes count
  new_nodes-cons a (starts p v) ts = ground arith
  new_nodes-cons a (has_tail p v tail) ts = ground arith
  new_nodes-cons a (has_next p v tail next) ts = ground arith
  new_nodes-cons a (has_linked p v tail) ts = ground arith

  pub same_values : (cells : List (ℕ × V)) → values cells ≡ values cells ++ []
  same_values cells = sym (append-nil (values cells))

  pub swap_tail-PointsInto :
      (nodes : List ℕ) (old : PointerRep) (o : Option ℕ) (q : Queue V)
      → PointsInto nodes q.tail.node
      → PointsInto nodes o
      → PointsInto nodes (swap_tail old o q).tail.node
  unfolding swap_tail replacement
  swap_tail-PointsInto nodes old o q at_tail into = elim (Bool-cases (is_same q.tail old)) [
    | inl e ↦ rw e into
    | inr e ↦ rw e at_tail
  ]

  pub FollowsAt-linked :
      (m : Memory V) (h : ℕ) (cells : List (ℕ × V)) (o : Option ℕ) (p : ℕ)
      → Chain m h none cells
      → PointsInto (h ∷ addresses cells) o
      → FollowsAt m o (some p)
      → 1 ≤ count p (h ∷ addresses cells)
  FollowsAt-linked m h cells none p chain into f = absurd into
  FollowsAt-linked m h cells (some x) p chain into f =
      Follows-linked m h none cells x p chain into f

  pub loaded-FollowsAt :
      (m : Memory V) (x : ℕ) (n : Node V) (o : Option ℕ)
      → m x ≡ some n
      → n.next.node ≡ o
      → FollowsAt m (some x) o
  loaded-FollowsAt m x n none at_x e = tt
  loaded-FollowsAt m x n (some p) at_x e = (n, at_x, e)

  -- The node to which a loaded tail points.
  pub tail_node :
      (q : Queue V) (h : ℕ) (cells : List (ℕ × V)) (tail : PointerRep)
      → IsPushing q h cells
      → PointsInto (h ∷ addresses cells) tail.node
      → (x : ℕ) × (n : Node V) × (tail.node ≡ some x)
        × (q.memory x ≡ some n)
        × (1 ≤ count x (h ∷ addresses cells))
  tail_node q h cells tail is into = elim (Option-cases tail.node) [
    | inl e ↦ absurd (subst (PointsInto (h ∷ addresses cells)) e into)
    | inr (x, e) ↦
        let known : 1 ≤ count x (h ∷ addresses cells) =
          subst (PointsInto (h ∷ addresses cells)) e into in
        elim (Option-cases (q.memory x)) [
          | inl f ↦ absurd (omega (arith, is.live x f, known))
          | inr (n, f) ↦ (x, n, e, f, known)
        ]
  ]

  pub construct-IsPushing : (a : ℕ) → IsPushing (construct a) a []
  unfolding construct Chain addresses new_nodes count
  construct-IsPushing a = record {
    at_head = refl;
    chain = record {
      found = record { next = record { counter = 0; node = none }; storage = none };
      at_found = ground arith;
      next_node = refl;
      stored = refl;
    };
    at_tail = ground arith;
    threads = tt;
    once = λ c. ground arith;
    live = λ c e. ground (arith, e);
  }
