-- ===== src/ThreadsafeQueue/Dcas/Pops.antt =====
-- The thread in try_pop of the queue over a DCAS (threadsafe_queue.cpp), while no thread is in push.
use boost_log.Base.{
  Option, ℕ, zero, suc, ◌≡◌, ◌≢◌, ◌≤◌, none, some, Bool-cases, Option-cases, inl, inr, List, [],
  ◌∷◌, ◌++◌, ◌==◌, ==_iff, count, All, arith, refl, sym, ap, ◌∙◌, subst,
}
use boost_log.ThreadsafeQueue.{Event, read, tail_moved, found_empty, head_moved, returned}
use boost_log.ThreadsafeQueue.Chain.{addresses}
use boost_log.ThreadsafeQueue.Dcas.{
  Node, Queue, Action, outside, pop_step, set_node, is_same, replacement, swap_tail, pop_next, step,
  run,
}
use boost_log.ThreadsafeQueue.Dcas.Chain.{Chain, IsAt, Knows, PointsInto, new_nodes}
use boost_log.ThreadsafeQueue.Dcas.Invariant.{IsPushing}
use boost_log.ThreadsafeQueue.Dcas.Front.{off-Chain, start-Chain}

module _ {V : Type 0} where
  -- Steps of the thread that pops.
  pub pops : ℕ → List (Action V)
  pops zero = []
  pops (suc k) = pop_step ∷ pops k

  abbrev after_pop : Queue V → ℕ → ℕ → Node V → Queue V
  unfolding replacement
  after_pop q h b n = record q {
    memory = set_node b (some (record n { storage = none })) (set_node h none q.memory);
    head = replacement q.head (some b);
    popper = outside;
  }

  -- The head differs from the tail.
  pop-first :
      (q : Queue V) (h b y : ℕ) (v : V) (first : IsAt q.memory h (some b) none) (n : Node V)
      → q.popper ≡ outside
      → q.head.node ≡ some h
      → q.tail.node ≡ some y
      → h ≢ y
      → b ≢ h
      → q.memory b ≡ some n
      → n.storage ≡ some v
      → run (pops 5) q ≡ some (after_pop q h b n, read ∷ read ∷ read ∷ head_moved ∷ returned v ∷ [])
  unfolding is_same replacement swap_tail pop_next step run pops
  pop-first q h b y v first n out at_head at_tail ne ne2 at_b stored =
      grind (arith, first.at_found, first.next_node)

  -- The tail lags behind, at the head.
  pop-lagging :
      (q : Queue V) (h b : ℕ) (first : IsAt q.memory h (some b) none)
      → q.popper ≡ outside
      → q.head.node ≡ some h
      → q.tail.node ≡ some h
      → run (pops 4) q
        ≡ some
            (record q { tail = replacement q.tail (some b) }, read ∷ read ∷ read ∷ tail_moved ∷ [])
  unfolding is_same replacement swap_tail pop_next step run pops
  pop-lagging q h b first out at_head at_tail = grind (arith, first.at_found, first.next_node)

  pop-empty :
      (q : Queue V) (h : ℕ) (only : IsAt q.memory h none none)
      → q.popper ≡ outside
      → q.head.node ≡ some h
      → q.tail.node ≡ some h
      → run (pops 4) q ≡ some (q, read ∷ read ∷ read ∷ found_empty ∷ [])
  unfolding is_same replacement swap_tail pop_next step run pops
  pop-empty q h only out at_head at_tail = grind (arith, only.at_found, only.next_node)

  run-append :
      (xs ys : List (Action V)) (q q1 q2 : Queue V) (es1 es2 : List (Event V))
      → run xs q ≡ some (q1, es1)
      → run ys q1 ≡ some (q2, es2)
      → run (xs ++ ys) q ≡ some (q2, es1 ++ es2)
  unfolding run
  run-append [] ys q q1 q2 es1 es2 e f = ground (arith, e, f)
  run-append (x ∷ xs) ys q q1 q2 es1 es2 e f = elim (Option-cases (step x q)) [
    | inl g ↦ absurd (ground (arith, e, g))
    | inr ((q3, e3), g) ↦ elim (Option-cases (run xs q3)) [
      | inl h ↦ absurd (ground (arith, e, g, h))
      | inr ((q4, es4), h) ↦
          let same : q4 ≡ q1 = ground (arith, e, g, h) in
          let others =
            run-append xs ys q3 q4 q2 es4 es2 h
              (subst (λ x. run ys x ≡ some (q2, es2)) (sym same) f) in
          ground (arith, e, g, h, others)
    ]
  ]

  -- The queue behind a pop.
  after_pop-IsPushing :
      (q : Queue V) (h b : ℕ) (v : V) (cs : List (ℕ × V)) (n : Node V)
      → IsPushing q h ((b, v) ∷ cs)
      → q.pushers ≡ []
      → Chain (set_node b (some (record n { storage = none })) (set_node h none q.memory)) b none cs
      → PointsInto (b ∷ addresses cs) q.tail.node
      → IsPushing (after_pop q h b n) b cs
  unfolding addresses count replacement new_nodes
  after_pop-IsPushing q h b v cs n is alone chain at_tail = record {
    at_head = refl;
    chain = chain;
    at_tail = at_tail;
    threads = subst (All (Knows (after_pop q h b n).memory (b ∷ addresses cs))) (sym alone) tt;
    once = λ a. ground (arith, is.once a);
    live = λ a e. ground (arith, is.live a, is.once h, e);
  }

  -- The answers that calls of try_pop have given: none for an empty queue.
  pub answers : List (Event V) → List (Option V)
  answers [] = []
  answers (found_empty ∷ es) = none ∷ answers es
  answers (returned v ∷ es) = some v ∷ answers es
  answers (_ ∷ es) = answers es

  -- What try_pop does to the cells: it answers that the queue is empty, or with the first value.
  pub Popped : List (ℕ × V) → ℕ → Queue V → List (Event V) → Type 0
  Popped [] h q es = (answers es ≡ none ∷ []) × IsPushing q h []
  Popped ((b, v) ∷ cs) h q es = (answers es ≡ some v ∷ []) × IsPushing q b cs

  pop-Popped :
      (q : Queue V) (h b y : ℕ) (v : V) (cs : List (ℕ × V))
      → IsPushing q h ((b, v) ∷ cs)
      → q.pushers ≡ []
      → q.popper ≡ outside
      → q.tail.node ≡ some y
      → h ≢ y
      → (q' : Queue V) × (es : List (Event V)) × (run (pops 5) q ≡ some (q', es))
        × (q'.popper ≡ outside)
        × Popped ((b, v) ∷ cs) h q' es
  unfolding Popped Chain addresses count answers after_pop
  pop-Popped q h b y v cs is alone out at_tail ne =
      let (first, rest) = is.chain in
      let other : b ≢ h = λ w. ground (arith, w, is.once h) in
      let (n, at_b, stored, chain) =
        start-Chain (set_node h none q.memory) b (some v) cs (ground (arith, is.once b))
          (off-Chain q.memory b (some v) cs h none (ground (arith, is.once h)) rest) in
      let at_b' : q.memory b ≡ some n = ground (arith, at_b, other) in
      let ran = pop-first q h b y v first n out is.at_head at_tail ne other at_b' stored in
      (
        after_pop q h b n,
        read ∷ read ∷ read ∷ head_moved ∷ returned v ∷ [],
        ran,
        refl,
        (
          refl,
          after_pop-IsPushing q h b v cs n is alone chain (
              subst (PointsInto (b ∷ addresses cs)) (sym at_tail) (
                ground (
                  arith,
                  ne,
                  subst (PointsInto (h ∷ addresses ((b, v) ∷ cs))) at_tail is.at_tail,
                ))),
        ),
      )

  -- While no thread is in push, a call of try_pop gives its one answer and has ended after at most nine steps, also
  -- where the tail lags behind, without an access to memory that is not allocated: false for an empty queue,
  -- which stays empty, and the first value of another one, whose node is then at the head.
  pub try_pop-returns :
      (q : Queue V) (h : ℕ) (cells : List (ℕ × V))
      → IsPushing q h cells
      → q.pushers ≡ []
      → q.popper ≡ outside
      → (k : ℕ) × (q' : Queue V) × (es : List (Event V)) × (k ≤ 9)
        × (run (pops k) q ≡ some (q', es))
        × (q'.popper ≡ outside)
        × Popped cells h q' es
  unfolding Popped Chain addresses count answers pops swap_tail
  try_pop-returns q h [] is alone out = elim (Option-cases q.tail.node) [
    | inl e ↦ absurd (subst (PointsInto (h ∷ [])) e is.at_tail)
    | inr (y, e) ↦
        let at_head : y ≡ h = ground (arith, subst (PointsInto (h ∷ [])) e is.at_tail) in
        (
          4,
          q,
          read ∷ read ∷ read ∷ found_empty ∷ [],
          omega arith,
          pop-empty q h is.chain out is.at_head (e ∙ ap some at_head),
          out,
          (refl, is),
        )
  ]
  try_pop-returns q h ((b, v) ∷ cs) is alone out = elim (Option-cases q.tail.node) [
    | inl e ↦ absurd (subst (PointsInto (h ∷ addresses ((b, v) ∷ cs))) e is.at_tail)
    | inr (y, e) ↦ elim (Bool-cases (h == y)) [
      | inr ne ↦
          let (q', es, ran, done, popped) =
            pop-Popped q h b y v cs is alone out e (λ w. ground (arith, ne, w)) in
          (5, q', es, omega arith, ran, done, popped)
      | inl same ↦
          let at_head : q.tail.node ≡ some h = e ∙ ap some (sym ((==_iff h y).0 same)) in
          let q1 : Queue V = record q { tail = replacement q.tail (some b) } in
          let is1 : IsPushing q1 h ((b, v) ∷ cs) = record {
            at_head = is.at_head;
            chain = is.chain;
            at_tail = ground arith;
            threads = is.threads;
            once = is.once;
            live = is.live;
          } in
          let (q', es, ran, done, popped) =
            pop-Popped q1 h b b v cs is1 alone out refl (λ w. ground (arith, is.once h, w)) in
          (
            9,
            q',
            (read ∷ read ∷ read ∷ tail_moved ∷ []) ++ es,
            omega arith,
            run-append (pops 4) (pops 5) q q1 q' (read ∷ read ∷ read ∷ tail_moved ∷ []) es
                (pop-lagging q h b is.chain.0 out is.at_head at_head) ran,
            done,
            popped,
          )
    ]
  ]
