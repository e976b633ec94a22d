-- ===== src/NamedScope/Copy.antt =====
-- The copy constructor of a list of scopes (named_scope.cpp).
use boost_log.Base.{
  ℕ, suc, ◌+◌, ◌≡◌, Bool, true, false, ◌||◌, ◌&&◌, leb, ltb, some, List, [], ◌∷◌, ◌++◌, ◌==◌,
  length, arith, refl, sym, ap, ◌∙◌, subst,
}
use mathlib.Core.List.{append_assoc, append-nil}
use boost_log.NamedScope.{Memory, set, copy_loop}
use boost_log.NamedScope.Chain.{has, entries, Distinct, Seg, has-append, has-end, frame, extend}
use boost_log.NamedScope.Stack.{Distinct-append}

-- Whether `c` is one of `n` elements of an array at `p`.
abbrev pub in_array : ℕ → ℕ → ℕ → Bool
in_array p n c = leb p c && ltb c (p + n)

module _ {E : Type 0} where
  -- The cells of the copy, in an array at `p`.
  unfoldable pub copies : ℕ → List (ℕ × E) → List (ℕ × E)
  copies p [] = []
  copies p ((a, e) ∷ cs) = (p, e) ∷ copies (p + 1) cs

  pub entries-copies : (p : ℕ) (cs : List (ℕ × E)) → entries (copies p cs) ≡ entries cs
  unfolding entries copies
  entries-copies p [] = refl
  entries-copies p ((a, e) ∷ cs) = ap (λ es. e ∷ es) (entries-copies (p + 1) cs)

  pub length-copies : (p : ℕ) (cs : List (ℕ × E)) → length (copies p cs) ≡ length cs
  unfolding copies
  length-copies p [] = refl
  length-copies p ((a, e) ∷ cs) = ap suc (length-copies (p + 1) cs)

  pub has-copies :
      (c p : ℕ) (cs : List (ℕ × E)) → has c (copies p cs) ≡ true → in_array p (length cs) c ≡ true
  unfolding copies
  has-copies c p [] i = ground (arith, i)
  has-copies c p ((a, e) ∷ cs) i = ground (arith, i, has-copies c (p + 1) cs)

  -- The nodes that the loop may write.
  abbrev pub touched : ℕ → List (ℕ × E) → ℕ → ℕ → ℕ → Bool
  touched r bs p n c = (r == c || has c bs) || in_array p n c

  pub record Loop (m : Memory E) (r s x : ℕ) (bs cs : List (ℕ × E)) (p prev q : ℕ) : Type 0 where
    pub source : Seg m x cs q
    pub back : m.next q ≡ s
    pub stop : has s cs ≡ false
    pub step_apart : has x cs ≡ false
    pub distinct_source : Distinct cs
    pub built : Seg m r bs prev
    pub apart : has r bs ≡ false
    pub distinct : Distinct bs
    pub separate : (c : ℕ) → (x == c || has c cs) ≡ true → touched r bs p (length cs) c ≡ false
    pub fresh : (c : ℕ) → in_array p (length cs) c ≡ true → (r == c || has c bs) ≡ false

  -- One round of the loop.
  abbrev round : Memory E → ℕ → ℕ → ℕ → Memory E
  round m src p prev = record m {
    entry = set p (m.entry src) m.entry;
    prev = set p prev m.prev;
    next = set prev p (set p (m.next src) m.next);
  }

  round-Loop :
      (m : Memory E) (r s x a : ℕ) (e : E) (bs cs : List (ℕ × E)) (p prev q : ℕ)
      → Loop m r s x bs ((a, e) ∷ cs) p prev q
      → (m.next x ≡ a)
        × (m.entry a ≡ some e)
        × ((round m a p prev).next a ≡ m.next a)
        × Loop (round m a p prev) r s a (bs ++ (p, e) ∷ []) cs (p + 1) p q
  unfolding Seg
  round-Loop m r s x a e bs cs p prev q l =
      let (n, b, h, source) = l.source in
      let m1 = round m a p prev in
      let prev_in = has-end m r bs prev l.built in
      let q_in = has-end m a cs q source in
      let p_fresh : (r == p || has p bs) ≡ false = l.fresh p (ground arith) in
      let away : (c : ℕ)
          → (a == c || has c cs) ≡ true
          → touched r bs p (suc (length cs)) c ≡ false =
        λ c i. l.separate c (ground (arith, i)) in
      (
        n,
        h,
        ground (arith, away a (ground arith), prev_in),
        record {
          source =
              frame m m1 a cs q source l.distinct_source.0 l.distinct_source.1
                (λ c i _. ground (arith, away c i, prev_in)) (λ c i. ground (arith, i, away c))
                (λ c i. ground (arith, i, away c));
          back = ground (arith, l.back, away q q_in, prev_in);
          stop = ground (arith, l.stop);
          step_apart = l.distinct_source.0;
          distinct_source = l.distinct_source.1;
          built =
              extend m1 r bs prev p e
                (frame m m1 r bs prev l.built l.apart l.distinct
                  (λ c i other. ground (arith, i, other, p_fresh))
                  (λ c i. ground (arith, i, p_fresh)) (λ c i. ground (arith, i, p_fresh)))
                (ground arith) (ground arith) (ground (arith, h));
          apart = has-append r bs ((p, e) ∷ []) ∙ ground (arith, l.apart, p_fresh);
          distinct = Distinct-append bs p e l.distinct (ground (arith, p_fresh));
          separate = λ c i. ground (arith, away c i, has-append c bs ((p, e) ∷ []));
          fresh = λ c i. ground (arith, i, l.fresh c, has-append c bs ((p, e) ∷ []));
        },
      )

  -- The nodes of the copy are linked up to `prev`, and nothing else was written.
  pub record Finished (m m' : Memory E) (touch : ℕ → Bool) (r : ℕ) (bs : List (ℕ × E)) (prev : ℕ)
      : Type 0 where
    pub built : Seg m' r bs prev
    pub apart : has r bs ≡ false
    pub distinct : Distinct bs
    pub nexts : (c : ℕ) → touch c ≡ false → m'.next c ≡ m.next c
    pub prevs : (c : ℕ) → touch c ≡ false → m'.prev c ≡ m.prev c
    pub kept : (c : ℕ) → touch c ≡ false → m'.entry c ≡ m.entry c
    pub sizes : m'.size ≡ m.size
    pub flags : m'.need_to_deallocate ≡ m.need_to_deallocate

  copy_loop-round :
      (m : Memory E) (src a s : ℕ) (e : E) (n p prev : ℕ)
      → src ≡ a
      → m.entry a ≡ some e
      → (a == s) ≡ false
      → copy_loop (suc n) src s p prev m
        ≡ copy_loop n ((round m a p prev).next a) s (p + 1) p (round m a p prev)
  unfolding copy_loop
  copy_loop-round m src a s e n p prev at at_a ne = ground (arith, at, at_a, ne)

  pub copy_loop-Finished :
      (m : Memory E) (r s x : ℕ) (bs cs : List (ℕ × E)) (p prev q : ℕ)
      → Loop m r s x bs cs p prev q
      → (last : ℕ) × (m' : Memory E) × (copy_loop (length cs) (m.next x) s p prev m
          ≡ some (last, m'))
        × Finished m m' (touched r bs p (length cs)) r (bs ++ copies p cs) last
  unfolding copy_loop copies Seg
  copy_loop-Finished m r s x bs [] p prev q l = (
    prev,
    m,
    ground (arith, l.source, l.back),
    record {
      built = subst (λ ds. Seg m r ds prev) (sym (append-nil bs)) l.built;
      apart = ap (has r) (append-nil bs) ∙ l.apart;
      distinct = subst Distinct (sym (append-nil bs)) l.distinct;
      nexts = λ c _. refl;
      prevs = λ c _. refl;
      kept = λ c _. refl;
      sizes = refl;
      flags = refl;
    },
  )
  copy_loop-Finished m r s x bs ((a, e) ∷ cs) p prev q l =
      let (n, h, _, l1) = round-Loop m r s x a e bs cs p prev q l in
      let m1 = round m a p prev in
      let (last, m', run, f) = copy_loop-Finished m1 r s a (bs ++ (p, e) ∷ []) cs (p + 1) p q l1 in
      let assoc = append_assoc bs ((p, e) ∷ []) (copies (p + 1) cs) in
      let prev_in = has-end m r bs prev l.built in
      let out : (c : ℕ)
          → touched r bs p (suc (length cs)) c ≡ false
          → touched r (bs ++ (p, e) ∷ []) (p + 1) (length cs) c ≡ false =
        λ c o. ground (arith, o, has-append c bs ((p, e) ∷ [])) in
      (
        last,
        m',
        copy_loop-round m (m.next x) a s e (length cs) p prev n h (ground (arith, l.stop)) ∙ run,
        record {
          built = subst (λ ds. Seg m' r ds last) assoc f.built;
          apart = ap (has r) (sym assoc) ∙ f.apart;
          distinct = subst Distinct assoc f.distinct;
          nexts = λ c o. f.nexts c (out c o) ∙ ground (arith, o, prev_in);
          prevs = λ c o. f.prevs c (out c o) ∙ ground (arith, o);
          kept = λ c o. f.kept c (out c o) ∙ ground (arith, o);
          sizes = f.sizes;
          flags = f.flags;
        },
      )
