-- ===== src/NamedScope/Stack.antt =====
-- push_back, pop_back and iteration (named_scope.cpp, attributes/named_scope.hpp) on a list of scopes.
use boost_log.Base.{
  ℕ, suc, ◌≡◌, ◌≢◌, ◌<◌, ◌^◌, true, false, ◌||◌, some, List, [], ◌∷◌, ◌++◌, ◌==◌, length,
  length-append, arith, refl, sym, ap, ◌∙◌, subst,
}
use boost_log.NamedScope.{Memory, construct, push_back, pop_back, iterate, scopes}
use boost_log.NamedScope.Chain.{
  has, entries, Distinct, Seg, has-append, has-end, frame, extend, IsList,
}

module _ {E : Type 0} where
  -- The memory `m'` has the list at `r` as `m` has it.
  pub record Same (m m' : Memory E) (r : ℕ) (cs : List (ℕ × E)) : Type 0 where
    pub nexts : (c : ℕ) → (r == c || has c cs) ≡ true → m'.next c ≡ m.next c
    pub prevs : (c : ℕ) → (r == c || has c cs) ≡ true → m'.prev c ≡ m.prev c
    pub kept : (c : ℕ) → has c cs ≡ true → m'.entry c ≡ m.entry c
    pub size : m'.size r ≡ m.size r

  pub Same-refl : (m : Memory E) (s : ℕ) (ds : List (ℕ × E)) → Same m m s ds
  Same-refl m s ds = record {
    nexts = λ c i. refl;
    prevs = λ c i. refl;
    kept = λ c i. refl;
    size = refl;
  }

  pub Same-IsList :
      (m m' : Memory E) (r : ℕ) (cs : List (ℕ × E))
      → IsList m r cs
      → Same m m' r cs
      → IsList m' r cs
  Same-IsList m m' r cs is same =
      let root : m'.prev r ≡ m.prev r = same.prevs r (ground arith) in
      record {
        seg = subst (Seg m' r cs) (sym root) (
            frame m m' r cs (m.prev r) is.seg is.apart is.distinct (λ c i _. same.nexts c i)
              (λ c i. same.prevs c (ground (arith, i))) same.kept);
        back = ap m'.next root ∙ same.nexts (m.prev r) (has-end m r cs (m.prev r) is.seg) ∙ is.back;
        apart = is.apart;
        distinct = is.distinct;
        sized = same.size ∙ is.sized;
        bounded = is.bounded;
      }

  pub Distinct-append :
      (cs : List (ℕ × E)) (a : ℕ) (e : E)
      → Distinct cs
      → has a cs ≡ false
      → Distinct (cs ++ (a, e) ∷ [])
  Distinct-append [] a e distinct new = (refl, tt)
  Distinct-append ((b, f) ∷ cs) a e distinct new = (
    ground (arith, has-append b cs ((a, e) ∷ []), distinct.0, new),
    Distinct-append cs a e distinct.1 (ground (arith, new)),
  )

  pub construct-IsList : (r : ℕ) (m : Memory E) → IsList (construct r m) r []
  unfolding construct Seg
  construct-IsList r m = record {
    seg = ground arith;
    back = ground arith;
    apart = refl;
    distinct = tt;
    sized = ground arith;
    bounded = omega arith;
  }

  pub push_back-IsList :
      (m : Memory E) (r a : ℕ) (e : E) (cs : List (ℕ × E))
      → IsList m r cs
      → a ≢ r
      → has a cs ≡ false
      → m.entry a ≡ some e
      → suc (length cs) < 2 ^ 64
      → IsList (push_back r a m) r (cs ++ (a, e) ∷ [])
  unfolding push_back
  push_back-IsList m r a e cs is ne new at_a room =
      let m' = push_back r a m in
      let q = m.prev r in
      let root : m'.prev r ≡ a = ground arith in
      let q_in = has-end m r cs q is.seg in
      record {
        seg = subst (Seg m' r (cs ++ (a, e) ∷ [])) (sym root) (
            extend m' r cs q a e
              (frame m m' r cs q is.seg is.apart is.distinct
                (λ c i other. ground (arith, i, other, ne, new))
                (λ c i. ground (arith, i, new, is.apart)) (λ c i. refl))
              (ground arith) (ground (arith, ne)) at_a);
        back = ap m'.next root ∙ ground (arith, q_in, ne, new);
        apart = has-append r cs ((a, e) ∷ []) ∙ ground (arith, is.apart, ne);
        distinct = Distinct-append cs a e is.distinct new;
        sized = ground (arith, is.sized, length-append cs ((a, e) ∷ []), room);
        bounded = omega (arith, length-append cs ((a, e) ∷ []), room);
      }

  pub shorten :
      (m : Memory E) (p : ℕ) (cs : List (ℕ × E)) (a : ℕ) (e : E) (q : ℕ)
      → Seg m p (cs ++ (a, e) ∷ []) q
      → (a ≡ q) × Seg m p cs (m.prev a) × (m.next (m.prev a) ≡ a)
  unfolding Seg
  shorten m p [] a e q (n, b, h, s) = (s, sym b, ap m.next b ∙ n)
  shorten m p ((c, f) ∷ cs) a e q (n, b, h, s) =
      let (last, shorter, n') = shorten m c cs a e q s in (last, (n, b, h, shorter), n')

  pub Distinct-init :
      (cs : List (ℕ × E)) (a : ℕ) (e : E)
      → Distinct (cs ++ (a, e) ∷ [])
      → Distinct cs × (has a cs ≡ false)
  Distinct-init [] a e distinct = (tt, refl)
  Distinct-init ((b, f) ∷ cs) a e (new, distinct) =
      let (rest, out) = Distinct-init cs a e distinct in
      let apart = has-append b cs ((a, e) ∷ []) in
      ((ground (arith, apart, new), rest), ground (arith, apart, new, out))

  pub pop_back-IsList :
      (m : Memory E) (r a : ℕ) (e : E) (cs : List (ℕ × E))
      → IsList m r (cs ++ (a, e) ∷ [])
      → IsList (pop_back r m) r cs
  unfolding pop_back
  pop_back-IsList m r a e cs is =
      let m' = pop_back r m in
      let (a_top, shorter, to_a) = shorten m r cs a e (m.prev r) is.seg in
      let (distinct, new) = Distinct-init cs a e is.distinct in
      let out = has-append r cs ((a, e) ∷ []) in
      let apart : has r cs ≡ false = ground (arith, out, is.apart) in
      let r_ne : r ≢ a = ground (arith, out, is.apart) in
      let q_in = has-end m r cs (m.prev a) shorter in
      let q_ne : m.prev a ≢ a = λ f. ground (arith, f, q_in, new, r_ne) in
      let behind : m.next a ≡ r = ap m.next a_top ∙ is.back in
      let root : m'.prev r ≡ m.prev a = ground (arith, a_top, behind, q_ne) in
      record {
        seg = subst (Seg m' r cs) (sym root) (
            frame m m' r cs (m.prev a) shorter apart distinct
              (λ c i other. ground (arith, other, a_top))
              (λ c i. ground (arith, i, a_top, behind, q_ne, apart)) (λ c i. refl));
        back = ap m'.next root ∙ ground (arith, a_top, behind);
        apart = apart;
        distinct = distinct;
        sized = ground (arith, is.sized, is.bounded, length-append cs ((a, e) ∷ []));
        bounded = omega (arith, is.bounded, length-append cs ((a, e) ∷ []));
      }

  iterate-entries :
      (m : Memory E) (p r : ℕ) (cs : List (ℕ × E)) (q : ℕ)
      → Seg m p cs q
      → m.next q ≡ r
      → has r cs ≡ false
      → iterate (length cs) (m.next p) r m ≡ some (entries cs)
  unfolding iterate entries Seg
  iterate-entries m p r [] q s n out = ground (arith, s, n)
  iterate-entries m p r ((a, e) ∷ cs) q (n, b, h, s) back out =
      ground (arith, n, h, out, iterate-entries m a r cs q s back (ground (arith, out)))

  -- Iteration over a list gives the scopes in it.
  pub scopes-entries :
      (m : Memory E) (r : ℕ) (cs : List (ℕ × E)) → IsList m r cs → scopes r m ≡ some (entries cs)
  unfolding scopes
  scopes-entries m r cs is =
      ap (λ k. iterate k (m.next r) r m) is.sized
      ∙ iterate-entries m r r cs (m.prev r) is.seg is.back is.apart
