-- ===== src/NamedScope/Copied.antt =====
-- The copies of lists of scopes (named_scope.cpp), in the memory as it is after the copy constructor.
use boost_log.Base.{
  ℕ, ◌≡◌, ◌≢◌, ◌<◌, ◌^◌, true, false, not, ◌||◌, some, List, [], ◌∷◌, ◌==◌, length, arith, refl,
  sym, ap, ◌∙◌, subst,
}
use boost_log.NamedScope.{Memory, set, construct, copy_loop, copy, scopes}
use boost_log.NamedScope.Chain.{has, entries, Seg, has-end, frame, IsList}
use boost_log.NamedScope.Stack.{Same, scopes-entries}
use boost_log.NamedScope.Copy.{
  copies, entries-copies, length-copies, has-copies, in_array, touched, Loop, Finished,
  copy_loop-Finished,
}

module _ {E : Type 0} where
  -- The list at `r` was written, with the nodes in an array of `n` elements at `p`, and nothing else.
  pub record Elsewhere (m m' : Memory E) (r p n : ℕ) : Type 0 where
    pub nexts : (c : ℕ) → (r == c || in_array p n c) ≡ false → m'.next c ≡ m.next c
    pub prevs : (c : ℕ) → (r == c || in_array p n c) ≡ false → m'.prev c ≡ m.prev c
    pub kept : (c : ℕ) → (r == c || in_array p n c) ≡ false → m'.entry c ≡ m.entry c
    pub sizes : (c : ℕ) → (r == c) ≡ false → m'.size c ≡ m.size c
    pub flags : (c : ℕ) → (r == c) ≡ false → m'.need_to_deallocate c ≡ m.need_to_deallocate c

  pub Elsewhere-Same :
      (m m' : Memory E) (r p n s : ℕ) (ds : List (ℕ × E))
      → Elsewhere m m' r p n
      → ((c : ℕ) → (s == c || has c ds) ≡ true → (r == c || in_array p n c) ≡ false)
      → Same m m' s ds
  Elsewhere-Same m m' r p n s ds elsewhere out = record {
    nexts = λ c i. elsewhere.nexts c (out c i);
    prevs = λ c i. elsewhere.prevs c (out c i);
    kept = λ c i. elsewhere.kept c (out c (ground (arith, i)));
    size = elsewhere.sizes s (ground (arith, out s));
  }

  pub scopes-copies :
      (m : Memory E) (r p : ℕ) (cs : List (ℕ × E))
      → IsList m r (copies p cs)
      → scopes r m ≡ some (entries cs)
  scopes-copies m r p cs is = scopes-entries m r (copies p cs) is ∙ ap some (entries-copies p cs)

  -- The memory before the loop and after the links of the root node.
  abbrev prepared : ℕ → ℕ → Memory E → Memory E
  unfolding construct
  prepared r s m = record (construct r m) {
    size = set r (m.size s) m.size;
    need_to_deallocate = set r (not (m.size s == 0)) m.need_to_deallocate;
  }

  abbrev closed : ℕ → ℕ → Memory E → Memory E
  closed r last m = record m { prev = set r last m.prev; next = set last r m.next }

  prepared-Loop :
      (m : Memory E) (s r p : ℕ) (cs : List (ℕ × E))
      → IsList m s cs
      → r ≢ s
      → has r cs ≡ false
      → ((c : ℕ) → in_array p (length cs) c ≡ true → (r == c || (s == c || has c cs)) ≡ false)
      → Loop (prepared r s m) r s s [] cs p r (m.prev s)
  unfolding construct Seg
  prepared-Loop m s r p cs is ne out fresh =
      let q_in = has-end m s cs (m.prev s) is.seg in
      record {
        source =
            frame m (prepared r s m) s cs (m.prev s) is.seg is.apart is.distinct
              (λ c i _. ground (arith, i, ne, out)) (λ c i. ground (arith, i, out)) (λ c i. refl);
        back = ground (arith, is.back, q_in, ne, out);
        stop = is.apart;
        step_apart = is.apart;
        distinct_source = is.distinct;
        built = refl;
        apart = refl;
        distinct = tt;
        separate = λ c i. ground (arith, i, ne, out, fresh c);
        fresh = λ c i. ground (arith, fresh c i);
      }

  closed-IsList :
      (m1 m2 : Memory E) (r p n : ℕ) (ds : List (ℕ × E)) (last : ℕ)
      → Finished m1 m2 (touched {E = E} r [] p n) r ds last
      → m1.size r ≡ length ds
      → length ds < 2 ^ 64
      → IsList (closed r last m2) r ds
  closed-IsList m1 m2 r p n ds last f sized bounded =
      let m3 = closed r last m2 in
      let root : m3.prev r ≡ last = ground arith in
      record {
        seg = subst (Seg m3 r ds) (sym root) (
            frame m2 m3 r ds last f.built f.apart f.distinct (λ c i other. ground (arith, other))
              (λ c i. ground (arith, i, f.apart)) (λ c i. refl));
        back = ap m3.next root ∙ ground arith;
        apart = f.apart;
        distinct = f.distinct;
        sized = ap (λ g. g r) f.sizes ∙ sized;
        bounded = bounded;
      }

  copy-run :
      (m m2 : Memory E) (s r p last : ℕ)
      → (m.size s == 0) ≡ false
      → (s == r) ≡ false
      → copy_loop (m.size s) (m.next s) s p r (prepared r s m) ≡ some (last, m2)
      → copy p r s m ≡ some (closed r last m2)
  unfolding copy construct
  copy-run m m2 s r p last full ne run = ground (arith, full, ne, run)

  -- A copy of a list is a list with the same entries in the array.
  pub copy-IsList :
      (m : Memory E) (s r p : ℕ) (cs : List (ℕ × E))
      → IsList m s cs
      → r ≢ s
      → has r cs ≡ false
      → ((c : ℕ) → in_array p (length cs) c ≡ true → (r == c || (s == c || has c cs)) ≡ false)
      → (m' : Memory E) × (copy p r s m ≡ some m')
        × IsList m' r (copies p cs)
        × (m'.need_to_deallocate r ≡ not (length cs == 0))
        × Elsewhere m m' r p (length cs)
  unfolding copy construct copies Seg
  copy-IsList m s r p [] is ne out fresh = (
    prepared r s m,
    ground (arith, is.sized),
    record {
      seg = ground arith;
      back = ground arith;
      apart = refl;
      distinct = tt;
      sized = ground (arith, is.sized);
      bounded = is.bounded;
    },
    ground (arith, is.sized),
    record {
      nexts = λ c i. ground (arith, i);
      prevs = λ c i. ground (arith, i);
      kept = λ c i. refl;
      sizes = λ c i. ground (arith, i);
      flags = λ c i. ground (arith, i);
    },
  )
  copy-IsList m s r p ((a, e) ∷ cs) is ne out fresh =
      let cells = (a, e) ∷ cs in
      let m1 = prepared r s m in
      let l = prepared-Loop m s r p cells is ne out fresh in
      let (last, m2, run, f) = copy_loop-Finished m1 r s s [] cells p r (m.prev s) l in
      let ds = copies p cells in
      let last_in = has-end m2 r ds last f.built in
      let len = length-copies p cells in
      let run' : copy_loop (m.size s) (m.next s) s p r m1 ≡ some (last, m2) =
        ground (arith, run, is.sized, ne) in
      (
        closed r last m2,
        copy-run m m2 s r p last (ground (arith, is.sized)) (ground (arith, ne)) run',
        closed-IsList m1 m2 r p (length cells) ds last f (ground (arith, is.sized, len))
            (omega (arith, is.bounded, len)),
        ap (λ g. g r) f.flags ∙ ground (arith, is.sized),
        record {
          nexts = λ c i. ground (arith, i, f.nexts c, last_in, has-copies last p cells);
          prevs = λ c i. ground (arith, i, f.prevs c);
          kept = λ c i. ground (arith, i, f.kept c);
          sizes = λ c i. ap (λ g. g c) f.sizes ∙ ground (arith, i);
          flags = λ c i. ap (λ g. g c) f.flags ∙ ground (arith, i);
        },
      )
