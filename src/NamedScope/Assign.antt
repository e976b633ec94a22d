-- ===== src/NamedScope/Assign.antt =====
-- operator= of the lists of scopes (attributes/named_scope.hpp): a copy, a swap and a destructor.
use boost_log.Base.{ℕ, ◌≡◌, true, false, ◌||◌, some, List, ◌==◌, length, arith}
use boost_log.NamedScope.{Memory, scopes, swap, assign}
use boost_log.NamedScope.Chain.{has, entries, IsList}
use boost_log.NamedScope.Stack.{Same-IsList, scopes-entries}
use boost_log.NamedScope.Copy.{copies, has-copies, in_array}
use boost_log.NamedScope.Copied.{Elsewhere-Same, copy-IsList, scopes-copies}
use boost_log.NamedScope.Swap.{Separate, swap-exchanges}
use boost_log.NamedScope.Destroy.{destroy-clears, swap-Same}

module _ {E : Type 0} where
  -- The temporary list is at `t` and its array at `p`; neither holds a node of the lists at `r` and `s`.
  pub record IsRoom (r : ℕ) (cs : List (ℕ × E)) (s : ℕ) (ds : List (ℕ × E)) (t p : ℕ) : Type 0 where
    pub this : (r == t || has t cs) ≡ false
    pub that : (s == t || has t ds) ≡ false
    pub array :
        (c : ℕ)
        → in_array p (length ds) c ≡ true
        → (t == c || ((r == c || has c cs) || (s == c || has c ds))) ≡ false

  -- For two lists that share no node, and room for the copy, an assignment ends with both lists holding the
  -- scopes of the right one, in the same order: the left list in the new array, the right one where they were.
  pub assign-copies :
      (m : Memory E) (r : ℕ) (cs : List (ℕ × E)) (s : ℕ) (ds : List (ℕ × E)) (t p : ℕ)
      → IsList m r cs
      → IsList m s ds
      → Separate r cs s ds
      → IsRoom r cs s ds t p
      → (m' : Memory E) × (assign p t r s m ≡ some m')
        × IsList m' r (copies p ds)
        × IsList m' s ds
        × (scopes r m' ≡ some (entries ds))
        × (scopes s m' ≡ some (entries ds))
  unfolding assign
  assign-copies m r cs s ds t p ir is (ne, r_out, s_out, apart) free =
      let bs = copies p ds in
      let (m1, run1, it1, _, elsewhere) =
        copy-IsList m s t p ds is (ground (arith, free.that)) (ground (arith, free.that))
          (λ c i. ground (arith, free.array c i)) in
      let ir1 = Same-IsList m m1 r cs ir (
        Elsewhere-Same m m1 t p (length ds) r cs elsewhere
          (λ c i. ground (arith, i, free.this, free.array c))) in
      let is1 = Same-IsList m m1 s ds is (
        Elsewhere-Same m m1 t p (length ds) s ds elsewhere
          (λ c i. ground (arith, i, free.that, free.array c))) in
      let separate : Separate r cs t bs = (
        ground (arith, free.this),
        ground (arith, has-copies r p ds, free.array r),
        ground (arith, free.this),
        λ c i. ground (arith, i, has-copies c p ds, free.array c),
      ) in
      let (ir2, it2) = swap-exchanges m1 r t cs bs ir1 it1 separate in
      let m2 = swap r t m1 in
      let is2 = Same-IsList m1 m2 s ds is1 (
        swap-Same m1 r t cs bs s ds ir1 it1 separate (λ c i. (
          ground (arith, i, ne, r_out, s_out, apart c),
          ground (arith, i, free.that, free.array c, has-copies c p ds),
        ))) in
      let (m3, run3, same, _) = destroy-clears m2 t cs it2 in
      let ir3 =
        Same-IsList m2 m3 r bs ir2
          (same r bs (λ c i. ground (arith, i, has-copies c p ds, free.array c))) in
      let is3 = Same-IsList m2 m3 s ds is2 (same s ds (λ c i. ground (arith, i, apart c))) in
      (
        m3,
        ground (arith, ne, run1, run3),
        ir3,
        is3,
        scopes-copies m3 r p ds ir3,
        scopes-entries m3 s ds is3,
      )
