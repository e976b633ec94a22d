-- ===== src/NamedScope/Swap.antt =====
-- swap() of two lists of scopes (named_scope.cpp), where each may be empty.
use boost_log.Base.{
  ◌||◌, ℕ, ◌≡◌, ◌≢◌, true, false, List, [], ◌∷◌, ◌==◌, arith, refl, sym, ap, ◌∙◌, subst,
}
use boost_log.NamedScope.{Memory, swap_fields, move_nodes, exchange_nodes, swap}
use boost_log.NamedScope.Chain.{has, Disjoint, Seg, has-end, replace_root, IsList}

module _ {E : Type 0} where
  -- Two lists share no node.
  abbrev pub Separate : ℕ → List (ℕ × E) → ℕ → List (ℕ × E) → Type 0
  Separate r cs s ds = (r ≢ s) × (has r ds ≡ false) × (has s cs ≡ false) × Disjoint cs ds

  rooted :
      (m m' : Memory E) (r s a : ℕ) (e : E) (cs : List (ℕ × E))
      → IsList m r ((a, e) ∷ cs)
      → has s ((a, e) ∷ cs) ≡ false
      → m'.next s ≡ a
      → m'.prev a ≡ s
      → m'.prev s ≡ m.prev r
      → m'.next (m.prev r) ≡ s
      → ((c : ℕ) → has c ((a, e) ∷ cs) ≡ true → (c == m.prev r) ≡ false → m'.next c ≡ m.next c)
      → ((c : ℕ) → has c cs ≡ true → m'.prev c ≡ m.prev c)
      → m'.entry ≡ m.entry
      → m'.size s ≡ m.size r
      → IsList m' s ((a, e) ∷ cs)
  rooted m m' r s a e cs is out first to_first last to_last nexts prevs kept size = record {
    seg = subst (Seg m' s ((a, e) ∷ cs)) (sym last) (
        replace_root m m' r s a e cs (m.prev r) is.seg is.distinct first to_first nexts prevs
          (λ c _. ap (λ g. g c) kept));
    back = ap m'.next last ∙ to_last;
    apart = out;
    distinct = is.distinct;
    sized = size ∙ is.sized;
    bounded = is.bounded;
  }

  -- Where the links of two lists lead.
  pub ends :
      (m : Memory E) (r a : ℕ) (e : E) (cs : List (ℕ × E))
      → IsList m r ((a, e) ∷ cs)
      → (m.next r ≡ a) × (m.prev a ≡ r) × (has (m.prev r) ((a, e) ∷ cs) ≡ true)
  unfolding Seg
  ends m r a e cs is = let (n, b, h, s) = is.seg in (n, b, has-end m a cs (m.prev r) s)

  abbrev exchanged : ℕ → ℕ → Memory E → Memory E
  unfolding exchange_nodes
  exchanged r s m = swap_fields r s (exchange_nodes r s m)

  -- The links forward of the other nodes.
  pub exchange_nodes-next :
      (m : Memory E) (r t c : ℕ)
      → (m.next r == r || m.next t == r) ≡ false
      → (m.next r == t || m.next t == t) ≡ false
      → (r == c || t == c) ≡ false
      → (m.prev r == c || m.prev t == c) ≡ false
      → (exchange_nodes r t m).next c ≡ m.next c
  unfolding exchange_nodes
  exchange_nodes-next m r t c r_out t_out roots lasts = ground arith

  -- The links between the nodes of one list and the root node of the other one.
  exchanged_links :
      (m : Memory E) (r s a b : ℕ)
      → m.next r ≡ a
      → m.prev a ≡ r
      → m.next s ≡ b
      → m.prev b ≡ s
      → m.next (m.prev r) ≡ r
      → m.next (m.prev s) ≡ s
      → r ≢ s
      → a ≢ b
      → m.prev r ≢ m.prev s
      → ((r == a || s == a) ≡ false) × ((r == b || s == b) ≡ false)
      → ((r == m.prev r || s == m.prev r) ≡ false) × ((r == m.prev s || s == m.prev s) ≡ false)
      → (((exchanged r s m).next s ≡ a)
          × ((exchanged r s m).prev a ≡ s)
          × ((exchanged r s m).prev s ≡ m.prev r)
          × ((exchanged r s m).next (m.prev r) ≡ s))
        × ((exchanged r s m).next r ≡ b)
        × ((exchanged r s m).prev b ≡ r)
        × ((exchanged r s m).prev r ≡ m.prev s)
        × ((exchanged r s m).next (m.prev s) ≡ r)
  unfolding exchange_nodes
  exchanged_links m r s a b na ba nb bb back that_back ne apart lasts firsts last_out = (
    (ground arith, ground arith, ground arith, ground arith),
    ground arith,
    ground arith,
    ground arith,
    ground arith,
  )

  exchanged-IsList :
      (m : Memory E) (r s a b : ℕ) (e f : E) (cs ds : List (ℕ × E))
      → IsList m r ((a, e) ∷ cs)
      → IsList m s ((b, f) ∷ ds)
      → Separate r ((a, e) ∷ cs) s ((b, f) ∷ ds)
      → IsList (exchanged r s m) s ((a, e) ∷ cs) × IsList (exchanged r s m) r ((b, f) ∷ ds)
  unfolding exchange_nodes
  exchanged-IsList m r s a b e f cs ds ir is (ne, r_out, s_out, apart) =
      let m' = exchanged r s m in
      let (na, ba, last) = ends m r a e cs ir in
      let (nb, bb, that_last) = ends m s b f ds is in
      let ((n1, p1, l1, b1), n2, p2, l2, b2) =
        exchanged_links m r s a b na ba nb bb ir.back is.back ne (ground (arith, apart a))
          (λ i. ground (arith, i, apart (m.prev r), last, that_last))
          (ground (arith, ir.apart, s_out), ground (arith, is.apart, r_out))
          (ground (arith, last, ir.apart, s_out), ground (arith, that_last, is.apart, r_out)) in
      (
        rooted m m' r s a e cs ir s_out n1 p1 l1 b1
            (λ c i o.
              ground
                (arith, na, nb, i, o, apart c, ir.apart, r_out, s_out, that_last, last, ba, bb))
            (λ c i. ground (arith, na, nb, i, apart c, ir.apart, s_out, ir.distinct.0)) refl
            (ground (arith, ne)),
        rooted m m' s r b f ds is r_out n2 p2 l2 b2
            (λ c i o.
              ground
                (arith, na, nb, i, o, apart c, is.apart, r_out, s_out, that_last, last, ba, bb))
            (λ c i. ground (arith, na, nb, i, apart c, is.apart, r_out, is.distinct.0)) refl
            (ground (arith, ne)),
      )

  -- The nodes of the list at `r` move to the one at `s`, which is empty; `m'` is the memory with the other fields.
  moved-IsList :
      (m m' : Memory E) (r s a : ℕ) (e : E) (cs : List (ℕ × E))
      → IsList m r ((a, e) ∷ cs)
      → r ≢ s
      → has s ((a, e) ∷ cs) ≡ false
      → m'.prev ≡ (move_nodes r s m).prev
      → m'.next ≡ (move_nodes r s m).next
      → m'.entry ≡ m.entry
      → m'.size s ≡ m.size r
      → m'.size r ≡ 0
      → IsList m' s ((a, e) ∷ cs) × IsList m' r []
  unfolding move_nodes Seg
  moved-IsList m m' r s a e cs ir ne out prevs nexts kept size size' =
      let (n, b, last) = ends m r a e cs ir in
      let p = λ (c : ℕ). ap (λ g. g c) prevs in
      let q = λ (c : ℕ). ap (λ g. g c) nexts in
      (
        rooted m m' r s a e cs ir out (q s ∙ ground (arith, n, b, last, ir.apart, out, ne))
            (p a ∙ ground (arith, n, b, last, ir.apart, out, ne))
            (p s ∙ ground (arith, n, b, last, ir.apart, out, ne))
            (q (m.prev r) ∙ ground (arith, n, b, last, ir.apart, out, ne))
            (λ c i o. q c ∙ ground (arith, n, i, o, ir.apart, out))
            (λ c i. p c ∙ ground (arith, n, i, ir.apart, out, ir.distinct.0)) kept size,
        record {
          seg = sym (p r ∙ ground (arith, n, ir.apart, ne));
          back =
              ap m'.next (p r ∙ ground (arith, n, ir.apart, ne))
              ∙ (q r ∙ ground (arith, last, ir.apart, ne));
          apart = refl;
          distinct = tt;
          sized = size';
          bounded = omega (arith, ir.bounded);
        },
      )

  along :
      {m m' : Memory E} {r s : ℕ} {cs ds : List (ℕ × E)}
      → m ≡ m'
      → IsList m r ds × IsList m s cs
      → IsList m' r ds × IsList m' s cs
  along {r} {s} {cs} {ds} run both = subst (λ m'. IsList m' r ds × IsList m' s cs) run both

  -- Each list holds the scopes that the other one has held.
  pub swap-exchanges :
      (m : Memory E) (r s : ℕ) (cs ds : List (ℕ × E))
      → IsList m r cs
      → IsList m s ds
      → Separate r cs s ds
      → IsList (swap r s m) r ds × IsList (swap r s m) s cs
  unfolding swap
  swap-exchanges m r s [] [] ir is apart =
      let run : m ≡ swap r s m = ground (arith, ir.sized, is.sized) in along run (ir, is)
  swap-exchanges m r s ((a, e) ∷ cs) [] ir is (ne, _, out, _) =
      let m' = swap_fields r s (move_nodes r s m) in
      let run : m' ≡ swap r s m = ground (arith, ir.sized, is.sized) in
      let (full, empty) =
        moved-IsList m m' r s a e cs ir ne out refl refl refl (ground (arith, ne))
          (ground (arith, is.sized)) in
      along run (empty, full)
  swap-exchanges m r s [] ((b, f) ∷ ds) ir is (ne, out, _, _) =
      let m' = swap_fields r s (move_nodes s r m) in
      let run : m' ≡ swap r s m = ground (arith, ir.sized, is.sized) in
      let (full, empty) =
        moved-IsList m m' s r b f ds is (λ i. ne (sym i)) out refl refl refl (ground (arith, ne))
          (ground (arith, ir.sized, ne)) in
      along run (full, empty)
  swap-exchanges m r s ((a, e) ∷ cs) ((b, f) ∷ ds) ir is apart =
      let (that, this) = exchanged-IsList m r s a b e f cs ds ir is apart in
      let run : exchanged r s m ≡ swap r s m = ground (arith, ir.sized, is.sized) in
      along run (this, that)
