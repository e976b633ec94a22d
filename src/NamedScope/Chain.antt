-- ===== src/NamedScope/Chain.antt =====
-- The nodes of a list of scopes (attributes/named_scope.hpp), linked both ways from the root node around.
use mathlib.Core.Bool.{or_assoc}
use boost_log.Base.{
  ℕ, ◌≡◌, ◌<◌, ◌^◌, Bool, true, false, ◌||◌, some, List, [], ◌∷◌, ◌++◌, ◌==◌, length, arith, refl,
  sym, ap, ◌∙◌,
}
use boost_log.NamedScope.{Memory}

module _ {E : Type 0} where
  -- A cell is the address of a scope with its entry.
  abbrev pub has : ℕ → List (ℕ × E) → Bool
  has c [] = false
  has c ((a, _) ∷ cs) = a == c || has c cs

  unfoldable pub entries : List (ℕ × E) → List E
  entries [] = []
  entries ((_, e) ∷ cs) = e ∷ entries cs

  abbrev pub Distinct : List (ℕ × E) → Type 0
  Distinct [] = Unit {0}
  Distinct ((a, _) ∷ cs) = (has a cs ≡ false) × Distinct cs

  abbrev pub Disjoint : List (ℕ × E) → List (ℕ × E) → Type 0
  Disjoint cs ds = (c : ℕ) → has c cs ≡ true → has c ds ≡ false

  -- From the node `p` the links lead through the cells to the node `q`, and back.
  unfoldable pub Seg : Memory E → ℕ → List (ℕ × E) → ℕ → Type 0
  Seg m p [] q = p ≡ q
  Seg m p ((a, e) ∷ cs) q = (m.next p ≡ a) × (m.prev a ≡ p) × (m.entry a ≡ some e) × Seg m a cs q

  pub has-append : (c : ℕ) (cs ds : List (ℕ × E)) → has c (cs ++ ds) ≡ (has c cs || has c ds)
  has-append c [] ds = refl
  has-append c ((a, e) ∷ cs) ds = rw (has-append c cs ds, or_assoc)

  pub entries-append : (cs ds : List (ℕ × E)) → entries (cs ++ ds) ≡ entries cs ++ entries ds
  unfolding entries
  entries-append [] ds = refl
  entries-append ((a, e) ∷ cs) ds = ap (λ es. e ∷ es) (entries-append cs ds)

  -- The last node is one of them.
  pub has-end :
      (m : Memory E) (p : ℕ) (cs : List (ℕ × E)) (q : ℕ)
      → Seg m p cs q
      → (p == q || has q cs) ≡ true
  unfolding Seg
  has-end m p [] q s = ground (arith, s)
  has-end m p ((a, e) ∷ cs) q (_, _, _, s) = ground (arith, has-end m a cs q s)

  -- Links elsewhere do not matter, nor does the one behind the last node.
  pub frame :
      (m m' : Memory E) (p : ℕ) (cs : List (ℕ × E)) (q : ℕ)
      → Seg m p cs q
      → has p cs ≡ false
      → Distinct cs
      → ((c : ℕ) → (p == c || has c cs) ≡ true → (c == q) ≡ false → m'.next c ≡ m.next c)
      → ((c : ℕ) → has c cs ≡ true → m'.prev c ≡ m.prev c)
      → ((c : ℕ) → has c cs ≡ true → m'.entry c ≡ m.entry c)
      → Seg m' p cs q
  unfolding Seg
  frame m m' p [] q s apart distinct nexts prevs kept = s
  frame m m' p ((a, e) ∷ cs) q (n, b, h, s) apart distinct nexts prevs kept = (
    nexts p (ground arith) (ground (arith, has-end m a cs q s, apart)) ∙ n,
    prevs a (ground arith) ∙ b,
    kept a (ground arith) ∙ h,
    frame m m' a cs q s distinct.0 distinct.1 (λ c i. nexts c (ground (arith, i)))
        (λ c i. prevs c (ground (arith, i))) (λ c i. kept c (ground (arith, i))),
  )

  -- One more cell at the end.
  pub extend :
      (m : Memory E) (p : ℕ) (cs : List (ℕ × E)) (q a : ℕ) (e : E)
      → Seg m p cs q
      → m.next q ≡ a
      → m.prev a ≡ q
      → m.entry a ≡ some e
      → Seg m p (cs ++ (a, e) ∷ []) a
  unfolding Seg
  extend m p [] q a e s n b h = (ap m.next s ∙ n, b ∙ sym s, h, refl)
  extend m p ((c, f) ∷ cs) q a e (n', b', h', s) n b h = (n', b', h', extend m c cs q a e s n b h)

  -- Another node in the place of the first one.
  pub replace_root :
      (m m' : Memory E) (p p' a : ℕ) (e : E) (cs : List (ℕ × E)) (q : ℕ)
      → Seg m p ((a, e) ∷ cs) q
      → Distinct ((a, e) ∷ cs)
      → m'.next p' ≡ a
      → m'.prev a ≡ p'
      → ((c : ℕ) → has c ((a, e) ∷ cs) ≡ true → (c == q) ≡ false → m'.next c ≡ m.next c)
      → ((c : ℕ) → has c cs ≡ true → m'.prev c ≡ m.prev c)
      → ((c : ℕ) → has c ((a, e) ∷ cs) ≡ true → m'.entry c ≡ m.entry c)
      → Seg m' p' ((a, e) ∷ cs) q
  unfolding Seg
  replace_root m m' p p' a e cs q (n, b, h, s) distinct n' b' nexts prevs kept = (
    n',
    b',
    kept a (ground arith) ∙ h,
    frame m m' a cs q s distinct.0 distinct.1 nexts prevs (λ c i. kept c (ground (arith, i))),
  )

  -- The list with the root node `r` holds the scopes of the cells.
  pub record IsList (m : Memory E) (r : ℕ) (cs : List (ℕ × E)) : Type 0 where
    pub seg : Seg m r cs (m.prev r)
    pub back : m.next (m.prev r) ≡ r
    pub apart : has r cs ≡ false
    pub distinct : Distinct cs
    pub sized : m.size r ≡ length cs
    pub bounded : length cs < 2 ^ 64
