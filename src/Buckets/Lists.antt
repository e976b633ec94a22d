-- ===== src/Buckets/Lists.antt =====
-- Lists of nodes (attribute_set_impl.hpp): what insertions and removals at an address do to the parts of a
-- list.
use boost_log.Base.{
  ℕ, suc, ◌≡◌, ◌≢◌, inl, inr, Bool, true, false, Bool-cases, Option, none, some, List, [], ◌∷◌,
  ◌++◌, ◌==◌, if◌then◌else◌, length, All, arith, refl, subst, ==_iff,
}
use boost_log.Buckets.{Node, from, insert_before, insert_after, remove}

module _ {V : Type 0} where
  -- Whether a node stands at the address.
  unfoldable pub has : ℕ → List (Node V) → Bool
  has a [] = false
  has a (n ∷ ns) = if n.address == a then true else has a ns

  -- The first node with the key, in the whole list.
  unfoldable pub lookup : ℕ → List (Node V) → Option (Node V)
  lookup key [] = none
  lookup key (n ∷ ns) = if n.key == key then some n else lookup key ns

  abbrev pub Absent : ℕ → List (Node V) → Type 0
  Absent a = All (λ n. n.address ≢ a)

  abbrev pub Distinct : List (Node V) → Type 0
  Distinct [] = Unit
  Distinct (n ∷ ns) = Absent n.address ns × Distinct ns

  pub has-Absent : (a : ℕ) (ns : List (Node V)) → Absent a ns → has a ns ≡ false
  unfolding has
  has-Absent a [] f = refl
  has-Absent a (n ∷ ns) f = ground (arith, f.0, has-Absent a ns f.1)

  Absent-has : (a : ℕ) (ns : List (Node V)) → has a ns ≡ false → Absent a ns
  unfolding has
  Absent-has a [] f = tt
  Absent-has a (n ∷ ns) f = (λ e. ground (arith, f, e), Absent-has a ns (ground (arith, f)))

  module _ (P : Node V → Type 0) where
    All-append_left : (xs ys : List (Node V)) → All P (xs ++ ys) → All P xs
    All-append_left [] ys f = tt
    All-append_left (x ∷ xs) ys f = (f.0, All-append_left xs ys f.1)

    All-append_right : (xs ys : List (Node V)) → All P (xs ++ ys) → All P ys
    All-append_right [] ys f = f
    All-append_right (x ∷ xs) ys f = All-append_right xs ys f.1

    pub All-append : (xs ys : List (Node V)) → All P xs → All P ys → All P (xs ++ ys)
    All-append [] ys f g = g
    All-append (x ∷ xs) ys f g = (f.0, All-append xs ys f.1 g)

    pub All-from : (a : ℕ) (xs : List (Node V)) → All P xs → All P (from a xs)
    unfolding from
    All-from a [] f = tt
    All-from a (x ∷ xs) f = elim (Bool-cases (x.address == a)) [
      | inl e ↦ rw e f
      | inr e ↦ rw e (All-from a xs f.1)
    ]

    pub All-insert_before :
        (a : ℕ) (x : Node V) (xs : List (Node V)) → P x → All P xs → All P (insert_before a x xs)
    unfolding insert_before
    All-insert_before a x [] p f = tt
    All-insert_before a x (n ∷ ns) p f = elim (Bool-cases (n.address == a)) [
      | inl e ↦ rw e (p, f)
      | inr e ↦ rw e (f.0, All-insert_before a x ns p f.1)
    ]

    pub All-insert_after :
        (a : ℕ) (x : Node V) (xs : List (Node V)) → P x → All P xs → All P (insert_after a x xs)
    unfolding insert_after
    All-insert_after a x [] p f = tt
    All-insert_after a x (n ∷ ns) p f = elim (Bool-cases (n.address == a)) [
      | inl e ↦ rw e (f.0, (p, f.1))
      | inr e ↦ rw e (f.0, All-insert_after a x ns p f.1)
    ]

    pub All-remove : (a : ℕ) (xs : List (Node V)) → All P xs → All P (remove a xs)
    unfolding remove
    All-remove a [] f = tt
    All-remove a (n ∷ ns) f = elim (Bool-cases (n.address == a)) [
      | inl e ↦ rw e f.1
      | inr e ↦ rw e (f.0, All-remove a ns f.1)
    ]

  -- An operation at an address reaches the first part that has it.
  pub from-append :
      (a : ℕ) (xs ys : List (Node V))
      → from a (xs ++ ys) ≡ (if has a xs then from a xs ++ ys else from a ys)
  unfolding from has
  from-append a [] ys = refl
  from-append a (x ∷ xs) ys = ground (arith, from-append a xs ys)

  pub insert_before-append :
      (a : ℕ) (x : Node V) (xs ys : List (Node V))
      → insert_before a x (xs ++ ys)
        ≡ (if has a xs then insert_before a x xs ++ ys else xs ++ insert_before a x ys)
  unfolding insert_before has
  insert_before-append a x [] ys = refl
  insert_before-append a x (n ∷ ns) ys = ground (arith, insert_before-append a x ns ys)

  pub insert_after-append :
      (a : ℕ) (x : Node V) (xs ys : List (Node V))
      → insert_after a x (xs ++ ys)
        ≡ (if has a xs then insert_after a x xs ++ ys else xs ++ insert_after a x ys)
  unfolding insert_after has
  insert_after-append a x [] ys = refl
  insert_after-append a x (n ∷ ns) ys = ground (arith, insert_after-append a x ns ys)

  pub remove-append :
      (a : ℕ) (xs ys : List (Node V))
      → remove a (xs ++ ys) ≡ (if has a xs then remove a xs ++ ys else xs ++ remove a ys)
  unfolding remove has
  remove-append a [] ys = refl
  remove-append a (n ∷ ns) ys = ground (arith, remove-append a ns ys)

  -- A new node with a new address keeps the addresses apart.
  pub insert_before-Distinct :
      (a : ℕ) (x : Node V) (ns : List (Node V))
      → Absent x.address ns
      → Distinct ns
      → Distinct (insert_before a x ns)
  unfolding insert_before
  insert_before-Distinct a x [] f d = tt
  insert_before-Distinct a x (n ∷ ns) f d = elim (Bool-cases (n.address == a)) [
    | inl e ↦ rw e (f, d)
    | inr e ↦ rw e (
      All-insert_before (λ m. m.address ≢ n.address) a x ns (λ q. f.0 (ground (arith, q))) d.0,
      insert_before-Distinct a x ns f.1 d.1,
    )
  ]

  pub insert_after-Distinct :
      (a : ℕ) (x : Node V) (ns : List (Node V))
      → Absent x.address ns
      → Distinct ns
      → Distinct (insert_after a x ns)
  unfolding insert_after
  insert_after-Distinct a x [] f d = tt
  insert_after-Distinct a x (n ∷ ns) f d = elim (Bool-cases (n.address == a)) [
    | inl e ↦ rw e (((λ q. f.0 (ground (arith, q))), d.0), (f.1, d.1))
    | inr e ↦ rw e (
      All-insert_after (λ m. m.address ≢ n.address) a x ns (λ q. f.0 (ground (arith, q))) d.0,
      insert_after-Distinct a x ns f.1 d.1,
    )
  ]

  pub append-Distinct :
      (x : Node V) (ns : List (Node V))
      → Absent x.address ns
      → Distinct ns
      → Distinct (ns ++ x ∷ [])
  append-Distinct x [] f d = (tt, tt)
  append-Distinct x (n ∷ ns) f d = (
    All-append (λ m. m.address ≢ n.address) ns (x ∷ []) d.0 ((λ q. f.0 (ground (arith, q))), tt),
    append-Distinct x ns f.1 d.1,
  )

  pub remove-Distinct : (a : ℕ) (ns : List (Node V)) → Distinct ns → Distinct (remove a ns)
  unfolding remove
  remove-Distinct a [] d = tt
  remove-Distinct a (n ∷ ns) d = elim (Bool-cases (n.address == a)) [
    | inl e ↦ rw e d.1
    | inr e ↦ rw e (All-remove (λ m. m.address ≢ n.address) a ns d.0, remove-Distinct a ns d.1)
  ]

  pub remove-Absent : (a : ℕ) (ns : List (Node V)) → Distinct ns → Absent a (remove a ns)
  unfolding remove
  remove-Absent a [] d = tt
  remove-Absent a (n ∷ ns) d = elim (Bool-cases (n.address == a)) [
    | inl e ↦ rw e (subst (λ c. Absent c ns) ((==_iff n.address a).0 e) d.0)
    | inr e ↦ rw e ((λ q. ground (arith, e, q)), remove-Absent a ns d.1)
  ]

  -- Parts of a list with distinct addresses.
  pub Distinct-right : (xs ys : List (Node V)) → Distinct (xs ++ ys) → Distinct ys
  Distinct-right [] ys d = d
  Distinct-right (x ∷ xs) ys d = Distinct-right xs ys d.1

  pub Distinct-left : (xs ys : List (Node V)) → Distinct (xs ++ ys) → Distinct xs
  Distinct-left [] ys d = tt
  Distinct-left (x ∷ xs) ys d =
      (All-append_left (λ m. m.address ≢ x.address) xs ys d.0, Distinct-left xs ys d.1)

  pub Distinct-has :
      (xs ys : List (Node V)) (a : ℕ) → Distinct (xs ++ ys) → has a ys ≡ true → has a xs ≡ false
  unfolding has
  Distinct-has [] ys a d h = refl
  Distinct-has (x ∷ xs) ys a d h = ground (
    arith,
    Distinct-has xs ys a d.1 h,
    has-Absent x.address ys (All-append_right (λ m. m.address ≢ x.address) xs ys d.0),
  )

  pub length-insert_before :
      (a : ℕ) (x : Node V) (ns : List (Node V))
      → has a ns ≡ true
      → length (insert_before a x ns) ≡ suc (length ns)
  unfolding insert_before has
  length-insert_before a x [] h = absurd (ground (arith, h))
  length-insert_before a x (n ∷ ns) h = ground (arith, h, length-insert_before a x ns)

  pub length-insert_after :
      (a : ℕ) (x : Node V) (ns : List (Node V))
      → has a ns ≡ true
      → length (insert_after a x ns) ≡ suc (length ns)
  unfolding insert_after has
  length-insert_after a x [] h = absurd (ground (arith, h))
  length-insert_after a x (n ∷ ns) h = ground (arith, h, length-insert_after a x ns)

  pub length-remove :
      (a : ℕ) (ns : List (Node V)) → has a ns ≡ true → suc (length (remove a ns)) ≡ length ns
  unfolding remove has
  length-remove a [] h = absurd (ground (arith, h))
  length-remove a (n ∷ ns) h = ground (arith, h, length-remove a ns)

  pub has-append :
      (a : ℕ) (xs ys : List (Node V)) → has a (xs ++ ys) ≡ (if has a xs then true else has a ys)
  unfolding has
  has-append a [] ys = refl
  has-append a (x ∷ xs) ys = ground (arith, has-append a xs ys)

  pub from-has :
      (a : ℕ) (ns : List (Node V))
      → has a ns ≡ true
      → (m : Node V) × (ms : List (Node V)) × (from a ns ≡ m ∷ ms)
  unfolding from has
  from-has a [] h = absurd (ground (arith, h))
  from-has a (n ∷ ns) h = elim (Bool-cases (n.address == a)) [
    | inl e ↦ (n, ns, rw e refl)
    | inr e ↦ let (m, ms, f) = from-has a ns (ground (arith, e, h)) in (m, ms, rw e f)
  ]
