-- ===== src/AttributeNames/RoundTrip.antt =====
-- The round trip of attribute names (attribute_name.cpp) through their identifiers.
use boost_log.Base.{
  get_elem?-append, get_elem?-length, ℕ, suc, ◌+◌, ◌%◌, ◌≡◌, ◌≤◌, ◌<◌, ◌↔◌, true, none, some, List,
  [], ◌∷◌, ◌++◌, length, length-append, Option-cases, inl, inr, arith, refl, sym, subst,
}
use boost_log.AttributeNames.{
  is_same, NodeSet, Repository, empty_repository, find_or_insert, add_all, get_id_from_string,
  get_string_from_id,
}

is_same_refl : (xs : List ℕ) → is_same xs xs ≡ true
unfolding is_same
is_same_refl [] = refl
is_same_refl (x ∷ xs) = ground (arith, is_same_refl xs)

is_same→≡ : (xs ys : List ℕ) → is_same xs ys ≡ true → xs ≡ ys
unfolding is_same
is_same→≡ [] [] e = refl
is_same→≡ [] (y ∷ ys) e = absurd (ground (arith, e))
is_same→≡ (x ∷ xs) [] e = absurd (ground (arith, e))
is_same→≡ (x ∷ xs) (y ∷ ys) e = ground (arith, e, is_same→≡ xs ys)

module _ {S : Type 0} (set : NodeSet S) where
  -- The set and the list of nodes agree: a name is found with the identifier at which it stands.
  pub IsRepository : Repository S → Type 0
  IsRepository r =
      (name : List ℕ) (id : ℕ)
      → (set.find r.node_set name ≡ some id) ↔ (get_string_from_id id r ≡ some name)

  pub empty-IsRepository : IsRepository (empty_repository set)
  unfolding IsRepository empty_repository get_string_from_id
  empty-IsRepository name id =
      ((λ e. absurd (ground (arith, e, set.find-empty name))), (λ e. absurd (ground (arith, e))))

  -- Nothing that was there is gone.
  pub Extends : Repository S → Repository S → Type 0
  Extends r r' =
      (id : ℕ) (name : List ℕ)
      → get_string_from_id id r ≡ some name
      → get_string_from_id id r' ≡ some name

  abbrev Added : List ℕ → Repository S → Repository S × ℕ → Type 0
  Added name r (r', id) =
      IsRepository r'
      × Extends r r'
      × (get_string_from_id id r' ≡ some name)
      × (length r'.node_list ≤ suc (length r.node_list))

  abbrev grown : List ℕ → Repository S → Repository S
  grown name r = record {
    node_list = r.node_list ++ name ∷ [];
    node_set = set.insert r.node_set name (length r.node_list);
  }

  grown-IsRepository :
      (name : List ℕ) (r : Repository S)
      → IsRepository r
      → set.find r.node_set name ≡ none
      → IsRepository (grown name r)
  unfolding IsRepository get_string_from_id
  grown-IsRepository name r is e other id = (
    λ f. ground (
      arith,
      set.find-insert r.node_set name other (length r.node_list) e,
      is_same→≡ other name,
      (is other id).0,
      get_elem?-append r.node_list name id,
      get_elem?-length r.node_list id other,
    ),
    λ f. ground (
      arith,
      e,
      set.find-insert r.node_set name other (length r.node_list) e,
      is_same→≡ other name,
      is_same_refl name,
      (is other id).1,
      get_elem?-append r.node_list name id,
    ),
  )

  grown-Added :
      (name : List ℕ) (r : Repository S)
      → IsRepository r
      → set.find r.node_set name ≡ none
      → Added name r (grown name r, length r.node_list)
  unfolding Extends get_string_from_id
  grown-Added name r is e = (
    grown-IsRepository name r is e,
    (λ id n f.
        ground (arith, f, get_elem?-append r.node_list name id, get_elem?-length r.node_list id n)),
    ground (arith, get_elem?-append r.node_list name (length r.node_list)),
    omega (arith, length-append r.node_list (name ∷ [])),
  )

  find_or_insert_absent :
      (name : List ℕ) (r : Repository S)
      → set.find r.node_set name ≡ none
      → length r.node_list < 4294967296
      → find_or_insert set name r ≡ (grown name r, length r.node_list)
  unfolding find_or_insert
  find_or_insert_absent name r e l = rw (find_or_insert, e, small) refl
    where
      small : length r.node_list % 4294967296 ≡ length r.node_list
      small = omega (arith, l)

  find_or_insert_found :
      (name : List ℕ) (r : Repository S) (i : ℕ)
      → set.find r.node_set name ≡ some i
      → find_or_insert set name r ≡ (r, i)
  unfolding find_or_insert
  find_or_insert_found name r i e = rw (find_or_insert, e) refl

  find_or_insert-Added :
      (name : List ℕ) (r : Repository S)
      → IsRepository r
      → length r.node_list < 4294967296
      → Added name r (find_or_insert set name r)
  unfolding IsRepository Extends
  find_or_insert-Added name r is l = elim (Option-cases (set.find r.node_set name)) [
    | inl e ↦
        subst (Added name r) (sym (find_or_insert_absent name r e l)) (grown-Added name r is e)
    | inr (i, e) ↦
        subst (Added name r) (sym (find_or_insert_found name r i e))
          (is, (λ id n f. f), (is name i).0 e, omega arith)
  ]

  abbrev AddedAll : ℕ → Repository S → Repository S → Type 0
  AddedAll n r r' = IsRepository r' × Extends r r' × (length r'.node_list ≤ length r.node_list + n)

  add_all-AddedAll :
      (names : List (List ℕ)) (r : Repository S)
      → IsRepository r
      → length r.node_list + length names ≤ 4294967296
      → AddedAll (length names) r (add_all set names r)
  unfolding add_all Extends
  add_all-AddedAll [] r is l = (is, (λ id n f. f), omega arith)
  add_all-AddedAll (name ∷ names) r is l =
      let (is1, extends1, _, l1) = find_or_insert-Added name r is (omega (arith, l)) in
      let (is2, extends2, l2) =
        add_all-AddedAll names (find_or_insert set name r).0 is1 (omega (arith, l, l1)) in
      (is2, (λ id n f. extends2 id n (extends1 id n f)), omega (arith, l1, l2))

  find-string :
      (r : Repository S)
      → IsRepository r
      → (name : List ℕ) (i : ℕ) → set.find r.node_set name ≡ some i
      → get_string_from_id i r ≡ some name
  unfolding IsRepository
  find-string r is name i e = (is name i).0 e

  same_id :
      (r : Repository S)
      → IsRepository r
      → (i j : ℕ) (name other : List ℕ) → get_string_from_id i r ≡ some name
      → get_string_from_id j r ≡ some other
      → (i ≡ j) ↔ (name ≡ other)
  unfolding IsRepository
  same_id r is i j name other at_i at_j = (
    λ e. ground (arith, e, at_i, at_j),
    λ e. ground (arith, e, (is name i).1 at_i, (is other j).1 at_j),
  )

  -- An identifier is turned back into the name that it was made from, names that were there keep their
  -- identifiers, and the set and the list of nodes agree again, whatever names other threads add between
  -- the two locks of get_id_from_string, as long as there are fewer than 2 ^ 32 names.
  pub get_id-round_trip :
      (others : List (List ℕ)) (name : List ℕ) (r : Repository S)
      → IsRepository r
      → length r.node_list + length others < 4294967296
      → let (r', id) = get_id_from_string set others name r in
        IsRepository r'
        × Extends r r'
        × (get_string_from_id id r' ≡ some name)
        × (length r'.node_list ≤ suc (length r.node_list + length others))
  unfolding get_id_from_string Extends
  get_id-round_trip others name r is l = elim (Option-cases (set.find r.node_set name)) [
    | inl e ↦
        let (is2, extends2, at, l2) =
          find_or_insert-Added name (add_all set others r) is1 (omega (arith, l, l1)) in
        rw (get_id_from_string, e)
          (is2, (λ id n f. extends2 id n (extends1 id n f)), at, omega (arith, l1, l2))
    | inr (i, e) ↦
        rw (get_id_from_string, e)
          (is1, extends1, extends1 i name (find-string r is name i e), omega (arith, l1))
  ]
    where
      added : AddedAll (length others) r (add_all set others r)
      added = add_all-AddedAll others r is (omega (arith, l))

      is1 : IsRepository (add_all set others r)
      is1 = added.0

      extends1 : Extends r (add_all set others r)
      extends1 = added.1

      l1 : length (add_all set others r).node_list ≤ length r.node_list + length others
      l1 = added.2

  -- Two calls, one after the other, give the same identifier exactly when the names are equal, whatever
  -- names other threads add, as long as there are fewer than 2 ^ 32 names.
  get_id_unique :
      (others more : List (List ℕ)) (name other : List ℕ) (r : Repository S)
      → IsRepository r
      → suc (length r.node_list + length others) + length more < 4294967296
      → let (r1, i) = get_id_from_string set others name r in
        let (r2, j) = get_id_from_string set more other r1 in (i ≡ j) ↔ (name ≡ other)
  unfolding Extends
  get_id_unique others more name other r is l =
      let (is1, _, at1, l1) = get_id-round_trip others name r is (omega (arith, l)) in
      let (is2, extends2, at2, l2) =
        get_id-round_trip more other (get_id_from_string set others name r).0 is1
          (omega (arith, l, l1)) in
      same_id (get_id_from_string set more other (get_id_from_string set others name r).0).0 is2
        (get_id_from_string set others name r).1
        (get_id_from_string set more other (get_id_from_string set others name r).0).1 name other
        (extends2 (get_id_from_string set others name r).1 name at1) at2
