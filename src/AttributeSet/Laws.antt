-- ===== src/AttributeSet/Laws.antt =====
-- Attribute sets (attribute_set.cpp, attribute_set_impl.hpp) as finite maps from identifiers to attributes.
use mathlib.Core.Path.{fun_ext}
use boost_log.Base.{
  ℕ, suc, ◌+◌, ◌≡◌, ◌<◌, inl, inr, true, false, Option-cases, none, some, if◌then◌else◌, arith,
  refl, subst, sym, ap,
}
use boost_log.Buckets.{Node, first_of, position, insert_node}
use boost_log.Buckets.Insert.{FitsAfter}
use boost_log.Buckets.Hidden.{Hides, insert_node-Hides, find_below}
use boost_log.AttributeSet.{allocate, AttributeSet, size, find, insert, erase}
use boost_log.AttributeSet.Map.{IsAttributeSet, IsFree, contents, insert_new, without, is_some}
use boost_log.AttributeSet.Inserting.{
  Refines, insert_found, insert_absent, new_node, insert_of_none, insert_of_some, allocated,
}
use boost_log.AttributeSet.Erasing.{erase_of_none, erase_of_some, Drops, erase_at-Drops}

module _ {V : Type 0} where
  -- Where the first node of the key's bucket has a smaller key or there is none, insertion is insertion
  -- into the finite map that the set stands for: a value that is there stays and is returned with
  -- false, any other key is as it was, and the set stays well formed; the size grows by one exactly if
  -- the key is new.
  pub insert-refines :
      (heap key : ℕ) (value : V) (s : AttributeSet V)
      → IsAttributeSet s
      → IsFree heap s
      → FitsAfter key (first_of key s.table)
      → let (s', n, new) = insert heap key value s in
        IsAttributeSet s'
        × (contents s' ≡ insert_new key value (contents s))
        × (some n.value ≡ contents s' key)
        × (new ≡ (if is_some (contents s key) then false else true))
        × (size s' ≡ (if new then suc (size s) else size s))
  insert-refines heap key value s is free fits = elim (Option-cases (find key s)) [
    | inl e ↦ subst (Refines key value s) (sym (insert_of_none heap key value s e)) (
        insert_absent key value (allocate heap s.pool).0 (allocate heap s.pool).1 s is fits e
          (allocated heap s is free))
    | inr (p, e) ↦
        subst (Refines key value s) (sym (insert_of_some heap key value s p e))
          (insert_found heap key value s p is e)
  ]

  lookup_none_below :
      (key : ℕ) (s : AttributeSet V) (n : Node V)
      → IsAttributeSet s
      → first_of key s.table ≡ some n
      → key < n.key
      → find key s ≡ none
  unfolding find
  lookup_none_below key s n is f l = find_below key s.table is.table n f l

  -- Where the first node of the key's bucket has a larger key, insertion reports a new element and the
  -- size grows, but the search does not find it, and a second insertion of the same key reports a new
  -- element again.
  pub insert-hides :
      (heap later key : ℕ) (value second : V) (s : AttributeSet V) (first : Node V)
      → IsAttributeSet s
      → IsFree heap s
      → first_of key s.table ≡ some first
      → key < first.key
      → let (s', n, new) = insert heap key value s in
        (new ≡ true)
        × (size s' ≡ suc (size s))
        × (find key s' ≡ none)
        × ((insert later key second s').2 ≡ true)
  unfolding find
  insert-hides heap later key value second s first is free f l =
      subst
        (λ r.
          (r.2 ≡ true)
          × (size r.0 ≡ suc (size s))
          × (find key r.0 ≡ none)
          × ((insert later key second r.0).2 ≡ true))
        (sym (insert_of_none heap key value s (lookup_none_below key s first is f l)))
        (
          refl,
          hides.counted,
          hides.not_found,
          ap (λ r. r.2) (insert_of_none later key second s' hides.not_found),
        )
    where
      n : Node V
      n = new_node heap key value s

      s' : AttributeSet V
      s' = record {
        table = insert_node n (position key s.table) s.table;
        pool = (allocate heap s.pool).1;
      }

      hides : Hides n s.table s'.table
      hides = insert_node-Hides n s.table is.table (allocated heap s is free).0 first f l

  -- Erasure by a key is removal from the finite map that the set stands for: the key is gone, any other
  -- key is as it was, the set stays well formed, and the result is the number of elements erased.
  pub erase-refines :
      (key : ℕ) (s : AttributeSet V)
      → IsAttributeSet s
      → let (s', n) = erase key s in
        IsAttributeSet s'
        × (contents s' ≡ without key (contents s))
        × (n ≡ (if is_some (contents s key) then 1 else 0))
        × (size s' + n ≡ size s)
  erase-refines key s is = elim (Option-cases (find key s)) [
    | inl e ↦
        subst (Drops key s) (sym (erase_of_none key s e))
          (is, (fun_ext λ other. ground (arith, e)), ground (arith, e), omega arith)
    | inr (p, e) ↦ subst (Drops key s) (sym (erase_of_some key s p e)) (erase_at-Drops key s p is e)
  ]
