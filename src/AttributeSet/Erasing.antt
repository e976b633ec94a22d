-- ===== src/AttributeSet/Erasing.antt =====
-- erase of attribute sets (attribute_set_impl.hpp), with the release of nodes.
use mathlib.Core.Path.{fun_ext}
use boost_log.Base.{
  ℕ, ◌+◌, ◌≡◌, ◌≢◌, ◌≤◌, inl, inr, true, Bool-cases, none, some, List, [], ◌∷◌, ltb, if◌then◌else◌,
  length, All, arith, refl, sym, ap, ◌∙◌,
}
use boost_log.Buckets.{Node, Table, erase_node}
use boost_log.Buckets.Lists.{has, has-Absent, lookup, Absent}
use boost_log.Buckets.Links.{lookup-has}
use boost_log.Buckets.Runs.{find-lookup}
use boost_log.Buckets.Erase.{Erased, erase_node-Erased}
use boost_log.AttributeSet.{deallocate, AttributeSet, size, find, erase_at, erase}
use boost_log.AttributeSet.Map.{Different, IsAttributeSet, contents, without, is_some}

module _ {V : Type 0} where
  abbrev Pooled : List (Node V) → List ℕ → Type 0
  Pooled ns pool = All (λ a. Absent a ns) pool × Different pool × (length pool ≤ 8)

  deallocate-Pooled :
      (a : ℕ) (ns : List (Node V)) (pool : List ℕ)
      → Absent a ns
      → All (λ c. c ≢ a) pool
      → Pooled ns pool
      → Pooled ns (deallocate a pool)
  unfolding deallocate
  deallocate-Pooled a ns pool f g (p, d, l) = elim (Bool-cases (ltb (length pool) 8)) [
    | inl e ↦ rw e ((f, p), (g, d), ground (arith, e))
    | inr e ↦ rw e (p, d, l)
  ]

  All-kept :
      (p : Node V) (t t' : Table V)
      → Erased p t t'
      → (pool : List ℕ) → All (λ a. Absent a t.nodes) pool
      → All (λ a. Absent a t'.nodes) pool
  All-kept p t t' er [] f = tt
  All-kept p t t' er (a ∷ pool) f = (er.kept a f.0, All-kept p t t' er pool f.1)

  apart_from_pool :
      (a : ℕ) (ns : List (Node V))
      → has a ns ≡ true
      → (pool : List ℕ) → All (λ c. Absent c ns) pool
      → All (λ c. c ≢ a) pool
  apart_from_pool a ns h [] f = tt
  apart_from_pool a ns h (c ∷ pool) f =
      ((λ e. ground (arith, h, has-Absent c ns f.0, e)), apart_from_pool a ns h pool f.1)

  pub erase_of_none : (key : ℕ) (s : AttributeSet V) → find key s ≡ none → erase key s ≡ (s, 0)
  unfolding erase
  erase_of_none key s e = rw (erase, e) refl

  pub erase_of_some :
      (key : ℕ) (s : AttributeSet V) (p : Node V)
      → find key s ≡ some p
      → erase key s ≡ (erase_at p s, 1)
  unfolding erase
  erase_of_some key s p e = rw (erase, e) refl

  abbrev pub Drops : ℕ → AttributeSet V → AttributeSet V × ℕ → Type 0
  Drops key s (s', n) =
      IsAttributeSet s'
      × (contents s' ≡ without key (contents s))
      × (n ≡ (if is_some (contents s key) then 1 else 0))
      × (size s' + n ≡ size s)

  pub erase_at-Drops :
      (key : ℕ) (s : AttributeSet V) (p : Node V)
      → IsAttributeSet s
      → find key s ≡ some p
      → Drops key s (erase_at p s, 1)
  unfolding erase_at find
  erase_at-Drops key s p is e = (
    record { table = er.table; pooled = pool'.0; different = pool'.1; pool_bound = pool'.2 },
    (fun_ext λ other. ground (
      arith,
      named,
      er.looks_up other,
      find-lookup (erase_node p s.table) other er.table,
      find-lookup s.table other is.table,
    )),
    ground (arith, e),
    omega (arith, er.counted),
  )
    where
      found : lookup key s.table.nodes ≡ some p
      found = sym (find-lookup s.table key is.table) ∙ e

      named : p.key ≡ key
      named = (lookup-has key p s.table.nodes found).1

      er : Erased p s.table (erase_node p s.table)
      er = erase_node-Erased p s.table is.table (ap (λ k. lookup k s.table.nodes) named ∙ found)

      pool' : Pooled (erase_node p s.table).nodes (deallocate p.address s.pool)
      pool' =
          deallocate-Pooled p.address (erase_node p s.table).nodes s.pool er.released
            (apart_from_pool p.address s.table.nodes (lookup-has key p s.table.nodes found).0 s.pool
              is.pooled)
            (
              All-kept p s.table (erase_node p s.table) er s.pool is.pooled,
              is.different,
              is.pool_bound,
            )
