-- ===== src/AttributeSet/Inserting.antt =====
-- insert of attribute sets (attribute_set_impl.hpp), with the allocation of nodes.
use mathlib.Core.Path.{fun_ext}
use boost_log.Base.{
  ℕ, suc, ◌≡◌, ◌≢◌, ◌≤◌, Bool, true, false, none, some, List, [], ◌∷◌, if◌then◌else◌, length, All,
  arith, refl, sym, ◌∙◌,
}
use boost_log.Buckets.{Node, Table, empty_table, first_of, position, insert_node, erase_node}
use boost_log.Buckets.Lists.{lookup, Absent}
use boost_log.Buckets.Runs.{find-lookup}
use boost_log.Buckets.Insert.{FitsAfter, Inserted, insert_node-Inserted}
use boost_log.Buckets
use boost_log.AttributeSet.{allocate, AttributeSet, size, find, insert}
use boost_log.AttributeSet.Map.{Different, IsAttributeSet, IsFree, contents, insert_new, is_some}

module _ {V : Type 0} where
  All-Absent :
      (x : Node V) (t t' : Table V)
      → Inserted x t t'
      → (pool : List ℕ) → All (λ a. Absent a t.nodes) pool
      → All (λ c. c ≢ x.address) pool
      → All (λ a. Absent a t'.nodes) pool
  All-Absent x t t' ins [] f g = tt
  All-Absent x t t' ins (a ∷ pool) f g =
      (ins.kept a (λ e. g.0 (sym e)) f.0, All-Absent x t t' ins pool f.1 g.1)

  -- What the allocation leaves.
  abbrev Allocated : AttributeSet V → ℕ × List ℕ → Type 0
  Allocated s (a, pool) =
      Absent a s.table.nodes
      × All (λ a'. Absent a' s.table.nodes) pool
      × All (λ c. c ≢ a) pool
      × Different pool
      × (length pool ≤ 8)

  allocate-Allocated :
      (heap : ℕ) (s : AttributeSet V) (pool : List ℕ)
      → Absent heap s.table.nodes
      → All (λ a. Absent a s.table.nodes) pool
      → Different pool
      → length pool ≤ 8
      → Allocated s (allocate heap pool)
  unfolding allocate
  allocate-Allocated heap s [] f p d l = (f, tt, tt, tt, l)
  allocate-Allocated heap s (a ∷ pool) f p d l = (p.0, p.1, d.0, d.1, omega (arith, l))

  abbrev pub Refines : ℕ → V → AttributeSet V → AttributeSet V × Node V × Bool → Type 0
  Refines key value s (s', n, new) =
      IsAttributeSet s'
      × (contents s' ≡ insert_new key value (contents s))
      × (some n.value ≡ contents s' key)
      × (new ≡ (if is_some (contents s key) then false else true))
      × (size s' ≡ (if new then suc (size s) else size s))

  pub insert_found :
      (heap key : ℕ) (value : V) (s : AttributeSet V) (p : Node V)
      → IsAttributeSet s
      → find key s ≡ some p
      → Refines key value s (s, p, false)
  insert_found heap key value s p is e =
      (is, (fun_ext λ other. ground (arith, e)), ground (arith, e), ground (arith, e), refl)

  pub insert_absent :
      (key : ℕ) (value : V) (a : ℕ) (pool : List ℕ) (s : AttributeSet V)
      → IsAttributeSet s
      → FitsAfter key (first_of key s.table)
      → find key s ≡ none
      → Allocated s (a, pool)
      → let n : Node V = record { address = a; key = key; value = value } in
        Refines key value s
          (record { table = insert_node n (position key s.table) s.table; pool = pool }, n, true)
  unfolding find
  insert_absent key value a pool s is fits e (of_nodes, pooled, apart, different, bound) = (
    record {
      table = ins.table;
      pooled = All-Absent n s.table t' ins pool pooled apart;
      different = different;
      pool_bound = bound;
    },
    (fun_ext λ other.
        ground (arith, e, found other, ins.looks_up other, find-lookup s.table other is.table)),
    ground (arith, found key, ins.looks_up key),
    ground (arith, e),
    ins.counted,
  )
    where
      n : Node V
      n = record { address = a; key = key; value = value }

      t' : Table V
      t' = insert_node n (position key s.table) s.table

      ins : Inserted n s.table t'
      ins =
          insert_node-Inserted n s.table is.table (sym (find-lookup s.table key is.table) ∙ e)
            of_nodes fits

      found : (other : ℕ) → Buckets.find other t' ≡ lookup other t'.nodes
      found other = find-lookup t' other ins.table

  abbrev pub new_node : ℕ → ℕ → V → AttributeSet V → Node V
  new_node heap key value s = record {
    address = (allocate heap s.pool).0;
    key = key;
    value = value;
  }

  pub insert_of_none :
      (heap key : ℕ) (value : V) (s : AttributeSet V)
      → find key s ≡ none
      → insert heap key value s ≡ (
        record {
          table = insert_node (new_node heap key value s) (position key s.table) s.table;
          pool = (allocate heap s.pool).1;
        },
        new_node heap key value s,
        true,
      )
  unfolding insert
  insert_of_none heap key value s e = rw (insert, e) refl

  pub insert_of_some :
      (heap key : ℕ) (value : V) (s : AttributeSet V) (p : Node V)
      → find key s ≡ some p
      → insert heap key value s ≡ (s, p, false)
  unfolding insert
  insert_of_some heap key value s p e = rw (insert, e) refl

  pub allocated :
      (heap : ℕ) (s : AttributeSet V)
      → IsAttributeSet s
      → IsFree heap s
      → Allocated s (allocate heap s.pool)
  allocated heap s is free =
      allocate-Allocated heap s s.pool free.of_nodes is.pooled is.different is.pool_bound
