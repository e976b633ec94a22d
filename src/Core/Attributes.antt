-- ===== src/Core/Attributes.antt =====
-- The calls of basic_core that change single attributes (core.cpp), over basic_attribute_set. The calls on
-- global attributes hold the core's lock; those of a thread reach only what is the thread's own.
use boost_log.Base.{
  ℕ, ◌≡◌, Bool, true, false, none, some, ◌==◌, if◌then◌else◌, arith, refl, sym, subst,
}
use boost_log.Buckets.{Node, first_of}
use boost_log.AttributeSet.{AttributeSet, insert, erase_at}
use boost_log.AttributeSet.Map.{IsAttributeSet, IsFree, contents, insert_new}
use boost_log.AttributeSet.Laws.{insert-refines}
use boost_log.Buckets.Insert.{FitsAfter}
use boost_log.Core.State.{View, Core, get_thread_data}
use boost_log.Core.Open.{compose_view}

module _ {V : Type 0} where
  -- `heap` is the address that a new node gets.
  add_global_attribute : ℕ → ℕ → V → Core (AttributeSet V) → Core (AttributeSet V) × Node V × Bool
  add_global_attribute heap name attr c =
      let (s, it, is_new) = insert heap name attr c.global_attributes in
      (record c { global_attributes = s }, it, is_new)

  remove_global_attribute : Node V → Core (AttributeSet V) → Core (AttributeSet V)
  remove_global_attribute it c = record c { global_attributes = erase_at it c.global_attributes }

  get_global_attributes : Core (AttributeSet V) → AttributeSet V
  get_global_attributes c = c.global_attributes

  module _ (no_attributes : AttributeSet V) (thread : ℕ) where
    add_thread_attribute : ℕ → ℕ → V → Core (AttributeSet V) → Core (AttributeSet V) × Node V × Bool
    add_thread_attribute heap name attr c =
        let (p, c1) = get_thread_data no_attributes thread c in
        let (s, it, is_new) = insert heap name attr p in
        (
          record c1 { thread_data = λ t. if t == thread then some s else c1.thread_data t },
          it,
          is_new,
        )

    -- A thread without data has no attribute to remove.
    remove_thread_attribute : Node V → Core (AttributeSet V) → Core (AttributeSet V)
    remove_thread_attribute it c = elim (c.thread_data thread) [
      | none ↦ c
      | some p ↦ record c {
        thread_data = λ t. if t == thread then some (erase_at it p) else c.thread_data t;
      }
    ]

    get_thread_attributes : Core (AttributeSet V) → AttributeSet V × Core (AttributeSet V)
    get_thread_attributes c = get_thread_data no_attributes thread c

    abbrev Seen : ℕ → V → Bool → View (AttributeSet V) → View (AttributeSet V) → Type 0
    Seen name attr is_own before after =
        (contents after.thread_attributes ≡ (
          if is_own
          then insert_new name attr (contents before.thread_attributes)
          else contents before.thread_attributes))
        × (after.global_attributes ≡ before.global_attributes)

    insert-Seen :
        (heap name : ℕ) (attr : V) (is_own : Bool) (v : View (AttributeSet V))
        → (is_own ≡ true
            → contents (insert heap name attr v.thread_attributes).0
              ≡ insert_new name attr (contents v.thread_attributes))
        → Seen name attr is_own v (
            if is_own
            then record v { thread_attributes = (insert heap name attr v.thread_attributes).0 }
            else v)
    insert-Seen heap name attr true v inserted = (inserted refl, refl)
    insert-Seen heap name attr false v inserted = (refl, refl)

    add_thread_attribute-thread_data :
        (heap name : ℕ) (attr : V) (other : ℕ) (source : AttributeSet V) (c : Core (AttributeSet V))
        → let c1 = (add_thread_attribute heap name attr c).0 in
          let v = compose_view no_attributes other source c in
          compose_view no_attributes other source c1 ≡ (
            if other == thread
            then record v { thread_attributes = (insert heap name attr v.thread_attributes).0 }
            else v)
    unfolding add_thread_attribute get_thread_data compose_view
    add_thread_attribute-thread_data heap name attr other source c = ground arith

    -- After a thread has added an attribute, under the conditions of insert-refines, its own views show it
    -- unless its name was there before, and the views of the other threads are as they were.
    add_thread_attribute-seen :
        (heap name : ℕ) (attr : V) (other : ℕ) (source : AttributeSet V) (c : Core (AttributeSet V))
        → IsAttributeSet (get_thread_data no_attributes thread c).0
        → IsFree heap (get_thread_data no_attributes thread c).0
        → FitsAfter name (first_of name (get_thread_data no_attributes thread c).0.table)
        → let c1 = (add_thread_attribute heap name attr c).0 in
          let before = compose_view no_attributes other source c in
          let after = compose_view no_attributes other source c1 in
          (contents after.thread_attributes ≡ (
            if other == thread
            then insert_new name attr (contents before.thread_attributes)
            else contents before.thread_attributes))
          × (after.global_attributes ≡ c.global_attributes)
    unfolding compose_view
    add_thread_attribute-seen heap name attr other source c is free fits =
        let own : ℕ → AttributeSet V = λ t. (get_thread_data no_attributes t c).0 in
        subst (Seen name attr (other == thread) (compose_view no_attributes other source c))
          (sym (add_thread_attribute-thread_data heap name attr other source c))
          (insert-Seen heap name attr (other == thread) (compose_view no_attributes other source c)
            (λ g.
              subst
                (λ t.
                  contents (insert heap name attr (own t)).0
                  ≡ insert_new name attr (contents (own t)))
                (it g) (insert-refines heap name attr (own thread) is free fits).1))
      where
        it : other == thread ≡ true → thread ≡ other
        it g = ground (arith, g)

    -- The calls on global attributes leave the attributes of all threads as they are, those on a thread's
    -- attributes leave the global ones, and to ask for a thread's attributes changes no view.
    attributes_apart :
        (heap name : ℕ) (attr : V) (it : Node V) (other : ℕ) (source : AttributeSet V)
        (c : Core (AttributeSet V))
        → ((add_global_attribute heap name attr c).0.thread_data ≡ c.thread_data)
          × ((remove_global_attribute it c).thread_data ≡ c.thread_data)
          × (get_global_attributes (add_thread_attribute heap name attr c).0
              ≡ get_global_attributes c)
          × (get_global_attributes (remove_thread_attribute it c) ≡ get_global_attributes c)
          × (compose_view no_attributes other source (get_thread_attributes c).1
              ≡ compose_view no_attributes other source c)
    unfolding add_global_attribute remove_global_attribute get_global_attributes
        add_thread_attribute remove_thread_attribute get_thread_attributes get_thread_data
        compose_view
    attributes_apart heap name attr it other source c =
        (refl, refl, ground arith, ground arith, ground arith)
