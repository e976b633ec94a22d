-- ===== src/NamedScope.antt =====
-- basic_named_scope_list (attributes/named_scope.hpp, named_scope.cpp): the list of the scopes that a thread
-- is in. Its nodes are entries of scopes, which live on the stacks of threads or in an array that a copy of
-- a list has allocated, and the root node in the list itself.
pub mod Chain
pub mod Stack
pub mod Copy
pub mod Copied
pub mod Swap
pub mod Thread
pub mod Nested
pub mod Blocks
pub mod Keeps
pub mod Moves
pub mod Detached
pub mod Destroy
pub mod Assign
mod Examples
use boost_log.Base.{
  ℕ, zero, suc, ◌+◌, ◌-◌, ◌%◌, ◌^◌, Bool, true, false, not, Option, none, some, List, [], ◌∷◌, ◌==◌,
  if◌then◌else◌,
}

-- The fields of the objects at addresses: those of nodes, and those of lists, whose address is that of their
-- root node. An address without an entry is no scope, or one that was destroyed.
pub record Memory (E : Type 0) : Type 0 where
  pub prev : ℕ → ℕ
  pub next : ℕ → ℕ
  pub entry : ℕ → Option E
  pub size : ℕ → ℕ
  pub need_to_deallocate : ℕ → Bool

abbrev pub set : {T : Type 0} → ℕ → T → (ℕ → T) → ℕ → T
set a v f c = if c == a then v else f c

module _ {E : Type 0} where
  -- The default constructor of the list.
  unfoldable pub construct : ℕ → Memory E → Memory E
  construct list m = record m {
    prev = set list list m.prev;
    next = set list list m.next;
    size = set list 0 m.size;
    need_to_deallocate = set list false m.need_to_deallocate;
  }

  -- The constructor of an entry.
  pub construct_entry : ℕ → E → Memory E → Memory E
  construct_entry a e m = record m {
    prev = set a a m.prev;
    next = set a a m.next;
    entry = set a (some e) m.entry;
  }

  pub push_back : ℕ → ℕ → Memory E → Memory E
  push_back list a m =
      let top = m.prev list in
      record m {
        prev = set list a (set a top m.prev);
        next = set top a (set a list m.next);
        size = set list ((m.size list + 1) % 2 ^ 64) m.size;
      }

  pub pop_back : ℕ → Memory E → Memory E
  pop_back list m =
      let top = m.prev list in
      let next1 = set (m.prev top) (m.next top) m.next in
      record m {
        prev = set (next1 top) (m.prev top) m.prev;
        next = next1;
        size = set list ((m.size list + 2 ^ 64 - 1) % 2 ^ 64) m.size;
      }

  -- The entries from an iterator on, if none that is reached was destroyed.
  pub iterate : ℕ → ℕ → ℕ → Memory E → Option (List E)
  iterate zero it end m = if it == end then some [] else none
  iterate (suc fuel) it end m =
      let rest = iterate fuel (m.next it) end m in
      if it == end then some [] else elim (m.entry it) [
        | none ↦ none
        | some e ↦ elim rest [ none ↦ none | some es ↦ some (e ∷ es) ]
      ]

  -- The elements between begin() and end().
  pub scopes : ℕ → Memory E → Option (List E)
  unfolding iterate
  scopes list m = iterate (m.size list) (m.next list) list m

  -- The copy constructor. The loop, from the iterator `src`, with the next element `p` of the array; the
  -- copy of an entry copies its links too.
  pub copy_loop : ℕ → ℕ → ℕ → ℕ → ℕ → Memory E → Option (ℕ × Memory E)
  copy_loop zero src end p prev m = if src == end then some (prev, m) else none
  copy_loop (suc fuel) src end p prev m =
      let m1 : Memory E = record m {
        entry = set p (m.entry src) m.entry;
        prev = set p prev m.prev;
        next = set prev p (set p (m.next src) m.next);
      } in
      let rest = copy_loop fuel (m1.next src) end (p + 1) p m1 in
      if src == end then some (prev, m) else elim (m.entry src) [ none ↦ none | some _ ↦ rest ]

  -- `array` is the address that the allocator returns.
  unfoldable pub copy : ℕ → ℕ → ℕ → Memory E → Option (Memory E)
  unfolding construct copy_loop
  copy array list that m =
      let m1 : Memory E = record (construct list m) {
        size = set list (m.size that) m.size;
        need_to_deallocate = set list (not (m.size that == 0)) m.need_to_deallocate;
      } in
      if m.size that == 0
      then some m1
      else elim (copy_loop (m.size that) (m1.next that) that array list m1) [
        | none ↦ none
        | some (prev, m2) ↦
            some (record m2 { prev = set list prev m2.prev; next = set prev list m2.next })
      ]

  -- The destructor.
  pub destroy_loop : ℕ → ℕ → ℕ → Memory E → Option (Memory E)
  destroy_loop zero it end m = if it == end then some m else none
  destroy_loop (suc fuel) it end m =
      let rest = destroy_loop fuel (m.next it) end (record m { entry = set it none m.entry }) in
      if it == end then some m else rest

  unfoldable pub destroy : ℕ → Memory E → Option (Memory E)
  unfolding destroy_loop
  destroy list m =
      if m.need_to_deallocate list then destroy_loop (m.size list) (m.next list) list m else some m

  -- The end of swap(): the sizes and the flags.
  abbrev pub swap_fields : ℕ → ℕ → Memory E → Memory E
  swap_fields list that m = record m {
    size = set list (m.size that) (set that (m.size list) m.size);
    need_to_deallocate =
        set list (m.need_to_deallocate that)
          (set that (m.need_to_deallocate list) m.need_to_deallocate);
  }

  -- swap() where one list, `from`, is not empty.
  pub move_nodes : ℕ → ℕ → Memory E → Memory E
  move_nodes from to m =
      let prev1 = set (m.next from) to m.prev in
      let next1 = set (m.prev from) to m.next in
      record m {
        prev = set from from (set to (prev1 from) prev1);
        next = set from from (set to (next1 from) next1);
      }

  -- swap() where both are not empty: the links to the root nodes, and the root nodes themselves.
  pub exchange_nodes : ℕ → ℕ → Memory E → Memory E
  exchange_nodes list that m =
      let first = m.next list in
      let that_first = m.next that in
      let prev1 = set first (m.prev that_first) (set that_first (m.prev first) m.prev) in
      let last = prev1 list in
      let that_last = prev1 that in
      let next1 = set last (m.next that_last) (set that_last (m.next last) m.next) in
      record m {
        prev = set list (prev1 that) (set that (prev1 list) prev1);
        next = set list (next1 that) (set that (next1 list) next1);
      }

  pub swap : ℕ → ℕ → Memory E → Memory E
  unfolding move_nodes exchange_nodes
  swap list that m =
      if m.size list == 0
      then (if m.size that == 0 then m else swap_fields list that (move_nodes that list m))
      else (if m.size that == 0
          then swap_fields list that (move_nodes list that m)
          else swap_fields list that (exchange_nodes list that m))

  -- operator=, with the temporary list at `tmp`.
  pub assign : ℕ → ℕ → ℕ → ℕ → Memory E → Option (Memory E)
  unfolding copy swap destroy
  assign array tmp list that m =
      if list == that
      then some m
      else elim (copy array tmp that m) [ none ↦ none | some m1 ↦ destroy tmp (swap list tmp m1) ]
