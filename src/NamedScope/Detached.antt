-- ===== src/NamedScope/Detached.antt =====
-- Values of the attribute that were detached from their thread (basic_named_scope_value in named_scope.cpp),
-- which goes on.
use boost_log.Base.{
  ℕ, ◌+◌, ◌≡◌, ◌≤◌, ◌<◌, ◌^◌, true, false, ◌||◌, some, List, ◌==◌, ◌++◌, length, length-append,
  arith, refl,
}
use boost_log.NamedScope.{Memory, scopes}
use boost_log.NamedScope.Chain.{has, entries}
use boost_log.NamedScope.Stack.{Same-IsList}
use boost_log.NamedScope.Copy.{copies, has-copies, in_array}
use boost_log.NamedScope.Copied.{Elsewhere-Same, copy-IsList, scopes-copies}
use boost_log.NamedScope.Thread.{
  Thread, Value, Body, get_scope_list, get_value, detach_from_thread, run_body,
}
use boost_log.NamedScope.Nested.{IsStack}
use boost_log.NamedScope.Blocks.{depth, run_body-enclosing}
use boost_log.NamedScope.Keeps.{Apart, Same-trans, run_body-Same}
use boost_log.NamedScope.Moves.{
  leave_all, enter_all, cells_of, leave_all-IsMoved, enter_all-IsMoved, length-cells_of,
}

module _ {E : Type 0} where
  -- The addresses of the copy's root and array are below those of the sentries, and hold no scopes.
  pub record IsFresh (v array sp r : ℕ) (cs : List (ℕ × E)) : Type 0 where
    pub root : v < sp
    pub other_root : (v == r || has v cs) ≡ false
    pub fits : array + length cs ≤ sp
    pub unused :
        (c : ℕ) → in_array array (length cs) c ≡ true → (v == c || (r == c || has c cs)) ≡ false

  -- When the stack of the thread, the list at `r`, holds the scopes of `kept` and then those of `gone`, and the copy
  -- has fresh addresses, a new value can be detached, which leaves the stack as it is. However the thread goes on
  -- then, by leaving the blocks of `gone`, whose entries are destroyed, by entering the blocks of `path`, and by
  -- running a body inside them, as far as the size has room for it, the value gives the scopes of `kept` and
  -- `gone`, and the stack holds those of `kept` and `path`.
  pub detach_from_thread-keeps :
      (m : Memory E) (new sp r v array : ℕ) (kept gone : List (ℕ × E)) (path : List E)
      (body : Body E)
      → IsStack (record { memory = m; p_scopes = some r }) new sp (kept ++ gone)
      → IsFresh v array sp r (kept ++ gone)
      → length kept + length path + depth body < 2 ^ 64
      → (value : Value) × (m' : Memory E) × (detach_from_thread array
            (get_value new v (record { memory = m; p_scopes = some r })).0
            m
          ≡ some (value, m'))
        × IsStack (record { memory = m'; p_scopes = some r }) new sp (kept ++ gone)
        × let t : Thread E = record { memory = m'; p_scopes = some r } in
          let inside = enter_all new sp path (leave_all new gone t) in
          let after = (run_body new (sp + length path) body inside).thread in
          (scopes value.p_value after.memory ≡ some (entries (kept ++ gone)))
          × IsStack after new (sp + length path) (kept ++ cells_of sp path)
  unfolding detach_from_thread get_value get_scope_list Apart
  detach_from_thread-keeps m new sp r v array kept gone path body is fresh room =
      let cs = kept ++ gone in
      let (list, lt) = is.rooted in
      let (m', run, copied, _, elsewhere) =
        copy-IsList m r v array cs list (ground (arith, fresh.other_root))
          (ground (arith, fresh.other_root)) fresh.unused in
      let ds = copies array cs in
      let out : (c : ℕ)
          → (r == c || has c cs) ≡ true
          → (v == c || in_array array (length cs) c) ≡ false =
        λ c i. ground (arith, i, fresh.unused c, fresh.other_root) in
      let stack : IsStack (record { memory = m'; p_scopes = some r }) new sp cs = record {
        rooted = (
          Same-IsList m m' r cs list (Elsewhere-Same m m' v array (length cs) r cs elsewhere out),
          lt,
        );
        below = is.below;
      } in
      let apart : Apart r cs sp v ds = λ c i. (
        ground (arith, i, has-copies c array cs, fresh.root, fresh.fits),
        ground (arith, i, has-copies c array cs, fresh.unused c, fresh.other_root),
      ) in
      let t : Thread E = record { memory = m'; p_scopes = some r } in
      let now = sp + length path in
      let open_cells = kept ++ cells_of sp path in
      let inside = enter_all new sp path (leave_all new gone t) in
      let moved =
        enter_all-IsMoved t (leave_all new gone t) new sp r path kept v ds
          (leave_all-IsMoved t new sp r kept gone v ds stack refl apart) (omega (arith, room)) in
      let fits : length open_cells + depth body < 2 ^ 64 =
        omega (arith, room, length-append kept (cells_of sp path), length-cells_of sp path) in
      let (same, _) =
        run_body-Same new now body inside r open_cells v ds moved.stack moved.listed fits
          moved.apart in
      let (_, _, after) = run_body-enclosing new now body inside open_cells moved.stack fits in
      let m2 = (run_body new now body inside).thread.memory in
      (
        record { p_value = v; detached_value = v; is_detached = true },
        m',
        ground (arith, run),
        stack,
        (
          scopes-copies m2 v array cs
              (Same-IsList m' m2 v ds copied (Same-trans m' inside.memory m2 v ds moved.same same)),
          after,
        ),
      )
