-- ===== src/NamedScope/Moves.antt =====
-- A thread that leaves some of the blocks that it is in, and enters others (the sentries of
-- attributes/named_scope.hpp).
use mathlib.Core.List.{append_assoc, append-nil}
use boost_log.Base.{
  ℕ, suc, ◌+◌, ◌≡◌, ◌<◌, ◌^◌, some, List, [], ◌∷◌, ◌++◌, length, length-append, arith, refl, sym,
  subst,
}
use boost_log.NamedScope.Chain.{has-append}
use boost_log.NamedScope.Stack.{Same, Same-refl}
use boost_log.NamedScope.Thread.{Thread, construct_sentry, destroy_sentry}
use boost_log.NamedScope.Nested.{IsStack, construct_sentry-IsStack, destroy_sentry-IsStack}
use boost_log.NamedScope.Keeps.{
  Apart, Same-trans, Apart-inside, construct_sentry-Same, destroy_sentry-Same,
}

module _ {E : Type 0} where
  -- The sentries of the cells are destroyed, the last one first.
  pub leave_all : ℕ → List (ℕ × E) → Thread E → Thread E
  unfolding destroy_sentry
  leave_all new [] t = t
  leave_all new ((a, e) ∷ gone) t = destroy_sentry new a (leave_all new gone t)

  -- Sentries are constructed at `sp` and above.
  pub enter_all : ℕ → ℕ → List E → Thread E → Thread E
  unfolding construct_sentry
  enter_all new sp [] t = t
  enter_all new sp (e ∷ path) t = enter_all new (suc sp) path (construct_sentry new sp e t)

  unfoldable pub cells_of : ℕ → List E → List (ℕ × E)
  cells_of sp [] = []
  cells_of sp (e ∷ path) = (sp, e) ∷ cells_of (suc sp) path

  -- The stack holds `cs`, and the list at `s` is as in the thread before.
  pub record IsMoved (t t1 : Thread E) (new sp r : ℕ) (cs : List (ℕ × E)) (s : ℕ)
      (ds : List (ℕ × E)) : Type 0 where
    pub stack : IsStack t1 new sp cs
    pub listed : t1.p_scopes ≡ some r
    pub apart : Apart r cs sp s ds
    pub same : Same t.memory t1.memory s ds

  Apart-less :
      (r : ℕ) (cs cs' : List (ℕ × E)) (sp s : ℕ) (ds : List (ℕ × E))
      → Apart r (cs ++ cs') sp s ds
      → Apart r cs sp s ds
  unfolding Apart
  Apart-less r cs cs' sp s ds apart c i =
      (ground (arith, apart c i), ground (arith, apart c i, has-append c cs cs'))

  pub leave_all-IsMoved :
      (t : Thread E) (new sp r : ℕ) (kept gone : List (ℕ × E)) (s : ℕ) (ds : List (ℕ × E))
      → IsStack t new sp (kept ++ gone)
      → t.p_scopes ≡ some r
      → Apart r (kept ++ gone) sp s ds
      → IsMoved t (leave_all new gone t) new sp r kept s ds
  unfolding leave_all
  leave_all-IsMoved t new sp r kept [] s ds is listed apart =
      subst (λ cs. IsMoved t t new sp r cs s ds) (append-nil kept)
        (record { stack = is; listed = listed; apart = apart; same = Same-refl t.memory s ds })
  leave_all-IsMoved t new sp r kept ((a, e) ∷ gone) s ds is listed apart =
      let assoc = sym (append_assoc kept ((a, e) ∷ []) gone) in
      let t1 = leave_all new gone t in
      let moved =
        leave_all-IsMoved t new sp r (kept ++ (a, e) ∷ []) gone s ds
          (subst (IsStack t new sp) assoc is) listed
          (subst (λ cs. Apart r cs sp s ds) assoc apart) in
      let (same, listed1) =
        destroy_sentry-Same t1 new sp r a e kept s ds moved.stack moved.listed moved.apart in
      record {
        stack = destroy_sentry-IsStack t1 new sp sp a e kept moved.stack (λ c lt ne. lt);
        listed = listed1;
        apart = Apart-less r kept ((a, e) ∷ []) sp s ds moved.apart;
        same = Same-trans t.memory t1.memory (destroy_sentry new a t1).memory s ds moved.same same;
      }

  pub enter_all-IsMoved :
      (t t1 : Thread E) (new sp r : ℕ) (path : List E) (cs : List (ℕ × E)) (s : ℕ)
      (ds : List (ℕ × E))
      → IsMoved t t1 new sp r cs s ds
      → length cs + length path < 2 ^ 64
      → IsMoved t (enter_all new sp path t1) new (sp + length path) r (cs ++ cells_of sp path) s ds
  unfolding enter_all cells_of
  enter_all-IsMoved t t1 new sp r [] cs s ds moved room =
      let same_sp : sp ≡ sp + 0 = omega arith in
      subst (λ n. IsMoved t t1 new n r (cs ++ []) s ds) same_sp
        (subst (λ cs'. IsMoved t t1 new sp r cs' s ds) (sym (append-nil cs)) moved)
  enter_all-IsMoved t t1 new sp r (e ∷ path) cs s ds moved room =
      let t2 = construct_sentry new sp e t1 in
      let (same, listed) =
        construct_sentry-Same t1 new sp r e cs s ds moved.stack moved.listed moved.apart in
      let entered : IsMoved t t2 new (suc sp) r (cs ++ (sp, e) ∷ []) s ds = record {
        stack = construct_sentry-IsStack t1 new sp e cs moved.stack (ground (arith, room));
        listed = listed;
        apart = Apart-inside r cs sp e s ds moved.apart;
        same = Same-trans t.memory t1.memory t2.memory s ds moved.same same;
      } in
      let last =
        enter_all-IsMoved t t2 new (suc sp) r path (cs ++ (sp, e) ∷ []) s ds entered
          (ground (arith, room, length-append cs ((sp, e) ∷ []))) in
      let same_sp : suc sp + length path ≡ sp + suc (length path) = omega arith in
      subst
        (λ n.
          IsMoved t (enter_all new (suc sp) path t2) new n r
            (cs ++ (sp, e) ∷ cells_of (suc sp) path) s ds)
        same_sp
        (subst
          (λ cs'. IsMoved t (enter_all new (suc sp) path t2) new (suc sp + length path) r cs' s ds)
          (append_assoc cs ((sp, e) ∷ []) (cells_of (suc sp) path)) last)

  pub length-cells_of : (sp : ℕ) (path : List E) → length (cells_of sp path) ≡ length path
  unfolding cells_of
  length-cells_of sp [] = refl
  length-cells_of sp (e ∷ path) = ground (arith, length-cells_of (suc sp) path)
