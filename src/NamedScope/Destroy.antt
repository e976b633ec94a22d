-- ===== src/NamedScope/Destroy.antt =====
-- The destructor of a list of scopes, and what swap() and the destructor leave alone (named_scope.cpp).
use boost_log.Base.{
  ℕ, suc, ◌≡◌, Bool, true, false, ◌||◌, none, some, List, [], ◌∷◌, ◌==◌, length, arith, refl, sym,
  ap, ◌∙◌, subst,
}
use boost_log.NamedScope.{
  Memory, set, destroy_loop, destroy, swap, swap_fields, move_nodes, exchange_nodes,
}
use boost_log.NamedScope.Chain.{has, Distinct, Disjoint, Seg, frame, IsList}
use boost_log.NamedScope.Stack.{Same, Same-refl}
use boost_log.NamedScope.Swap.{exchange_nodes-next, Separate, ends}

module _ {E : Type 0} where
  -- The entries of the cells were destroyed, and nothing else has changed.
  record Freed (m m' : Memory E) (cs : List (ℕ × E)) : Type 0 where
    nexts : m'.next ≡ m.next
    prevs : m'.prev ≡ m.prev
    sizes : m'.size ≡ m.size
    gone : (c : ℕ) → has c cs ≡ true → m'.entry c ≡ none
    kept : (c : ℕ) → has c cs ≡ false → m'.entry c ≡ m.entry c

  destroy_loop-Freed :
      (m : Memory E) (p : ℕ) (cs : List (ℕ × E)) (q r : ℕ)
      → Seg m p cs q
      → has p cs ≡ false
      → Distinct cs
      → m.next q ≡ r
      → has r cs ≡ false
      → (m' : Memory E) × (destroy_loop (length cs) (m.next p) r m ≡ some m') × Freed m m' cs
  unfolding destroy_loop Seg
  destroy_loop-Freed m p [] q r s apart distinct back out = (
    m,
    ground (arith, s, back),
    record {
      nexts = refl;
      prevs = refl;
      sizes = refl;
      gone = λ c i. ground (arith, i);
      kept = λ c i. refl;
    },
  )
  destroy_loop-Freed m p ((a, e) ∷ cs) q r (n, b, h, s) apart distinct back out =
      let m1 : Memory E = record m { entry = set a none m.entry } in
      let s1 =
        frame m m1 a cs q s distinct.0 distinct.1 (λ c i o. refl) (λ c i. refl)
          (λ c i. ground (arith, i, distinct.0)) in
      let (m', run, f) =
        destroy_loop-Freed m1 a cs q r s1 distinct.0 distinct.1 back (ground (arith, out)) in
      let go : destroy_loop (suc (length cs)) (m.next p) r m
          ≡ destroy_loop (length cs) (m.next a) r m1 =
        ground (arith, n, out) in
      (
        m',
        go ∙ run,
        record {
          nexts = f.nexts;
          prevs = f.prevs;
          sizes = f.sizes;
          gone = λ c i. ground (arith, i, f.gone c, f.kept c);
          kept = λ c i. ground (arith, i, f.kept c);
        },
      )

  destroy_by_flag :
      (flag : Bool) (m : Memory E) (r : ℕ) (cs : List (ℕ × E))
      → m.need_to_deallocate r ≡ flag
      → IsList m r cs
      → (m' : Memory E) × (destroy r m ≡ some m')
        × ((s : ℕ) (ds : List (ℕ × E)) → Disjoint ds cs → Same m m' s ds)
        × (flag ≡ true → (c : ℕ) → has c cs ≡ true → m'.entry c ≡ none)
  unfolding destroy
  destroy_by_flag true m r cs at is =
      let (m1, run, f) =
        destroy_loop-Freed m r cs (m.prev r) r is.seg is.apart is.distinct is.back is.apart in
      (
        m1,
        ground (arith, at) ∙ ap (λ k. destroy_loop k (m.next r) r m) is.sized ∙ run,
        λ s ds apart. record {
          nexts = λ c _. ap (λ g. g c) f.nexts;
          prevs = λ c _. ap (λ g. g c) f.prevs;
          kept = λ c i. f.kept c (apart c i);
          size = ap (λ g. g s) f.sizes;
        },
        λ _. f.gone,
      )
  destroy_by_flag false m r cs at is =
      (m, ground (arith, at), λ s ds _. Same-refl m s ds, λ i. ground (arith, i))

  -- The destructor destroys the entries if the list owns them; lists that share no entry with it stay.
  pub destroy-clears :
      (m : Memory E) (r : ℕ) (cs : List (ℕ × E))
      → IsList m r cs
      → (m' : Memory E) × (destroy r m ≡ some m')
        × ((s : ℕ) (ds : List (ℕ × E)) → Disjoint ds cs → Same m m' s ds)
        × (m.need_to_deallocate r ≡ true → (c : ℕ) → has c cs ≡ true → m'.entry c ≡ none)
  destroy-clears m r cs is = destroy_by_flag (m.need_to_deallocate r) m r cs refl is

  -- The nodes of a third list.
  abbrev Outside : ℕ → List (ℕ × E) → ℕ → List (ℕ × E) → ℕ → List (ℕ × E) → Type 0
  Outside r cs t bs s ds =
      (c : ℕ)
      → (s == c || has c ds) ≡ true
      → ((r == c || has c cs) ≡ false) × ((t == c || has c bs) ≡ false)

  pub swap-Same :
      (m : Memory E) (r t : ℕ) (cs bs : List (ℕ × E)) (s : ℕ) (ds : List (ℕ × E))
      → IsList m r cs
      → IsList m t bs
      → Separate r cs t bs
      → Outside r cs t bs s ds
      → Same m (swap r t m) s ds
  unfolding swap move_nodes exchange_nodes
  swap-Same m r t [] [] s ds ir it (ne, r_out, t_out, apart) out =
      let run : m ≡ swap r t m = ground (arith, ir.sized, it.sized) in
      subst (λ m'. Same m m' s ds) run (Same-refl m s ds)
  swap-Same m r t ((a, e) ∷ cs) [] s ds ir it (ne, r_out, t_out, apart) out =
      let (n, b, last) = ends m r a e cs ir in
      record {
        nexts = λ c i. ground (arith, ir.sized, it.sized, out c i, n, b, last);
        prevs = λ c i. ground (arith, ir.sized, it.sized, out c i, n, b, last);
        kept = λ c i. ground (arith, ir.sized, it.sized);
        size = ground (arith, ir.sized, it.sized, out s);
      }
  swap-Same m r t [] ((a, e) ∷ bs) s ds ir it (ne, r_out, t_out, apart) out =
      let (n, b, last) = ends m t a e bs it in
      record {
        nexts = λ c i. ground (arith, ir.sized, it.sized, out c i, n, b, last);
        prevs = λ c i. ground (arith, ir.sized, it.sized, out c i, n, b, last);
        kept = λ c i. ground (arith, ir.sized, it.sized);
        size = ground (arith, ir.sized, it.sized, out s);
      }
  swap-Same m r t ((a, e) ∷ cs) ((b, f) ∷ bs) s ds ir it (ne, r_out, t_out, apart) out =
      let (na, ba, last) = ends m r a e cs ir in
      let (nb, bb, that_last) = ends m t b f bs it in
      let run : swap_fields r t (exchange_nodes r t m) ≡ swap r t m =
        ground (arith, ir.sized, it.sized) in
      record {
        nexts = λ c i.
            sym (ap (λ m'. m'.next c) run)
            ∙ exchange_nodes-next m r t c (ground (arith, na, nb, r_out, ir.apart))
                (ground (arith, na, nb, t_out, it.apart)) (ground (arith, out c i))
                (ground (arith, out c i, last, that_last));
        prevs = λ c i. ground (
          arith,
          ir.sized,
          it.sized,
          out c i,
          na,
          ba,
          last,
          nb,
          bb,
          that_last,
          ne,
          r_out,
          t_out,
          ir.apart,
          it.apart,
        );
        kept = λ c i. ground (arith, ir.sized, it.sized);
        size = ground (arith, ir.sized, it.sized, out s);
      }
