-- ===== src/TextFile/Collector/Evict/Bounds.antt =====
-- What the eviction of store_file (text_file_backend.cpp) leaves.
use boost_log.Base.{
  subst, ℕ, ◌+◌, ◌<◌, ◌≡◌, refl, ap, sym, ◌∙◌, Bool, true, false, List, [], ◌∷◌, ◌++◌, not, ◌==◌,
  if◌then◌else◌, arith, All, ◌⊎◌, inl, inr,
}
use boost_log.TextFile.Collector.{FileInfo, uintmax_mod, add_size, sub_size}
use boost_log.TextFile.Collector.Evict.{
  Erasure, absent, removed, space_unknown, locked, fails, Eviction, is_tight, evict,
}

-- The total size as the collector counts it.
unfoldable pub sum_sizes : List FileInfo → ℕ
unfolding add_size
sum_sizes [] = 0
sum_sizes (f ∷ fs) = add_size f.size (sum_sizes fs)

-- A size is at most what its type holds.
abbrev pub IsSize : FileInfo → Type 0
IsSize f = f.size < uintmax_mod

-- A file that the loop could not take off the list.
abbrev pub is_stuck : ℕ → Erasure → Bool
is_stuck min_free_space locked = true
is_stuck min_free_space space_unknown = not (min_free_space == 0)
is_stuck min_free_space _ = false

unfoldable pub stuck_files : (FileInfo → Erasure) → ℕ → List FileInfo → List FileInfo
stuck_files erase m [] = []
stuck_files erase m (f ∷ fs) =
    if is_stuck m (erase f) then f ∷ stuck_files erase m fs else stuck_files erase m fs

drop_size :
    (rest size sum : ℕ)
    → size < uintmax_mod
    → sub_size (add_size rest (add_size size sum)) size ≡ add_size rest sum
unfolding add_size sub_size
drop_size rest size sum h = omega arith

keep_size : (rest size sum : ℕ) → add_size rest (add_size size sum) ≡ add_size (rest + size) sum
unfolding add_size
keep_size rest size sum = omega arith

module _ (erase : FileInfo → Erasure) (max_size min_free_space new_size : ℕ) where
  abbrev evicted : List FileInfo → ℕ → ℕ → Eviction
  evicted = evict erase max_size min_free_space new_size

  pub counts_from :
      (fs : List FileInfo) (total_size free_space : ℕ) (rest : ℕ)
      → All IsSize fs
      → total_size ≡ add_size rest (sum_sizes fs)
      → (evicted fs total_size free_space).total_size
        ≡ add_size rest (sum_sizes (evicted fs total_size free_space).files)
  unfolding evict sum_sizes
  counts_from [] total_size free_space rest sizes c = c
  counts_from (f ∷ fs) total_size free_space rest sizes c =
      let dropped : sub_size total_size f.size ≡ add_size rest (sum_sizes fs) =
        ap (λ n. sub_size n f.size) c ∙ drop_size rest f.size (sum_sizes fs) sizes.0 in
      let kept : total_size ≡ add_size (rest + f.size) (sum_sizes fs) =
        c ∙ keep_size rest f.size (sum_sizes fs) in
      let skip = evicted fs total_size free_space in
      let later : (space : ℕ)
          → (evicted fs (sub_size total_size f.size) space).total_size
            ≡ add_size rest (sum_sizes (evicted fs (sub_size total_size f.size) space).files) =
        λ space. counts_from fs (sub_size total_size f.size) space rest sizes.1 dropped in
      let stay : skip.total_size ≡ add_size rest (add_size f.size (sum_sizes skip.files)) =
        counts_from fs total_size free_space (rest + f.size) sizes.1 kept
        ∙ sym (keep_size rest f.size (sum_sizes skip.files)) in
      go (erase f) refl later stay
    where
      skip : Eviction
      skip = evicted fs total_size free_space

      go :
          (answer : Erasure)
          → erase f ≡ answer
          → ((space : ℕ)
              → (evicted fs (sub_size total_size f.size) space).total_size
                ≡ add_size rest (sum_sizes (evicted fs (sub_size total_size f.size) space).files))
          → skip.total_size ≡ add_size rest (add_size f.size (sum_sizes skip.files))
          → (evicted (f ∷ fs) total_size free_space).total_size
            ≡ add_size rest (sum_sizes (evicted (f ∷ fs) total_size free_space).files)
      go absent e later stay = ground (arith, later free_space)
      go (removed space) e later stay = ground (arith, later free_space, later space)
      go space_unknown e later stay = ground (arith, later free_space)
      go locked e later stay = ground arith
      go fails e later stay = ground arith

  -- The test of the loop holds at each of the files, with the size and the space that are left there.
  abbrev AllTight : List FileInfo → ℕ → ℕ → Type 0
  AllTight [] total_size free_space = Unit {0}
  AllTight (f ∷ fs) total_size free_space =
      let one = evicted (f ∷ []) total_size free_space in
      (is_tight erase max_size min_free_space new_size total_size free_space ≡ true)
      × AllTight fs one.total_size one.free_space

  -- The list splits into an old part, at each file of which the new one did not fit yet, and of which only the
  -- files that cannot be erased are left, and a new part that is left alone; if there is a new part, the
  -- new file fits.
  abbrev pub IsOldestFirst : List FileInfo → ℕ → ℕ → Eviction → Type 0
  IsOldestFirst fs total_size free_space r =
      (old : List FileInfo) × (new : List FileInfo) × (fs ≡ old ++ new)
      × (r.files ≡ stuck_files erase min_free_space old ++ new)
      × AllTight old total_size free_space
      × ((new ≡ [])
          ⊎ (is_tight erase max_size min_free_space new_size r.total_size r.free_space ≡ false))

  module _ (f : FileInfo) (fs : List FileInfo) (total_size free_space size space : ℕ)
      (tight : is_tight erase max_size min_free_space new_size total_size free_space ≡ true)
      (to_size : (evicted (f ∷ []) total_size free_space).total_size ≡ size)
      (to_space : (evicted (f ∷ []) total_size free_space).free_space ≡ space) where
    tight_first :
        (old : List FileInfo) → AllTight old size space → AllTight (f ∷ old) total_size free_space
    tight_first old all = (
      tight,
      subst (λ k. AllTight old k (evicted (f ∷ []) total_size free_space).free_space) (sym to_size)
          (subst (AllTight old size) (sym to_space) all),
    )

    drop-IsOldestFirst :
        (r : Eviction)
        → is_stuck min_free_space (erase f) ≡ false
        → IsOldestFirst fs size space r
        → IsOldestFirst (f ∷ fs) total_size free_space r
    unfolding stuck_files
    drop-IsOldestFirst r h (old, new, p, q, all, t) =
        (f ∷ old, new, ap (λ xs. f ∷ xs) p, rw h q, tight_first old all, t)

    keep-IsOldestFirst :
        (r : Eviction)
        → is_stuck min_free_space (erase f) ≡ true
        → IsOldestFirst fs size space r
        → IsOldestFirst (f ∷ fs) total_size free_space (record r { files = f ∷ r.files })
    unfolding stuck_files
    keep-IsOldestFirst r h (old, new, p, q, all, t) =
        (f ∷ old, new, ap (λ xs. f ∷ xs) p, rw h (ap (λ xs. f ∷ xs) q), tight_first old all, t)

  -- Unless an exception leaves the loop, it erases from the oldest file on and no further than needed:
  -- the list is an old part and a new part; at each file of the old part the new file does not fit the limits
  -- with the size and the space that the loop counts there; of the old part just the files are left that could
  -- not be erased; the new part is left as it was, and if it is not empty then the new file fits at the end.
  pub evict-IsOldestFirst :
      (fs : List FileInfo) (total_size free_space : ℕ)
      → (evicted fs total_size free_space).threw ≡ false
      → IsOldestFirst fs total_size free_space (evicted fs total_size free_space)
  unfolding evict stuck_files
  evict-IsOldestFirst [] total_size free_space h = ([], [], refl, refl, tt, inl refl)
  evict-IsOldestFirst (f ∷ fs) total_size free_space h =
      go (erase f) refl (is_tight erase max_size min_free_space new_size total_size free_space) refl
        (evict-IsOldestFirst fs (sub_size total_size f.size))
        (evict-IsOldestFirst fs total_size free_space) h
    where
      dropped : ℕ → Eviction
      dropped space = evicted fs (sub_size total_size f.size) space

      kept : Eviction
      kept = evicted fs total_size free_space

      kept_first : Eviction
      kept_first = record kept { files = f ∷ kept.files }

      unknown :
          (unset : Bool)
          → (min_free_space == 0) ≡ unset
          → erase f ≡ space_unknown
          → is_tight erase max_size min_free_space new_size total_size free_space ≡ true
          → ((dropped free_space).threw ≡ false
              → IsOldestFirst fs (sub_size total_size f.size) free_space (dropped free_space))
          → (kept.threw ≡ false → IsOldestFirst fs total_size free_space kept)
          → (if unset then dropped free_space else kept_first).threw ≡ false
          → IsOldestFirst
              (f ∷ fs)
              total_size
              free_space
              (if unset then dropped free_space else kept_first)
      unknown true u e t later stay h =
          drop-IsOldestFirst f fs total_size free_space (sub_size total_size f.size) free_space t
            (ground (arith, t, e, u)) (ground (arith, t, e, u)) (dropped free_space) (ground arith)
            (later h)
      unknown false u e t later stay h =
          keep-IsOldestFirst f fs total_size free_space total_size free_space t
            (ground (arith, t, e, u)) (ground (arith, t, e, u)) kept (ground arith) (stay h)

      go :
          (answer : Erasure)
          → erase f ≡ answer
          → (tight : Bool)
          → is_tight erase max_size min_free_space new_size total_size free_space ≡ tight
          → ((space : ℕ)
              → (dropped space).threw ≡ false
              → IsOldestFirst fs (sub_size total_size f.size) space (dropped space))
          → (kept.threw ≡ false → IsOldestFirst fs total_size free_space kept)
          → (evicted (f ∷ fs) total_size free_space).threw ≡ false
          → IsOldestFirst (f ∷ fs) total_size free_space (evicted (f ∷ fs) total_size free_space)
      go answer e false t later stay h =
          ([], f ∷ fs, refl, rw (t, evict), tt, inr (rw (t, evict) t))
      go absent e true t later stay h =
          rw (t, e, evict)
            (drop-IsOldestFirst f fs total_size free_space (sub_size total_size f.size) free_space t
              (ground (arith, t, e)) (ground (arith, t, e)) (dropped free_space) (rw e)
              (later free_space (rw (t, e, evict) at h)))
      go (removed space) e true t later stay h =
          let left : ℕ = if min_free_space == 0 then free_space else space in
          rw (t, e, evict)
            (drop-IsOldestFirst f fs total_size free_space (sub_size total_size f.size) left t
              (ground (arith, t, e)) (ground (arith, t, e)) (dropped left) (rw e)
              (later left (rw (t, e, evict) at h)))
      go space_unknown e true t later stay h =
          rw (t, e, evict)
            (unknown (min_free_space == 0) refl e t (later free_space) stay (rw (t, e, evict) at h))
      go locked e true t later stay h =
          rw (t, e, evict)
            (keep-IsOldestFirst f fs total_size free_space total_size free_space t
              (ground (arith, t, e)) (ground (arith, t, e)) kept (rw e)
              (stay (rw (t, e, evict) at h)))
      go fails e true t later stay h = cc (rw (t, e, evict) at h)
