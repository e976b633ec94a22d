-- ===== src/TextFile/Collector/Repository.antt =====
-- file_collector_repository (text_file_backend.cpp): one collector for each directory. The directories
-- that two paths name are compared by filesystem::equivalent, which is an argument.
use boost_log.Base.{
  ℕ, suc, ◌+◌, ◌≤◌, ◌<◌, ◌≡◌, All, refl, Bool, true, Option, none, some, List, [], ◌∷◌, ◌++◌,
  if◌then◌else◌, arith,
}
use boost_log.TextFile.Collector.{Collector, update}

-- A collector of the list with its storage directory; `alive` is whether shared_from_this works, that is
-- whether the collector is not just being destroyed.
pub record Registered : Type 0 where
  pub storage_dir : List ℕ
  pub alive : Bool
  pub collector : Collector

abbrev new_collector : List ℕ → ℕ → ℕ → Registered
new_collector dir max_size min_free_space = record {
  storage_dir = dir;
  alive = true;
  collector = record {
    max_size = max_size;
    min_free_space = min_free_space;
    files = [];
    total_size = 0;
  };
}

module _ (equivalent : List ℕ → List ℕ → Bool) where
  -- The collector that governs the directory is found and its limits are updated; `none` if there is
  -- none or if it is being destroyed.
  find_and_update : List ℕ → ℕ → ℕ → List Registered → Option (Collector × List Registered)
  unfolding update
  find_and_update dir max_size min_free_space [] = none
  find_and_update dir max_size min_free_space (r ∷ rs) =
      let c = update max_size min_free_space r.collector in
      if equivalent r.storage_dir dir
      then (if r.alive then some (c, record r { collector = c } ∷ rs) else none)
      else elim (find_and_update dir max_size min_free_space rs) [
        | none ↦ none
        | some (found, rest) ↦ some (found, r ∷ rest)
      ]

  get_collector : List ℕ → ℕ → ℕ → List Registered → Collector × List Registered
  unfolding find_and_update
  get_collector dir max_size min_free_space rs =
      elim (find_and_update dir max_size min_free_space rs) [
        | some found ↦ found
        | none ↦ (
          (new_collector dir max_size min_free_space).collector,
          rs ++ new_collector dir max_size min_free_space ∷ [],
        )
      ]

  -- How many collectors of the list govern a directory.
  governors : List ℕ → List Registered → ℕ
  governors dir [] = 0
  governors dir (r ∷ rs) =
      if equivalent r.storage_dir dir then suc (governors dir rs) else governors dir rs

  abbrev FoundKeeps :
      List ℕ → ℕ → ℕ → List Registered → Option (Collector × List Registered) → Type 0
  FoundKeeps dir max_size min_free_space rs none = governors dir rs ≡ 0
  FoundKeeps dir max_size min_free_space rs (some (c, rs')) =
      (c.max_size ≤ max_size)
      × (min_free_space ≤ c.min_free_space)
      × (governors dir rs' ≡ governors dir rs)
      × (0 < governors dir rs)

  find_and_update-Keeps :
      (dir : List ℕ) (max_size min_free_space : ℕ) (rs : List Registered)
      → All (λ r. r.alive ≡ true) rs
      → FoundKeeps dir max_size min_free_space rs (find_and_update dir max_size min_free_space rs)
  unfolding find_and_update governors
  find_and_update-Keeps dir max_size min_free_space [] alive = refl
  find_and_update-Keeps dir max_size min_free_space (r ∷ rs) alive =
      ground (arith, find_and_update-Keeps dir max_size min_free_space rs alive.1)

  governors-append :
      (dir : List ℕ) (rs : List Registered) (r : Registered)
      → governors dir (rs ++ r ∷ [])
        ≡ (if equivalent r.storage_dir dir then 1 else 0) + governors dir rs
  unfolding governors
  governors-append dir [] r = ground arith
  governors-append dir (x ∷ rs) r = ground (arith, governors-append dir rs r)

  -- While no collector is being destroyed and a directory is equivalent to itself: get_collector
  -- returns a collector whose size limit is at most, and whose free space limit at least, the one that
  -- was asked for; and if one collector at most governed the directory before, then exactly one does
  -- afterwards.
  get_collector-one :
      (dir : List ℕ) (max_size min_free_space : ℕ) (rs : List Registered)
      → All (λ r. r.alive ≡ true) rs
      → equivalent dir dir ≡ true
      → governors dir rs ≤ 1
      → let r = get_collector dir max_size min_free_space rs in
        (r.0.max_size ≤ max_size) × (min_free_space ≤ r.0.min_free_space) × (governors dir r.1 ≡ 1)
  unfolding get_collector
  get_collector-one dir max_size min_free_space rs alive same one = ground (
    arith,
    find_and_update-Keeps dir max_size min_free_space rs alive,
    governors-append dir rs (new_collector dir max_size min_free_space),
  )
