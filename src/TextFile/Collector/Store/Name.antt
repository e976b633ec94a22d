-- ===== src/TextFile/Collector/Store/Name.antt =====
-- The name that store_file (text_file_backend.cpp) chooses for a file.
use boost_log.Base.{
  ℕ, zero, suc, ◌+◌, ◌≤◌, ◌<◌, ◌≡◌, refl, Bool, true, false, List, ltb, arith, ◌⊎◌, inl, inr,
}
use native.Mathlib.Decide.{ℕ_discrete}
use boost_log.TextFile.Collector.Store.{Storage, candidate, mangle, target_path}

-- The first free candidate from the n-th on, or the last one if there is none.
abbrev IsFirstFree : Storage → List ℕ → ℕ → List ℕ → Type 0
IsFirstFree s file_name n path =
    (k : ℕ) × (n ≤ k)
    × (path ≡ candidate s file_name k)
    × ((j : ℕ) → n ≤ j → j < k → s.exists (candidate s file_name j) ≡ true)
    × ((s.exists path ≡ false) ⊎ (s.counter_limit ≤ suc k))

mangle-IsFirstFree :
    (s : Storage) (file_name : List ℕ) (fuel n : ℕ)
    → s.counter_limit ≤ n + fuel
    → IsFirstFree s file_name n (mangle s file_name fuel n)
unfolding mangle
mangle-IsFirstFree s file_name zero n enough =
    (n, omega arith, refl, (λ j h k. absurd (omega arith)), inr (omega arith))
mangle-IsFirstFree s file_name (suc fuel) n enough =
    go (s.exists (candidate s file_name n)) refl (ltb (suc n) s.counter_limit) refl
      (mangle-IsFirstFree s file_name fuel (suc n) (omega arith))
  where
    step :
        (taken : s.exists (candidate s file_name n) ≡ true)
        → IsFirstFree s file_name (suc n) (mangle s file_name fuel (suc n))
        → IsFirstFree s file_name n (mangle s file_name fuel (suc n))
    step taken (k, below, is, busy, end) = (k, omega arith, is, earlier, end)
      where
        earlier : (j : ℕ) → n ≤ j → j < k → s.exists (candidate s file_name j) ≡ true
        earlier j h l = elim (ℕ_discrete n j) [
          | yes e ↦ rw e at taken
          | no ne ↦ busy j (omega arith) l
        ]

    go :
        (taken : Bool)
        → s.exists (candidate s file_name n) ≡ taken
        → (more : Bool) → ltb (suc n) s.counter_limit ≡ more
        → IsFirstFree s file_name (suc n) (mangle s file_name fuel (suc n))
        → IsFirstFree s file_name n (mangle s file_name (suc fuel) n)
    go false e more l rest =
        rw (e, mangle) (n, omega arith, refl, (λ j h k. absurd (omega arith)), inl e)
    go true e true l rest = rw (e, l, mangle) (step e rest)
    go true e false l rest =
        rw (e, l, mangle)
          (n, omega arith, refl, (λ j h k. absurd (omega arith)), inr (ground arith))

-- The path that store_file gives to a file: its own name in the storage if it is there already, or if
-- no file has that name; else the name with the first counter appended under which no file exists, or,
-- if there are files under all counters below the limit, with the last counter.
target_path_lem :
    (s : Storage) (file_name : List ℕ)
    → ((target_path s file_name ≡ s.join s.storage_dir file_name)
        × ((s.is_in_target_dir ≡ true) ⊎ (s.exists (s.join s.storage_dir file_name) ≡ false)))
      ⊎ ((s.is_in_target_dir ≡ false)
          × (s.exists (s.join s.storage_dir file_name) ≡ true)
          × IsFirstFree s file_name 0 (target_path s file_name))
unfolding target_path
target_path_lem s file_name =
    ground (arith, mangle-IsFirstFree s file_name s.counter_limit 0 (omega arith))
