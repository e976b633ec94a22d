-- ===== src/TextFile/Collector/Store/Total.antt =====
-- The total size after store_file (text_file_backend.cpp).
use boost_log.Base.{
  ℕ, ◌≤◌, ◌≡◌, refl, sym, ap, ◌∙◌, subst, false, List, [], ◌∷◌, ◌++◌, ◌==◌, if◌then◌else◌, arith,
  All, ◌⊎◌, inl, inr, Bool-cases,
}
use boost_log.TextFile.Collector.{FileInfo, Collector, add_size}
use boost_log.TextFile.Collector.Evict.{Erasure, Eviction, evict, is_tight}
use boost_log.TextFile.Collector.Evict.Bounds.{
  sum_sizes, IsSize, is_stuck, stuck_files, counts_from, IsOldestFirst, evict-IsOldestFirst,
}
use boost_log.TextFile.Collector.Store.{Storage, stored, collector_of, target_path, store_file}

-- The total size is the sum of the sizes of the files in the list.
abbrev pub IsCounted : Collector → Type 0
IsCounted c = c.total_size ≡ sum_sizes c.files

pub sum_sizes-append :
    (fs : List FileInfo) (f : FileInfo) → sum_sizes (fs ++ f ∷ []) ≡ add_size (sum_sizes fs) f.size
unfolding sum_sizes add_size
sum_sizes-append [] f = omega arith
sum_sizes-append (x ∷ fs) f = omega (arith, sum_sizes-append fs f)

pub sum_sizes-lt : (fs : List FileInfo) → add_size 0 (sum_sizes fs) ≡ sum_sizes fs
unfolding sum_sizes add_size
sum_sizes-lt [] = omega arith
sum_sizes-lt (x ∷ fs) = omega arith

evict_counted :
    (erase : FileInfo → Erasure) (max_size min_free_space new_size : ℕ) (fs : List FileInfo)
    (total_size free_space : ℕ)
    → All IsSize fs
    → total_size ≡ sum_sizes fs
    → let r = evict erase max_size min_free_space new_size fs total_size free_space in
      r.total_size ≡ sum_sizes r.files
evict_counted erase max_size min_free_space new_size fs total_size free_space sizes c =
    counts_from erase max_size min_free_space new_size fs total_size free_space 0 sizes
      (c ∙ sym (sum_sizes-lt fs))
    ∙ sum_sizes-lt _

-- store_file keeps the total size of the collector equal to the sum of the sizes of the files in its
-- list, modulo 2^64, on every path: where files are erased, or cannot be, or where an exception of the
-- file system leaves the call. The sizes are values of uintmax_t.
pub store_file-IsCounted :
    (s : Storage) (size time_stamp : ℕ) (file_name : List ℕ) (c : Collector)
    → All IsSize c.files
    → IsCounted c
    → IsCounted (collector_of (store_file s size time_stamp file_name c))
unfolding store_file
store_file-IsCounted s size time_stamp file_name c sizes counted = ground (
  arith,
  counted',
  sum_sizes-append r.files
      (record { size = size; time_stamp = time_stamp; path = target_path s file_name }),
)
  where
    r : Eviction
    r =
        evict s.erase c.max_size c.min_free_space size c.files c.total_size
          (if c.min_free_space == 0 then 0 else s.available)

    counted' : r.total_size ≡ sum_sizes r.files
    counted' =
        evict_counted s.erase c.max_size c.min_free_space size c.files c.total_size _ sizes counted

-- No file of the list withstands its removal.
abbrev IsErasable : Storage → Collector → Type 0
IsErasable s c = All (λ f. is_stuck c.min_free_space (s.erase f) ≡ false) c.files

stuck_files-none :
    (erase : FileInfo → Erasure) (m : ℕ) (old new : List FileInfo)
    → All (λ f. is_stuck m (erase f) ≡ false) (old ++ new)
    → stuck_files erase m old ≡ []
unfolding stuck_files
stuck_files-none erase m [] new h = refl
stuck_files-none erase m (f ∷ old) new h = rw h.0 (stuck_files-none erase m old new h.1)

-- If no old file withstands its removal, then once store_file has returned, either the total size is
-- within the limit, or the new file alone is in the list.
pub store_file-bounded :
    (s : Storage) (size time_stamp : ℕ) (file_name : List ℕ) (c d : Collector)
    → IsErasable s c
    → store_file s size time_stamp file_name c ≡ stored d
    → (d.total_size ≤ c.max_size)
      ⊎ (d.files
          ≡ record { size = size; time_stamp = time_stamp; path = target_path s file_name } ∷ [])
unfolding store_file
store_file-bounded s size time_stamp file_name c d erasable e = elim (Bool-cases r.threw) [
  | inl threw ↦ absurd (ground arith)
  | inr calm ↦
      fits calm
        (evict-IsOldestFirst s.erase c.max_size c.min_free_space size c.files c.total_size _ calm)
]
  where
    r : Eviction
    r =
        evict s.erase c.max_size c.min_free_space size c.files c.total_size
          (if c.min_free_space == 0 then 0 else s.available)

    info : FileInfo
    info = record { size = size; time_stamp = time_stamp; path = target_path s file_name }

    room :
        (d.files ≡ r.files ++ info ∷ [])
        → (d.total_size ≡ add_size r.total_size size)
        → (new : List FileInfo) → r.files ≡ new
        → ((new ≡ [])
            ⊎ (is_tight s.erase c.max_size c.min_free_space size r.total_size r.free_space ≡ false))
        → (d.total_size ≤ c.max_size) ⊎ (d.files ≡ info ∷ [])
    room f t new q (inl none_left) = inr (ground arith)
    room f t new q (inr loose) = inl (ground arith)

    fits :
        r.threw ≡ false
        → IsOldestFirst s.erase c.max_size c.min_free_space size c.files c.total_size
            (if c.min_free_space == 0 then 0 else s.available)
            r
        → (d.total_size ≤ c.max_size) ⊎ (d.files ≡ info ∷ [])
    fits calm (old, new, p, q, _, t) =
        room (ground arith) (ground arith) new
          (q
            ∙ ap (λ xs. xs ++ new)
                (stuck_files-none s.erase c.min_free_space old new (subst (All _) p erasable)))
          t
