-- ===== src/TextFile/Collector/Evict.antt =====
-- The loop of file_collector::store_file that erases old files (text_file_backend.cpp), from the oldest
-- on, until the new file fits. What the file system answers is an argument.
pub mod Bounds
use boost_log.Base.{
  ℕ, ◌≡◌, Bool, true, false, Option, none, some, List, [], ◌∷◌, ◌&&◌, ◌||◌, not, ltb, ◌==◌,
  if◌then◌else◌,
}
use boost_log.TextFile.Collector.{FileInfo, add_size, sub_size}

-- What happens to an old file: it is absent or no regular file; it is removed, and this much space is
-- available then; it is removed, but the query of the free space throws; its removal throws; or a
-- query that is not guarded throws.
pub data Erasure : Type 0 where
  absent : Erasure
  removed : ℕ → Erasure
  space_unknown locked fails : Erasure

-- The files left, the total size and, if the loop was left by an exception, `true`.
pub record Eviction : Type 0 where
  pub files : List FileInfo
  pub total_size : ℕ
  pub free_space : ℕ
  pub threw : Bool

module _ (erase : FileInfo → Erasure) (max_size min_free_space : ℕ) (new_size : ℕ) where
  -- The test of the loop: the new file would not fit.
  abbrev pub is_tight : ℕ → ℕ → Bool
  is_tight total_size free_space =
      ltb max_size (add_size total_size new_size)
      || not (min_free_space == 0) && ltb free_space min_free_space

  -- filesystem::space is asked only where a limit is set. Its exception is caught, and the file then
  -- stays in the list although it was removed.
  unfoldable pub evict : List FileInfo → ℕ → ℕ → Eviction
  evict [] total_size free_space = record {
    files = [];
    total_size = total_size;
    free_space = free_space;
    threw = false;
  }
  evict (f ∷ fs) total_size free_space =
      let keep = evict fs total_size free_space in
      let drop = evict fs (sub_size total_size f.size) free_space in
      let stop : Eviction = record {
        files = f ∷ fs;
        total_size = total_size;
        free_space = free_space;
        threw = false;
      } in
      elim (is_tight total_size free_space) [
        | false ↦ stop
        | true ↦ elim (erase f) [
          | absent ↦ drop
          | removed space ↦
              evict fs (sub_size total_size f.size)
                (if min_free_space == 0 then free_space else space)
          | space_unknown ↦
              (if min_free_space == 0 then drop else record keep { files = f ∷ keep.files })
          | locked ↦ record keep { files = f ∷ keep.files }
          | fails ↦ record stop { threw = true }
        ]
      ]
