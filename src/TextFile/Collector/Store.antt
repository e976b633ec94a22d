-- ===== src/TextFile/Collector/Store.antt =====
-- file_collector::store_file (text_file_backend.cpp): the name in the storage, the eviction of old
-- files, and the move of the new one.
pub mod Name
pub mod Total
use boost_log.Base.{
  ℕ, zero, suc, ◌+◌, Bool, true, false, List, [], ◌∷◌, ◌++◌, ltb, ◌==◌, ◌&&◌, if◌then◌else◌, length,
}
use boost_log.TextFile.Names.{format_counter}
use boost_log.TextFile.Collector.{FileInfo, Collector, add_size}
use boost_log.TextFile.Collector.Evict.{Erasure, evict}

-- What the file system answers in the course of a call. `counter_limit` is the largest unsigned int.
pub record Storage : Type 0 where
  pub join : List ℕ → List ℕ → List ℕ
  pub storage_dir : List ℕ
  pub is_in_target_dir : Bool
  pub exists : List ℕ → Bool
  pub available : ℕ
  pub erase : FileInfo → Erasure
  pub move_succeeds : Bool
  pub counter_limit : ℕ

-- The name with the n-th counter appended.
unfoldable pub candidate : Storage → List ℕ → ℕ → List ℕ
candidate s file_name n = s.join s.storage_dir (format_counter (length file_name) 5 file_name n)

-- do … while (exists(path) && n < limit), with the counter of the current round.
unfoldable pub mangle : Storage → List ℕ → ℕ → ℕ → List ℕ
mangle s file_name zero n = candidate s file_name n
mangle s file_name (suc fuel) n = elim (s.exists (candidate s file_name n)) [
  | false ↦ candidate s file_name n
  | true ↦ elim (ltb (suc n) s.counter_limit) [
    | true ↦ mangle s file_name fuel (suc n)
    | false ↦ candidate s file_name n
  ]
]

-- The path that the file gets.
unfoldable pub target_path : Storage → List ℕ → List ℕ
target_path s file_name =
    let plain = s.join s.storage_dir file_name in
    let mangled = mangle s file_name s.counter_limit 0 in
    if s.is_in_target_dir then plain else (if s.exists plain then mangled else plain)

-- The call returns, or an exception leaves it.
pub data Stored : Type 0 where
  stored : Collector → Stored
  failed : Collector → Stored

abbrev pub collector_of : Stored → Collector
collector_of (stored c) = c
collector_of (failed c) = c

-- The size, the time and the name are those of the source file.
unfoldable pub store_file : Storage → ℕ → ℕ → List ℕ → Collector → Stored
unfolding add_size
store_file s size time_stamp file_name c =
    let info : FileInfo = record {
      size = size;
      time_stamp = time_stamp;
      path = target_path s file_name;
    } in
    let free_space : ℕ = if c.min_free_space == 0 then 0 else s.available in
    let r = evict s.erase c.max_size c.min_free_space size c.files c.total_size free_space in
    let c' : Collector = record c { files = r.files; total_size = r.total_size } in
    let done : Collector = record c {
      files = r.files ++ info ∷ [];
      total_size = add_size r.total_size size;
    } in
    if r.threw
    then failed c'
    else (if s.is_in_target_dir
        then stored done
        else (if s.move_succeeds then stored done else failed c'))
