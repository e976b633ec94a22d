-- ===== src/TextFile/Collector.antt =====
-- The state of file_collector, and file_collector::update (text_file_backend.cpp). Sizes are of type
-- uintmax_t with 64 bits, and wrap around. A path is a list of character codes.
pub mod Evict
pub mod Store
pub mod Search
pub mod Repository
use boost_log.Base.{ℕ, ◌+◌, ◌-◌, ◌%◌, List, ltb, if◌then◌else◌}

-- file_info
pub record FileInfo : Type 0 where
  pub size : ℕ
  pub time_stamp : ℕ
  pub path : List ℕ

-- The members that the calls change.
pub record Collector : Type 0 where
  pub max_size : ℕ
  pub min_free_space : ℕ
  pub files : List FileInfo
  pub total_size : ℕ

abbrev pub uintmax_mod : ℕ
uintmax_mod = 18446744073709551616

-- a + b and a - b on uintmax_t.
unfoldable pub add_size : ℕ → ℕ → ℕ
add_size a b = (a + b) % uintmax_mod

unfoldable pub sub_size : ℕ → ℕ → ℕ
sub_size a b = (a + uintmax_mod - b) % uintmax_mod

-- The restrictions of a collector that is shared: the lower size limit, the higher free space.
pub update : ℕ → ℕ → Collector → Collector
update max_size min_free_space c = record c {
  max_size = if ltb max_size c.max_size then max_size else c.max_size;
  min_free_space = if ltb c.min_free_space min_free_space then min_free_space else c.min_free_space;
}
