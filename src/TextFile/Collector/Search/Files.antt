-- ===== src/TextFile/Collector/Search/Files.antt =====
-- The list of files after scan_for_files (text_file_backend.cpp): in the order of time, nothing lost,
-- and with the right total size.
use mathlib.Core.Path.{ap₂}
use mathlib.Core.List.{Perm, append-nil}
use mathlib.Core.List.Perm
use boost_log.Base.{
  ◌&&◌, subst, ℕ, ◌≤◌, ◌≡◌, refl, sym, ap, ◌∙◌, Bool, true, false, Option, List, [], ◌∷◌, ◌++◌, ltb,
  if◌then◌else◌, length, arith, Bool-cases, inl, inr,
}
use boost_log.TextFile.Collector.{FileInfo, Collector, add_size}
use boost_log.TextFile.Collector.Evict.Bounds.{sum_sizes}
use boost_log.TextFile.Collector.Store.Total.{IsCounted, sum_sizes-lt}
use boost_log.TextFile.Collector.Search.{
  ScanMethod, no_scan, Directory, Found, Scanning, complete, aborted, written, start_counter,
  counter_for, insert_by_time, sort_by_time, merge_found, Search, searched, threw, scan_for_files,
}
use boost_log.TextFile.Collector.Search.Loop.{
  IsFound, ScanningKeeps, scan_entries-IsFound, any_unsupported, is_aborted, scan_entries-aborted,
  matching, Finds, scan_entries-Finds,
}

-- The time stamps do not fall.
abbrev IsSorted : List FileInfo → Type 0
IsSorted [] = Unit {0}
IsSorted (f ∷ []) = Unit {0}
IsSorted (f ∷ g ∷ fs) = (f.time_stamp ≤ g.time_stamp) × IsSorted (g ∷ fs)

insert-IsSorted : (f : FileInfo) (fs : List FileInfo) → IsSorted fs → IsSorted (insert_by_time f fs)
unfolding insert_by_time
insert-IsSorted f [] s = tt
insert-IsSorted f (g ∷ []) s = ground arith
insert-IsSorted f (g ∷ h ∷ fs) s = ground (arith, insert-IsSorted f (h ∷ fs) s.1)

sort-IsSorted : (fs : List FileInfo) → IsSorted (sort_by_time fs)
unfolding sort_by_time
sort-IsSorted [] = tt
sort-IsSorted (f ∷ fs) = insert-IsSorted f (sort_by_time fs) (sort-IsSorted fs)

insert-perm : (f : FileInfo) (fs : List FileInfo) → Perm (insert_by_time f fs) (f ∷ fs)
unfolding insert_by_time
insert-perm f [] = Perm.refl _
insert-perm f (g ∷ gs) = elim (Bool-cases (ltb g.time_stamp f.time_stamp)) [
  | inl older ↦ rw older (Perm.trans (Perm.cons g (insert-perm f gs)) (Perm.swap f g gs))
  | inr newer ↦ rw newer (Perm.refl _)
]

sort-perm : (fs : List FileInfo) → Perm (sort_by_time fs) fs
unfolding sort_by_time
sort-perm [] = Perm.refl _
sort-perm (f ∷ fs) = Perm.trans (insert-perm f (sort_by_time fs)) (Perm.cons f (sort-perm fs))

insert-sum :
    (f : FileInfo) (fs : List FileInfo)
    → sum_sizes (insert_by_time f fs) ≡ add_size f.size (sum_sizes fs)
unfolding insert_by_time sum_sizes add_size
insert-sum f [] = refl
insert-sum f (g ∷ gs) = elim (Bool-cases (ltb g.time_stamp f.time_stamp)) [
  | inl older ↦ rw older (omega (arith, insert-sum f gs))
  | inr newer ↦ rw newer
]

sort-sum : (fs : List FileInfo) → sum_sizes (sort_by_time fs) ≡ sum_sizes fs
unfolding sort_by_time sum_sizes
sort-sum [] = refl
sort-sum (f ∷ fs) = insert-sum f (sort_by_time fs) ∙ ap (add_size f.size) (sort-sum fs)

sum-append : (fs gs : List FileInfo) → sum_sizes (fs ++ gs) ≡ add_size (sum_sizes fs) (sum_sizes gs)
unfolding sum_sizes add_size
sum-append [] gs = sym (sum_sizes-lt gs)
sum-append (f ∷ fs) gs = omega (arith, sum-append fs gs)

-- The new files of a scan, and whether it throws.
abbrev pub new_files : ScanMethod → Directory → Collector → List FileInfo
new_files no_scan d c = []
new_files method d c = if d.exists then matching method d c.files d.entries else []

abbrev pub must_throw : ScanMethod → Directory → Collector → Bool
must_throw no_scan d c = false
must_throw method d c = d.exists && any_unsupported method d c.files d.entries

-- What a scan leaves of a collector `c`, when it finds the files `new`.
abbrev pub SearchKeeps : Collector → List FileInfo → Bool → Search → Type 0
SearchKeeps c new throws (searched n d counter) =
    (throws ≡ false)
    × IsCounted d
    × IsSorted d.files
    × Perm d.files (c.files ++ new)
    × (n ≡ length new)
SearchKeeps c new throws (threw d counter) = (throws ≡ true) × (d ≡ c)

untouched :
    (c : Collector) (counter : Option ℕ)
    → IsCounted c
    → IsSorted c.files
    → SearchKeeps c [] false (searched 0 c counter)
untouched c counter counted sorted = (refl, counted, sorted, rw append-nil (Perm.refl _), refl)

merged :
    (c : Collector) (found : Found) (new : List FileInfo) (counter : Option ℕ)
    → IsCounted c
    → IsFound found
    → found.files ≡ new
    → SearchKeeps c new false (searched found.file_count (merge_found c found) counter)
unfolding merge_found
merged c found new counter counted (total, count) same = (
  refl,
  ap₂ add_size counted total
      ∙ sym (sort-sum (c.files ++ found.files) ∙ sum-append c.files found.files),
  sort-IsSorted (c.files ++ found.files),
  subst (λ fs. Perm (sort_by_time (c.files ++ found.files)) (c.files ++ fs)) same
      (sort-perm (c.files ++ found.files)),
  count ∙ ap length same,
)

conclude :
    (c : Collector) (counter : Option ℕ) (there throws : Bool) (new : List FileInfo) (r : Scanning)
    → IsCounted c
    → IsSorted c.files
    → ScanningKeeps r
    → Finds [] new r
    → is_aborted r ≡ throws
    → SearchKeeps c (if there then new else []) (there && throws) (
        if there
        then (elim r [
          | complete found ↦
              searched found.file_count (merge_found c found) (written counter found.counter)
          | aborted found ↦ threw c (written counter found.counter)
        ])
        else searched 0 c counter)
conclude c counter false throws new r counted sorted k finds a = untouched c counter counted sorted
conclude c counter true throws new (complete found) counted sorted k finds a =
    subst
      (λ b.
        SearchKeeps c new b
          (searched found.file_count (merge_found c found) (written counter found.counter)))
      a (merged c found new (written counter found.counter) counted k finds)
conclude c counter true throws new (aborted found) counted sorted k finds a = (sym a, refl)

nothing-IsFound :
    (counter : Option ℕ)
    → IsFound (record { files = []; total_size = 0; file_count = 0; counter = counter })
unfolding sum_sizes
nothing-IsFound counter = (refl, refl)

-- From a collector whose total size is the sum of the sizes of its files and whose files stand in the order of
-- time, a scan of a directory throws exactly if match_pattern throws for one of the regular files there that the
-- collector does not know, and then the collector is as it was. Otherwise it leads to such a collector again,
-- whose files are the old ones and the new ones, which are all the regular files of the directory that the
-- collector did not know and that match; and it returns the number of the new ones. Without a scanning method,
-- or without the directory, there are none, and nothing is thrown.
pub scan_for_files-Keeps :
    (method : ScanMethod) (d : Directory) (counter : Option ℕ) (c : Collector)
    → IsCounted c
    → IsSorted c.files
    → SearchKeeps c
        (new_files method d c)
        (must_throw method d c)
        (scan_for_files method d counter c)
unfolding scan_for_files
scan_for_files-Keeps no_scan d counter c counted sorted = untouched c counter counted sorted
scan_for_files-Keeps method d counter c counted sorted =
    let start : Found = record {
      files = [];
      total_size = 0;
      file_count = 0;
      counter = start_counter (counter_for method counter);
    } in
    conclude c counter d.exists (any_unsupported method d c.files d.entries)
      (matching method d c.files d.entries) _ counted sorted
      (scan_entries-IsFound method d c.files d.entries start (nothing-IsFound start.counter))
      (scan_entries-Finds method d c.files d.entries start)
      (scan_entries-aborted method d c.files d.entries start)
