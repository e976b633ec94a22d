-- ===== src/TextFile/Collector/Search/Loop.antt =====
-- What the loop of scan_for_files (text_file_backend.cpp) finds, and when match_pattern throws in it.
use mathlib.Core.List.{append-nil, append_assoc}
use boost_log.Base.{
  ◌&&◌, ◌||◌, not, ℕ, ◌≡◌, refl, sym, ap, ◌∙◌, Bool, true, false, List, [], ◌∷◌, ◌++◌,
  if◌then◌else◌, length, length-append, arith,
}
use boost_log.TextFile.Names.Match.{Match, matched, mismatch, invalid, fault}
use boost_log.TextFile.Collector.{FileInfo, add_size}
use boost_log.TextFile.Collector.Evict.Bounds.{sum_sizes}
use boost_log.TextFile.Collector.Store.Total.{sum_sizes-append}
use boost_log.TextFile.Collector.Search.{
  ScanMethod, Entry, Directory, Found, Scanning, complete, aborted, take_entry, is_known, matches,
  scan_entries,
}

-- What the loop keeps: the total size and the number of the files found.
abbrev pub IsFound : Found → Type 0
IsFound found = (found.total_size ≡ sum_sizes found.files) × (found.file_count ≡ length found.files)

abbrev pub ScanningKeeps : Scanning → Type 0
ScanningKeeps (complete found) = IsFound found
ScanningKeeps (aborted found) = Unit {0}

take_entry-IsFound :
    (e : Entry) (n : ℕ) (found : Found) → IsFound found → IsFound (take_entry e n found)
unfolding take_entry
take_entry-IsFound e n found (total, count) = (
  ap (λ t. add_size t e.size) total ∙ sym (sum_sizes-append found.files _),
  omega (
    arith,
    length-append found.files
        (record { size = e.size; time_stamp = e.time_stamp; path = e.path } ∷ []),
  ),
)

pub scan_entries-IsFound :
    (method : ScanMethod) (d : Directory) (known : List FileInfo) (es : List Entry) (found : Found)
    → IsFound found
    → ScanningKeeps (scan_entries method d known es found)
unfolding scan_entries
scan_entries-IsFound method d known [] found h = h
scan_entries-IsFound method d known (e ∷ es) found h =
    go (matches method d e.filename) (scan_entries-IsFound method d known es found h) (λ n.
      scan_entries-IsFound method d known es (take_entry e n found)
        (take_entry-IsFound e n found h))
  where
    rest : Found → Scanning
    rest = scan_entries method d known es

    go :
        (m : Match)
        → ScanningKeeps (rest found)
        → ((n : ℕ) → ScanningKeeps (rest (take_entry e n found)))
        → ScanningKeeps (
            if e.is_regular
            then (if is_known d.equivalent e.path known then rest found else elim m [
              | matched number ↦ rest (take_entry e number found)
              | mismatch ↦ rest found
              | invalid ↦ aborted found
              | fault ↦ aborted found
            ])
            else rest found)
    go (matched number) skip take = ground (arith, take number)
    go mismatch skip take = ground arith
    go invalid skip take = ground arith
    go fault skip take = ground arith

-- Whether match_pattern throws for a file that the loop looks at: a regular one that is not known yet.
abbrev is_unsupported : ScanMethod → Directory → List FileInfo → Entry → Bool
is_unsupported method d known e =
    e.is_regular && not (is_known d.equivalent e.path known) && elim (matches method d e.filename) [
      | matched number ↦ false
      | mismatch ↦ false
      | invalid ↦ true
      | fault ↦ true
    ]

abbrev pub any_unsupported : ScanMethod → Directory → List FileInfo → List Entry → Bool
any_unsupported method d known [] = false
any_unsupported method d known (e ∷ es) =
    is_unsupported method d known e || any_unsupported method d known es

abbrev pub is_aborted : Scanning → Bool
is_aborted (complete found) = false
is_aborted (aborted found) = true

pub scan_entries-aborted :
    (method : ScanMethod) (d : Directory) (known : List FileInfo) (es : List Entry) (found : Found)
    → is_aborted (scan_entries method d known es found) ≡ any_unsupported method d known es
unfolding scan_entries
scan_entries-aborted method d known [] found = refl
scan_entries-aborted method d known (e ∷ es) found =
    go (matches method d e.filename) (scan_entries-aborted method d known es found)
      (λ n. scan_entries-aborted method d known es (take_entry e n found))
  where
    rest : Found → Scanning
    rest = scan_entries method d known es

    go :
        (m : Match)
        → is_aborted (rest found) ≡ any_unsupported method d known es
        → ((n : ℕ) → is_aborted (rest (take_entry e n found)) ≡ any_unsupported method d known es)
        → is_aborted (
            if e.is_regular
            then (if is_known d.equivalent e.path known then rest found else elim m [
              | matched number ↦ rest (take_entry e number found)
              | mismatch ↦ rest found
              | invalid ↦ aborted found
              | fault ↦ aborted found
            ])
            else rest found)
          ≡ (e.is_regular && not (is_known d.equivalent e.path known) && elim m [
            | matched number ↦ false
            | mismatch ↦ false
            | invalid ↦ true
            | fault ↦ true
          ]
              || any_unsupported method d known es)
    go (matched number) skip take = ground (arith, skip, take number)
    go mismatch skip take = ground (arith, skip)
    go invalid skip take = ground (arith, skip)
    go fault skip take = ground (arith, skip)

-- The files that the loop takes: the regular ones that are not known yet and match.
abbrev info_of : Entry → FileInfo
info_of e = record { size = e.size; time_stamp = e.time_stamp; path = e.path }

abbrev pub matching : ScanMethod → Directory → List FileInfo → List Entry → List FileInfo
matching method d known [] = []
matching method d known (e ∷ es) =
    let rest = matching method d known es in
    if e.is_regular && not (is_known d.equivalent e.path known)
    then (elim (matches method d e.filename) [
      | matched number ↦ info_of e ∷ rest
      | mismatch ↦ rest
      | invalid ↦ rest
      | fault ↦ rest
    ])
    else rest

abbrev pub Finds : List FileInfo → List FileInfo → Scanning → Type 0
Finds before new (complete found) = found.files ≡ before ++ new
Finds before new (aborted found) = Unit {0}

pub scan_entries-Finds :
    (method : ScanMethod) (d : Directory) (known : List FileInfo) (es : List Entry) (found : Found)
    → Finds found.files (matching method d known es) (scan_entries method d known es found)
unfolding scan_entries take_entry
scan_entries-Finds method d known [] found = sym (append-nil found.files)
scan_entries-Finds method d known (e ∷ es) found =
    go (matches method d e.filename) (scan_entries-Finds method d known es found) (λ n.
      one_more found.files (info_of e) (matching method d known es)
        (scan_entries method d known es (take_entry e n found))
        (scan_entries-Finds method d known es (take_entry e n found)))
  where
    rest : Found → Scanning
    rest = scan_entries method d known es

    later : List FileInfo
    later = matching method d known es

    one_more :
        (before : List FileInfo) (f : FileInfo) (new : List FileInfo) (r : Scanning)
        → Finds (before ++ f ∷ []) new r
        → Finds before (f ∷ new) r
    one_more before f new (complete found) q = q ∙ append_assoc before (f ∷ []) new
    one_more before f new (aborted found) q = tt

    go :
        (m : Match)
        → Finds found.files later (rest found)
        → ((n : ℕ) → Finds found.files (info_of e ∷ later) (rest (take_entry e n found)))
        → Finds found.files
            (if e.is_regular && not (is_known d.equivalent e.path known)
              then (elim m [
                | matched number ↦ info_of e ∷ later
                | mismatch ↦ later
                | invalid ↦ later
                | fault ↦ later
              ])
              else later)
            (if e.is_regular
              then (if is_known d.equivalent e.path known then rest found else elim m [
                | matched number ↦ rest (take_entry e number found)
                | mismatch ↦ rest found
                | invalid ↦ aborted found
                | fault ↦ aborted found
              ])
              else rest found)
    go (matched number) skip take = ground (arith, take number)
    go mismatch skip take = ground arith
    go invalid skip take = ground arith
    go fault skip take = ground arith
