-- ===== src/TextFile/Names/Pattern.antt =====
-- The generator of file names that set_file_name_pattern_internal (text_file_backend.cpp) makes of a
-- pattern. The parser of counter placeholders is Boost.Spirit's, and the formatter of dates and times
-- Boost.DateTime's. A width that is assigned by a placeholder that turns out to be another one is left
-- out.
use boost_log.Base.{
  ℕ, zero, suc, true, false, Option, none, some, List, [], ◌∷◌, ◌++◌, ◌==◌, ltb, if◌then◌else◌,
  length,
}
use boost_log.TextFile.Names.{format_counter}
use boost_log.TextFile.Names.Match.{Grammar}

-- std::find of a percent sign: the text before it, and what is behind it.
unfoldable pub find_percent : List ℕ → List ℕ × Option (List ℕ)
find_percent [] = ([], none)
find_percent (c ∷ it) =
    let (text, behind) = find_percent it in if c == b'%' then ([], some it) else (c ∷ text, behind)

-- What the loop finds: the pattern without its counter placeholder, the position and the width of that,
-- and the number of the other placeholders.
pub record Placeholders : Type 0 where
  pub name_pattern : List ℕ
  pub counter : Option (ℕ × ℕ)
  pub placeholder_count : ℕ

-- What parse_counter_placeholder answers, unless a counter was found before.
abbrev parse_first : Grammar → Option (ℕ × ℕ) → List ℕ → Option (List ℕ × ℕ)
parse_first g none it = g.parse_placeholder it
parse_first g (some _) it = none

-- The loop, with the part of the pattern that is done. Each round moves on behind a percent sign, and the
-- fuel bounds their number.
unfoldable pub find_placeholders : Grammar → ℕ → List ℕ → List ℕ → Option (ℕ × ℕ) → ℕ → Placeholders
unfolding find_percent
find_placeholders g zero done it counter count = record {
  name_pattern = done ++ it;
  counter = counter;
  placeholder_count = count;
}
find_placeholders g (suc fuel) done it counter count =
    let (text, found) = find_percent it in
    let end : Placeholders = record {
      name_pattern = done ++ it;
      counter = counter;
      placeholder_count = count;
    } in
    elim found [
      | none ↦ end
      | some behind ↦ elim behind [
        | [] ↦ end
        | c ∷ it1 ↦ elim (c == b'%') [
          | true ↦ find_placeholders g fuel (done ++ text ++ b'%' ∷ b'%' ∷ []) it1 counter count
          | false ↦ elim (parse_first g counter (c ∷ it1)) [
            | some (it2, width) ↦
                find_placeholders g fuel (done ++ text) it2 (some (length (done ++ text), width))
                  count
            | none ↦
                find_placeholders g fuel (done ++ text ++ b'%' ∷ []) (c ∷ it1) counter (suc count)
          ]
        ]
      ]
    ]

-- The functor that is chosen: `format_date` is the formatter of dates and times.
unfoldable pub generate : (List ℕ → List ℕ) → Placeholders → ℕ → List ℕ
generate format_date p n =
    let name : List ℕ = elim p.counter [
      | none ↦ p.name_pattern
      | some (position, width) ↦ format_counter position width p.name_pattern n
    ] in
    if ltb 0 p.placeholder_count then format_date name else name

-- The name of the n-th file.
unfoldable pub file_name : Grammar → (List ℕ → List ℕ) → List ℕ → ℕ → List ℕ
unfolding find_placeholders generate
file_name g format_date pattern n =
    generate format_date (find_placeholders g (length pattern) [] pattern none 0) n
