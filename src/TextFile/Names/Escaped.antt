-- ===== src/TextFile/Names/Escaped.antt =====
-- Escaped percent signs in patterns of file names (text_file_backend.cpp).
use mathlib.Core.List.{append_assoc}
use boost_log.Base.{
  ℕ, suc, ◌+◌, ◌≡◌, false, none, List, [], ◌∷◌, ◌++◌, length, length-append, arith, refl, ap, ◌∙◌,
}
use boost_log.TextFile.Names.{scan_digits}
use boost_log.TextFile.Names.Match.{Grammar, mismatch, match_loop, match_pattern}
use boost_log.TextFile.Names.Pattern.{find_placeholders, generate, file_name}
use boost_log.TextFile.Names.RoundTrip.{
  IsPlain, match_loop-prefix, find_percent-found, find_percent-plain,
}

module _ (g : Grammar) (pre suf : List ℕ) (plain_prefix : IsPlain pre)
    (plain_suffix : IsPlain suf) where
  abbrev pattern : List ℕ
  pattern = pre ++ b'%' ∷ b'%' ∷ suf

  no_placeholders :
      (k : ℕ)
      → find_placeholders g (suc (suc k)) [] pattern none 0 ≡ record {
        name_pattern = (pre ++ b'%' ∷ b'%' ∷ []) ++ suf;
        counter = none;
        placeholder_count = 0;
      }
  unfolding find_placeholders
  no_placeholders k =
      ground (
        arith,
        find_percent-found pre (b'%' ∷ suf) plain_prefix,
        find_percent-plain suf plain_suffix,
      )

  behind_escape :
      (f : List ℕ) (counter : ℕ)
      → IsPlain f
      → match_loop g (length f) (b'%' ∷ f) f false counter ≡ mismatch
  unfolding match_loop scan_digits
  behind_escape [] counter plain = refl
  behind_escape (c ∷ f) counter plain = ground (arith, plain.0)

  -- A pattern in which a percent sign is escaped, and that has no placeholder, becomes the file name as it
  -- is, with both percent signs, and a scan for the pattern does not find that name.
  pub match_pattern-escaped :
      (format_date : List ℕ → List ℕ) (n counter : ℕ)
      → (file_name g format_date pattern n ≡ pattern)
        × (match_pattern g pattern pattern counter ≡ mismatch)
  unfolding match_pattern file_name generate match_loop
  match_pattern-escaped format_date n counter =
      let all : length pattern ≡ suc (suc (length pre + length suf)) =
        omega (arith, length-append pre (b'%' ∷ b'%' ∷ suf)) in
      let fuel : length pattern ≡ length pre + suc (suc (length suf)) = omega (arith, all) in
      (
        ap (λ p. generate format_date p n)
              (ap (λ k. find_placeholders g k [] pattern none 0) all
                ∙ no_placeholders (length pre + length suf))
            ∙ append_assoc pre (b'%' ∷ b'%' ∷ []) suf,
        ap (λ k. match_loop g k pattern pattern false counter) fuel
            ∙ match_loop-prefix g (suc (suc (length suf))) pre (b'%' ∷ b'%' ∷ suf)
                (b'%' ∷ b'%' ∷ suf) counter plain_prefix
            ∙ behind_escape suf counter plain_suffix,
      )
