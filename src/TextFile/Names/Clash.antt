-- ===== src/TextFile/Names/Clash.antt =====
-- The counter that store_file appends in case of a name clash is not recognised by match_pattern
-- (text_file_backend.cpp), although its last branch is there for it.
use boost_log.Base.{ℕ, suc, ◌≡◌, ◌≢◌, refl, false, List, [], ◌∷◌, ◌++◌, length, arith, All}
use boost_log.TextFile.Names.{no_match, scan_digits}
use boost_log.TextFile.Names.Match.{Grammar, matched, mismatch, match_loop, match_pattern}

-- The scan fails if the digits reach to the end of the name.
scan_digits-all : (c : ℕ) (it : List ℕ) → scan_digits (suc (length it)) (c ∷ it) ≡ no_match
unfolding scan_digits
scan_digits-all c [] = refl
scan_digits-all c (d ∷ it) = ground (arith, scan_digits-all d it)

literal_loop :
    (g : Grammar) (p : List ℕ) (f : ℕ) (suffix : List ℕ) (counter : ℕ)
    → All (λ c. c ≢ b'%') p
    → match_loop g (length p) (p ++ f ∷ suffix) p false counter ≡ mismatch
unfolding match_loop
literal_loop g [] f suffix counter plain = rw scan_digits-all
literal_loop g (c ∷ p) f suffix counter plain =
    ground (arith, literal_loop g p f suffix counter plain.1)

literal_self :
    (g : Grammar) (p : List ℕ) (counter : ℕ)
    → All (λ c. c ≢ b'%') p
    → match_loop g (length p) p p false counter ≡ matched counter
unfolding match_loop
literal_self g [] counter plain = refl
literal_self g (c ∷ p) counter plain = ground (arith, literal_self g p counter plain.1)

-- A pattern without a percent sign matches no name that goes on behind it, whatever the suffix: so a
-- file that store_file renamed by appending a counter of any value is not found again by a scan for
-- the pattern of its name. It does match the name itself.
pub match_pattern-clash :
    (g : Grammar) (pattern : List ℕ) (f : ℕ) (suffix : List ℕ) (counter : ℕ)
    → All (λ c. c ≢ b'%') pattern
    → (match_pattern g (pattern ++ f ∷ suffix) pattern counter ≡ mismatch)
      × (match_pattern g pattern pattern counter ≡ matched counter)
unfolding match_pattern
match_pattern-clash g pattern f suffix counter plain =
    (literal_loop g pattern f suffix counter plain, literal_self g pattern counter plain)
