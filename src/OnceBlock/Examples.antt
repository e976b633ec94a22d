-- ===== src/OnceBlock/Examples.antt =====
-- Runs of a once block (utility/once_block.hpp, once_block.cpp).
use boost_log.Base.{ℕ, ◌≡◌, Bool, true, false, List, [], ◌∷◌, refl}
use boost_log.OnceBlock.{initialized, advance, step, run, once_block_init}
use boost_log.OnceBlock.Once.{IsSound, is_done, commits, once_if, run-once}

-- The block of thread 1 throws while thread 2 waits; then thread 2 runs it, and both go on behind it.
abbrev two_threads : List (ℕ × Bool)
two_threads =
    (1, true)
    ∷ (1, true)
    ∷ (1, true)
    ∷ (2, true)
    ∷ (2, true)
    ∷ (2, true)
    ∷ (1, false)
    ∷ (1, true)
    ∷ (1, true)
    ∷ (2, true)
    ∷ (2, true)
    ∷ (1, true)
    ∷ (1, true)
    ∷ (2, true)
    ∷ (1, true)
    ∷ (1, true)
    ∷ (2, true)
    ∷ (2, true)
    ∷ []

two_threads-run :
    let (b, results) = run two_threads once_block_init in
    (b.status ≡ initialized) × (commits results ≡ 1)
unfolding run step advance once_block_init commits
two_threads-run = (refl, refl)

run-once_example :
    let (b, results) = run two_threads once_block_init in
    (commits results ≡ once_if (is_done b.status)) × IsSound b
run-once_example = run-once two_threads
