-- ===== src/History/Samples.antt =====
-- A short series, for the theorems on history.rs.
use subbier.Base.{ℕ, ◌≡◌, ◌+◌, ◌*◌, ◌/◌, ◌^◌, refl, none, some, [], ◌∷◌, arith, get_elem?, leb}
use subbier.History.{Float, Series, resample, resample_held, max_run}
use subbier.History.Means.{resample-average}
use subbier.History.Gaps.{look_back, resample_held-look_back}

-- Whole numbers in place of floats.
abbrev whole : Float ℕ
whole = record { zero_value = 0; add = λ a b. a + b; divide = λ a n. a / n }

abbrev ms : ℕ → ℕ
ms n = n * 10 ^ 6

-- Two polls in the first of five buckets of 10 ms, and one in the last.
abbrev series : Series ℕ
series = (ms 101, 4) ∷ (ms 105, 6) ∷ (ms 150, 9) ∷ []

held :
    resample_held whole series (ms 100) (ms 150) 5 25
    ≡ some 5 ∷ some 5 ∷ some 5 ∷ none ∷ some 9 ∷ []
unfolding resample_held max_run
held = refl

resample-average_example : get_elem? (resample whole series (ms 100) (ms 150) 5) 0 ≡ some (some 5)
resample-average_example = resample-average whole series (ms 100) (ms 150) 5 0 (omega arith)

resample_held-look_back_example :
    resample_held whole series (ms 100) (ms 150) 5 25
    ≡ look_back (λ d. leb (d * 10) 25) [] (resample whole series (ms 100) (ms 150) 5)
resample_held-look_back_example =
    resample_held-look_back whole series (ms 100) (ms 150) 5 25 (omega arith)

-- Twenty buckets of half a millisecond: a hold of one millisecond carries the value over all of them.
held_past_the_hold :
    get_elem? (resample_held whole ((ms 100, 7) ∷ []) (ms 100) (ms 110) 20 1) 19 ≡ some (some 7)
unfolding resample_held max_run
held_past_the_hold = refl
