-- ===== src/History/Gaps.antt =====
-- The gaps of a resampled series, resample_held of crates/libsubby/src/history.rs.
use subbier.Base.{
  ℕ, zero, suc, ◌+◌, ◌≡◌, refl, sym, ap, ◌∙◌, inl, inr, Option, none, some, List, [], ◌∷◌, leb,
  ◌==◌, if◌then◌else◌, arith, Bool-cases, Bool, true, false, ltb, length, ◌<◌, ◌*◌, ◌/◌, ◌^◌, ◌-◌,
  min, max, ◌≤◌,
}
use native.Mathlib.Nat.{le-div_iff_mul-le}
use subbier.Model.{Timestamp}
use subbier.History.Buckets.{resample-no_buckets, length-resample}
use subbier.History.{Float, Series, resample, span, max_run, fill, resample_held}

module _ {V : Type 0} where
  -- The value of the nearest bucket that has one, going back from one that is `d` buckets away, if
  -- `reaches` allows its distance.
  abbrev pub nearest : (reaches : ℕ → Bool) → (d : ℕ) → List (Option V) → Option V
  nearest reaches d [] = none
  nearest reaches d (some v ∷ slots) = if reaches d then some v else none
  nearest reaches d (none ∷ slots) = nearest reaches (suc d) slots

  -- For each bucket what is nearest, looking back; `past` are the buckets before, the last one first.
  abbrev pub look_back : (ℕ → Bool) → (past slots : List (Option V)) → List (Option V)
  look_back reaches past [] = []
  look_back reaches past (x ∷ slots) =
      nearest reaches 0 (x ∷ past) ∷ look_back reaches (x ∷ past) slots

  gap : ℕ → List (Option V) → List (Option V)
  gap zero past = past
  gap (suc n) past = none ∷ gap n past

  -- What stands at the far end of a gap.
  first : List (Option V) → Option V
  first [] = none
  first (x ∷ past) = x

  -- The gap ends at a value, or at the start.
  Ends : List (Option V) → Type 0
  Ends [] = Unit
  Ends (none ∷ past) = ⊥
  Ends (some v ∷ past) = Unit

  nothing : (b : Bool) → ◌≡◌ {A = Option V} none (if b then none else none)
  nothing true = refl
  nothing false = refl

  nearest-gap :
      (reaches : ℕ → Bool) (d n : ℕ) (past : List (Option V))
      → Ends past
      → nearest reaches d (gap n past) ≡ (if reaches (n + d) then first past else none)
  unfolding gap first Ends
  nearest-gap reaches d zero [] e = nothing (reaches (0 + d))
  nearest-gap reaches d zero (some v ∷ past) e = let q : 0 + d ≡ d = omega arith in rw q refl
  nearest-gap reaches d zero (none ∷ past) e = absurd e
  nearest-gap reaches d (suc n) past e =
      let q : n + suc d ≡ suc n + d = omega arith in
      nearest-gap reaches (suc d) n past e ∙ ap (λ k. if reaches k then first past else none) q

  fill-look_back :
      (limit run : ℕ) (last : Option V) (past slots : List (Option V))
      → Ends past
      → last ≡ (if leb run limit then first past else none)
      → fill limit last run slots ≡ look_back (λ d. leb d limit) (gap run past) slots
  unfolding fill gap first Ends
  fill-look_back limit run last past [] e h = refl
  fill-look_back limit run last past (some v ∷ slots) e h =
      let t : leb 0 limit ≡ true = ground arith in
      let i = fill-look_back limit 0 (some v) (some v ∷ gap run past) slots tt (rw t refl) in
      let c : some v ≡ nearest (λ d. leb d limit) 0 (some v ∷ gap run past) = rw t refl in
      λ k. c k ∷ i k
  fill-look_back limit run last past (none ∷ slots) e h =
      let s : run + 1 ≡ suc run = omega arith in
      rw s (
        let held : Option V = if leb (suc run) limit then last else none in
        let q : held ≡ (if leb (suc run) limit then first past else none) = ground (arith, h) in
        let i = fill-look_back limit (suc run) held past slots e q in
        let z : suc run + 0 ≡ suc run = omega arith in
        let c =
          q
          ∙ sym (
              nearest-gap (λ d. leb d limit) 0 (suc run) past e
              ∙ ap (λ k. if leb k limit then first past else none) z) in
        λ k. c k ∷ i k)

  filled :
      (limit : ℕ) (slots : List (Option V))
      → fill limit none 0 slots ≡ look_back (λ d. leb d limit) [] slots
  unfolding gap first Ends
  filled limit slots = fill-look_back limit 0 none [] slots tt (ground arith)

  nearest-ext :
      (p q : ℕ → Bool) (d : ℕ) (past : List (Option V))
      → ((k : ℕ) → k < d + length past → p k ≡ q k)
      → nearest p d past ≡ nearest q d past
  nearest-ext p q d [] h = refl
  nearest-ext p q d (some v ∷ past) h = rw (h d (omega arith)) refl
  nearest-ext p q d (none ∷ past) h = nearest-ext p q (suc d) past (λ k l. h k (omega (arith, l)))

  look_back-ext :
      (p q : ℕ → Bool) (past slots : List (Option V))
      → ((k : ℕ) → k < length past + length slots → p k ≡ q k)
      → look_back p past slots ≡ look_back q past slots
  look_back-ext p q past [] h = refl
  look_back-ext p q past (x ∷ slots) h =
      let a = nearest-ext p q 0 (x ∷ past) (λ k l. h k (omega (arith, l))) in
      let i = look_back-ext p q (x ∷ past) slots (λ k l. h k (omega (arith, l))) in λ j. a j ∷ i j

-- What the limit comes to: as many buckets as fit into the hold.
within :
    (width hold d : ℕ)
    → d < 2 ^ 64
    → leb d (if ltb 0 width then min (hold / width) (2 ^ 64 - 1) else 2 ^ 64 - 1)
      ≡ leb (d * width) hold
within zero hold d l = let z : d * 0 ≡ 0 = omega arith in rw z (ground (arith, l))
within (suc w) hold d l =
    let q = le-div_iff_mul-le {k = suc w} {x = d} {y = hold} (omega arith) in
    elim (Bool-cases (leb d (hold / suc w))) [
      | inl y ↦
          let a : d ≤ hold / suc w = ground (arith, y) in
          let m = q.0 a in
          let b : leb (d * suc w) hold ≡ true = ground (arith, m) in
          let g : d ≤ min (hold / suc w) (2 ^ 64 - 1) = omega (arith, a, l) in
          rw b (ground (arith, g))
      | inr n ↦
          let b : leb (d * suc w) hold ≡ false = elim (Bool-cases (leb (d * suc w) hold)) [
            | inl y ↦ absurd (
                let m : d * suc w ≤ hold = ground (arith, y) in
                let a = q.1 m in let z : leb d (hold / suc w) ≡ true = ground (arith, a) in cc)
            | inr f ↦ f
          ] in
          let g : hold / suc w < d = ground (arith, n) in
          let r : min (hold / suc w) (2 ^ 64 - 1) < d = omega (arith, g) in rw b (ground (arith, r))
    ]

-- The width of a bucket is taken in whole milliseconds, rounded down: (until - since) / buckets, where
-- the difference counts as one when it is less. Each bucket of a resampled series shows the value of
-- the nearest bucket at or before it that has one, if the buckets between, of that width, are together
-- at most as long as the hold, and nothing otherwise; so with buckets of less than a millisecond it
-- shows that value however far back it is. The buckets are fewer than 2^64.
pub resample_held-look_back :
    {V : Type 0} (float : Float V) (points : Series V) (since until : Timestamp) (buckets hold : ℕ)
    → buckets < 2 ^ 64
    → resample_held float points since until buckets hold
      ≡ look_back
          (λ d. leb (d * (max (until / 10 ^ 6 - since / 10 ^ 6) 1 / buckets)) hold)
          []
          (resample float points since until buckets)
unfolding resample_held max_run span
resample_held-look_back float points since until buckets hold h =
    let out = resample float points since until buckets in
    let width = max (until / 10 ^ 6 - since / 10 ^ 6) 1 / buckets in
    elim (Bool-cases (buckets == 0)) [
      | inr e ↦ rw e (
          filled (max_run since until buckets hold) out
          ∙ look_back-ext (λ d. leb d (max_run since until buckets hold))
              (λ d. leb (d * width) hold) [] out
              (λ d l. within width hold d (
                let n : length out ≡ buckets = length-resample float points since until buckets in
                omega (arith, l, n, h))))
      | inl e ↦
          let z : out ≡ [] = resample-no_buckets float points since until buckets (ground arith) in
          rw (e, z) refl
    ]
