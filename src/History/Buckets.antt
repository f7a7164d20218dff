-- ===== src/History/Buckets.antt =====
-- The buckets of a resampled series, resample of crates/libsubby/src/history.rs.
use subbier.Base.{
  ℕ, zero, suc, ◌<◌, ◌≡◌, refl, inl, inr, Bool, false, Option, none, some, List, [], ◌∷◌, map, ◌==◌,
  if◌then◌else◌, arith, Bool-cases, get_elem?, length, length-map, ap, ◌∙◌,
}
use subbier.Model.{Timestamp}
use subbier.History.{
  Float, Series, is_outside, bucket_of, bump, bump_at, sum_up, mean, empty_slots, resample,
}

abbrev on_some : {A B : Type 0} → (A → B) → Option A → Option B
on_some f none = none
on_some f (some a) = some (f a)

get_elem?-map :
    {A B : Type 0} (f : A → B) (xs : List A) (k : ℕ)
    → get_elem? (map f xs) k ≡ on_some f (get_elem? xs k)
get_elem?-map f [] k = refl
get_elem?-map f (x ∷ xs) zero = refl
get_elem?-map f (x ∷ xs) (suc k) = get_elem?-map f xs k

module _ {V : Type 0} (float : Float V) (since until : Timestamp) (buckets : ℕ) where
  -- Whether a point lies between the ends and falls in the bucket.
  abbrev pub falls_in : ℕ → Timestamp → Bool
  falls_in k ts = if is_outside since until ts then false else bucket_of since until buckets ts == k

  -- The points of one bucket, summed up in order.
  abbrev pub bucket_sum : ℕ → Series V → V × ℕ → V × ℕ
  bucket_sum k [] slot = slot
  bucket_sum k (p ∷ ps) slot =
      bucket_sum k ps (if falls_in k p.0 then bump float p.1 slot else slot)

  get_elem?-bump_at :
      (i k : ℕ) (v : V) (slots : List (V × ℕ))
      → get_elem? (bump_at float i v slots) k
        ≡ (if i == k then on_some (bump float v) (get_elem? slots k) else get_elem? slots k)
  unfolding bump_at
  get_elem?-bump_at i k v [] = ground arith
  get_elem?-bump_at zero zero v (x ∷ xs) = ground arith
  get_elem?-bump_at zero (suc k) v (x ∷ xs) = ground arith
  get_elem?-bump_at (suc i) zero v (x ∷ xs) = ground arith
  get_elem?-bump_at (suc i) (suc k) v (x ∷ xs) =
      let q = get_elem?-bump_at i k v xs in ground (arith, q)

  get_elem?-sum_up :
      (ps : Series V) (slots : List (V × ℕ)) (k : ℕ) (slot : V × ℕ)
      → get_elem? slots k ≡ some slot
      → get_elem? (sum_up float since until buckets ps slots) k ≡ some (bucket_sum k ps slot)
  unfolding sum_up
  get_elem?-sum_up [] slots k slot e = e
  get_elem?-sum_up (p ∷ ps) slots k slot e = elim (Bool-cases (is_outside since until p.0)) [
    | inl o ↦ rw o (get_elem?-sum_up ps slots k slot e)
    | inr o ↦
        let b = bucket_of since until buckets p.0 in
        let g = get_elem?-bump_at b k p.1 slots in
        elim (Bool-cases (b == k)) [
          | inl q ↦
              rw (o, q)
                (get_elem?-sum_up ps (bump_at float b p.1 slots) k (bump float p.1 slot) (
                  let r : get_elem? (bump_at float b p.1 slots) k ≡ some (bump float p.1 slot) =
                    rw (q, e) at g in
                  r))
          | inr q ↦
              rw (o, q)
                (get_elem?-sum_up ps (bump_at float b p.1 slots) k slot (
                  let r : get_elem? (bump_at float b p.1 slots) k ≡ some slot = rw (q, e) at g in
                  r))
        ]
  ]

  get_elem?-empty_slots :
      (n k : ℕ) → k < n → get_elem? (empty_slots float n) k ≡ some (float.zero_value, 0)
  get_elem?-empty_slots zero k h = absurd (omega (arith, h))
  get_elem?-empty_slots (suc n) zero h = refl
  get_elem?-empty_slots (suc n) (suc k) h = get_elem?-empty_slots n k (omega (arith, h))

  sum_up-nil : (ps : Series V) → sum_up float since until buckets ps [] ≡ []
  unfolding sum_up bump_at
  sum_up-nil [] = refl
  sum_up-nil (p ∷ ps) = elim (Bool-cases (is_outside since until p.0)) [
    | inl o ↦ rw o (sum_up-nil ps)
    | inr o ↦ rw o (sum_up-nil ps)
  ]

-- Without buckets there are no samples.
pub resample-no_buckets :
    {V : Type 0} (float : Float V) (points : Series V) (since until : Timestamp) (buckets : ℕ)
    → buckets ≡ 0
    → resample float points since until buckets ≡ []
unfolding resample
resample-no_buckets float points since until buckets e =
    rw e (rw (sum_up-nil float since until 0 points) refl)

module _ {V : Type 0} (float : Float V) where
  length-bump_at :
      (i : ℕ) (v : V) (slots : List (V × ℕ)) → length (bump_at float i v slots) ≡ length slots
  unfolding bump_at
  length-bump_at i v [] = refl
  length-bump_at zero v (x ∷ xs) = refl
  length-bump_at (suc i) v (x ∷ xs) = ap suc (length-bump_at i v xs)

  length-sum_up :
      (since until : Timestamp) (buckets : ℕ) (ps : Series V) (slots : List (V × ℕ))
      → length (sum_up float since until buckets ps slots) ≡ length slots
  unfolding sum_up
  length-sum_up since until buckets [] slots = refl
  length-sum_up since until buckets (p ∷ ps) slots =
      elim (Bool-cases (is_outside since until p.0)) [
        | inl o ↦ rw o (length-sum_up since until buckets ps slots)
        | inr o ↦
            let b = bucket_of since until buckets p.0 in
            rw o (
              length-sum_up since until buckets ps (bump_at float b p.1 slots)
              ∙ length-bump_at b p.1 slots)
      ]

  length-empty_slots : (n : ℕ) → length (empty_slots float n) ≡ n
  length-empty_slots zero = refl
  length-empty_slots (suc n) = ap suc (length-empty_slots n)

  -- There is a sample for each bucket.
  pub length-resample :
      (points : Series V) (since until : Timestamp) (buckets : ℕ)
      → length (resample float points since until buckets) ≡ buckets
  unfolding resample
  length-resample points since until buckets =
      length-map (mean float) (sum_up float since until buckets points (empty_slots float buckets))
      ∙ length-sum_up since until buckets points (empty_slots float buckets)
      ∙ length-empty_slots buckets

-- What a bucket sums up to.
pub resample-bucket_sum :
    {V : Type 0} (float : Float V) (points : Series V) (since until : Timestamp) (buckets k : ℕ)
    → k < buckets
    → get_elem? (resample float points since until buckets) k
      ≡ some (mean float (bucket_sum float since until buckets k points (float.zero_value, 0)))
unfolding resample
resample-bucket_sum float points since until buckets k h =
    let slots = sum_up float since until buckets points (empty_slots float buckets) in
    let q =
      get_elem?-sum_up float since until buckets points (empty_slots float buckets) k
        (float.zero_value, 0) (get_elem?-empty_slots float since until buckets buckets k h) in
    rw (get_elem?-map (mean float) slots k, q) refl
