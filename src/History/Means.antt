-- ===== src/History/Means.antt =====
-- What the samples of a resampled series are, by the points (resample of
-- crates/libsubby/src/history.rs).
use subbier.Base.{
  ℕ, suc, ◌+◌, ◌-◌, ◌*◌, ◌/◌, ◌^◌, ◌≤◌, ◌<◌, min, max, ◌≡◌, ◌↔◌, ◌∙◌, refl, ap, inl, inr, Bool,
  true, false, ◌&&◌, ◌||◌, Option, none, some, List, [], ◌∷◌, map, filter, length, ltb, leb, ◌==◌,
  arith, Bool-cases, get_elem?,
}
use native.Mathlib.Nat.{le-div_iff_mul-le}
use subbier.Model.{Timestamp}
use subbier.History.{Float, Series, span, bucket_of, is_outside, bump, mean, resample}
use subbier.History.Buckets.{falls_in, bucket_sum, resample-bucket_sum}

-- Whole milliseconds.
abbrev millis : Timestamp → ℕ
millis t = t / 10 ^ 6

-- The range in milliseconds, at least one.
abbrev width : Timestamp → Timestamp → ℕ
width since until = max (millis until - millis since) 1

-- A point stands in bucket k of n: it is not before `since`, by the millisecond, nor after `until`,
-- and its way into the range is from k up to k + 1 parts in n of it; the last bucket takes whatever is
-- beyond, too.
abbrev pub stands_in : (since until : Timestamp) (n k : ℕ) → Timestamp → Bool
stands_in since until n k ts =
    leb (millis since) (millis ts)
    && leb ts until
    && leb (k * width since until) ((millis ts - millis since) * n)
    && (ltb ((millis ts - millis since) * n) (suc k * width since until) || suc k == n)

module _ {V : Type 0} (float : Float V) where
  -- The sum, from the first on.
  abbrev pub total : V → List V → V
  total sum [] = sum
  total sum (v ∷ vs) = total (float.add sum v) vs

  abbrev pub average : List V → Option V
  average [] = none
  average (v ∷ vs) = some (float.divide (total float.zero_value (v ∷ vs)) (length (v ∷ vs)))

abbrev pub values_in : {V : Type 0} → (Timestamp → Bool) → Series V → List V
values_in p points = map (λ x. x.1) (filter (λ x. p x.0) points)

-- Which number a quotient is, by the products on both sides of the dividend.
clamped_is :
    (q n k low high x : ℕ)
    → (k ≤ q) ↔ (low ≤ x)
    → (suc k ≤ q) ↔ (high ≤ x)
    → k < n
    → (min q (n - 1) == k) ≡ (leb low x && (ltb x high || suc k == n))
clamped_is q n k low high x a b l = elim (Bool-cases (leb low x)) [
  | inr f ↦ elim (Bool-cases (leb k q)) [
    | inl t ↦ absurd (let y : k ≤ q = ground (arith, t) in let z = a.0 y in ground (arith, z, f))
    | inr g ↦ rw f (ground (arith, g, l))
  ]
  | inl t ↦
      let m = a.1 (ground (arith, t)) in
      rw t (elim (Bool-cases (leb high x)) [
        | inl u ↦ let g = b.1 (ground (arith, u)) in ground (arith, g, l, u, m)
        | inr u ↦ elim (Bool-cases (leb (suc k) q)) [
          | inl v ↦
              absurd
                (let y : suc k ≤ q = ground (arith, v) in let z = b.0 y in ground (arith, z, u))
          | inr v ↦ ground (arith, u, v, m, l)
        ]
      ])
]

falls_in-stands_in :
    {V : Type 0} (float : Float V) (since until : Timestamp) (n k : ℕ) (ts : Timestamp)
    → k < n
    → falls_in float since until n k ts ≡ stands_in since until n k ts
unfolding bucket_of span
falls_in-stands_in float since until n k ts l =
    let w = width since until in
    let x = (millis ts - millis since) * n in
    let q =
      clamped_is (x / w) n k (k * w) (suc k * w) x
        (le-div_iff_mul-le {k = w} {x = k} {y = x} (omega arith))
        (le-div_iff_mul-le {k = w} {x = suc k} {y = x} (omega arith)) l in
    elim (Bool-cases (is_outside since until ts)) [
      | inl o ↦ elim (Bool-cases (leb (millis since) (millis ts))) [
        | inr a ↦ rw (o, a) refl
        | inl a ↦ let b : leb ts until ≡ false = ground (arith, o, a) in rw (o, a, b) refl
      ]
      | inr o ↦
          let y : leb (millis since) (millis ts) ≡ true = ground (arith, o) in
          let z : leb ts until ≡ true = ground (arith, o) in rw (o, y, z) q
    ]

module _ {V : Type 0} (float : Float V) (since until : Timestamp) (n k : ℕ) (h : k < n) where
  bucket_sum-total :
      (points : Series V) (slot : V × ℕ)
      → let vs = values_in (stands_in since until n k) points in
        bucket_sum float since until n k points slot ≡ (total float slot.0 vs, slot.1 + length vs)
  bucket_sum-total [] slot = let z : slot.1 + 0 ≡ slot.1 = omega arith in rw z refl
  bucket_sum-total (p ∷ ps) slot =
      let e = falls_in-stands_in float since until n k p.0 h in
      elim (Bool-cases (stands_in since until n k p.0)) [
        | inl y ↦
            let f : falls_in float since until n k p.0 ≡ true = e ∙ y in
            let vs = values_in (stands_in since until n k) ps in
            let c : (slot.1 + 1) + length vs ≡ slot.1 + suc (length vs) = omega arith in
            rw (f, y)
              (bucket_sum-total ps (bump float p.1 slot)
                ∙ ap (λ m. (total float (float.add slot.0 p.1) vs, m)) c)
        | inr m ↦
            let f : falls_in float since until n k p.0 ≡ false = e ∙ m in
            rw (f, m) (bucket_sum-total ps slot)
      ]

mean-average :
    {V : Type 0} (float : Float V) (vs : List V)
    → mean float (total float float.zero_value vs, 0 + length vs) ≡ average float vs
mean-average float [] = refl
mean-average float (v ∷ vs) =
    let z : 0 + suc (length vs) ≡ suc (length vs) = omega arith in
    let y : ltb 0 (suc (length vs)) ≡ true = ground arith in rw (z, y) refl

-- Each sample is the mean of the values that stand in its bucket, summed in their order, and there is
-- none for a bucket in which no point stands. A point stands in the bucket if it is not before the
-- range, by the millisecond, nor after its end, and its way into the range, which counts as a
-- millisecond if it is shorter, is within the bucket's part of it; the last bucket also takes the
-- points beyond its part.
pub resample-average :
    {V : Type 0} (float : Float V) (points : Series V) (since until : Timestamp) (buckets k : ℕ)
    → k < buckets
    → get_elem? (resample float points since until buckets) k
      ≡ some (average float (values_in (stands_in since until buckets k) points))
resample-average float points since until buckets k h =
    resample-bucket_sum float points since until buckets k h
    ∙ ap (λ s. some (mean float s))
        (bucket_sum-total float since until buckets k h points (float.zero_value, 0))
    ∙ ap some (mean-average float (values_in (stands_in since until buckets k) points))
