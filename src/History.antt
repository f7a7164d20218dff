-- ===== src/History.antt =====
-- crates/libsubby/src/history.rs: a series resampled into buckets, and the buckets that a gap holds.
--
-- A timestamp is a number of nanoseconds. An `f64` is of any type, with the zero, the sum and the
-- quotient by a count that `resample` uses. A hold is not negative; nor is any moment before 1970.
pub mod Buckets
pub mod Gaps
pub mod Means
mod Samples
use subbier.Base.{
  ℕ, zero, suc, ◌+◌, ◌-◌, ◌*◌, ◌/◌, ◌^◌, min, max, Bool, true, false, ◌&&◌, ◌||◌, not, Option, none,
  some, List, [], ◌∷◌, map, ltb, leb, ◌==◌, if◌then◌else◌,
}
use subbier.Model.{Timestamp}

pub record Float (V : Type 0) : Type 0 where
  pub zero_value : V
  pub add : V → V → V
  pub divide : V → ℕ → V

-- `Timestamp::as_millisecond`.
abbrev pub as_millisecond : Timestamp → ℕ
as_millisecond t = t / 10 ^ 6

-- The points, oldest first.
abbrev pub Series : Type 0 → Type 0
Series V = List (Timestamp × V)

unfoldable pub span : Timestamp → Timestamp → ℕ
span since until = max (as_millisecond until - as_millisecond since) 1

-- `offset < 0 || *ts > until`.
abbrev pub is_outside : Timestamp → Timestamp → Timestamp → Bool
is_outside since until ts = ltb (as_millisecond ts) (as_millisecond since) || ltb until ts

-- The bucket of a point that is not outside.
unfoldable pub bucket_of : Timestamp → Timestamp → ℕ → Timestamp → ℕ
unfolding span
bucket_of since until buckets ts =
    min ((as_millisecond ts - as_millisecond since) * buckets / span since until) (buckets - 1)

-- How many empty buckets a value is carried over; `hold` is in milliseconds.
unfoldable pub max_run : Timestamp → Timestamp → ℕ → ℕ → ℕ
unfolding span
max_run since until buckets hold =
    let bucket_ms = span since until / buckets in
    if ltb 0 bucket_ms then min (hold / bucket_ms) (2 ^ 64 - 1) else 2 ^ 64 - 1

module _ {V : Type 0} (float : Float V) where
  -- A sum and how many points it has.
  abbrev pub bump : V → V × ℕ → V × ℕ
  bump value slot = (float.add slot.0 value, slot.1 + 1)

  unfoldable pub bump_at : ℕ → V → List (V × ℕ) → List (V × ℕ)
  bump_at i value [] = []
  bump_at zero value (slot ∷ slots) = bump value slot ∷ slots
  bump_at (suc i) value (slot ∷ slots) = slot ∷ bump_at i value slots

  -- The loop over the points.
  unfoldable pub sum_up : Timestamp → Timestamp → ℕ → Series V → List (V × ℕ) → List (V × ℕ)
  unfolding bump_at bucket_of
  sum_up since until buckets [] slots = slots
  sum_up since until buckets (p ∷ ps) slots = sum_up since until buckets ps (
      if is_outside since until p.0
      then slots
      else bump_at (bucket_of since until buckets p.0) p.1 slots)

  abbrev pub mean : V × ℕ → Option V
  mean slot = if ltb 0 slot.1 then some (float.divide slot.0 slot.1) else none

  -- `vec![(0.0, 0); buckets]`.
  abbrev pub empty_slots : ℕ → List (V × ℕ)
  empty_slots zero = []
  empty_slots (suc n) = (float.zero_value, 0) ∷ empty_slots n

  unfoldable pub resample : Series V → Timestamp → Timestamp → ℕ → List (Option V)
  unfolding sum_up
  resample points since until buckets =
      map mean (sum_up since until buckets points (empty_slots buckets))

module _ {V : Type 0} where
  -- The loop over the buckets, with the last known value and the length of the gap.
  unfoldable pub fill : ℕ → Option V → ℕ → List (Option V) → List (Option V)
  fill limit last run [] = []
  fill limit last run (some v ∷ slots) = some v ∷ fill limit (some v) 0 slots
  fill limit last run (none ∷ slots) =
      let held = if leb (run + 1) limit then last else none in
      held ∷ fill limit held (run + 1) slots

module _ {V : Type 0} (float : Float V) where
  unfoldable pub resample_held : Series V → Timestamp → Timestamp → ℕ → ℕ → List (Option V)
  unfolding resample fill
  resample_held points since until buckets hold =
      let out = resample float points since until buckets in
      if buckets == 0 then out else fill (max_run since until buckets hold) none 0 out
