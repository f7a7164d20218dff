-- ===== src/Balance/Exhaustion.antt =====
-- crates/libsubby/src/balance/mod.rs, exhaustion: when a usage report means that an account is used
-- up, and until when a used-up account is skipped.
pub mod Reset
pub mod Ends
use subbier.Base.{
  ℕ, ◌+◌, ◌*◌, ◌^◌, max, min, Bool, true, false, ◌||◌, Option, none, some, List, [], ◌∷◌, ◌++◌, ltb,
  leb, if◌then◌else◌, map, filter, or_else, unwrap_or,
}
use subbier.Model.{Pct, Timestamp, points, UsageWindow, Usage}

-- Five minutes in nanoseconds.
abbrev pub blind_exhaustion : ℕ
blind_exhaustion = 5 * 60 * 10 ^ 9

abbrev pub window_pct : Option UsageWindow → Pct
window_pct none = 0
window_pct (some w) = w.pct

unfoldable pub effective_pct : Usage → Pct
effective_pct usage = max (window_pct usage.session) (window_pct usage.weekly)

-- `limit == Some(b)`.
abbrev pub says : Bool → Option Bool → Bool
says b none = false
says true (some v) = v
says false (some v) = if v then false else true

unfoldable pub is_exhausted : Usage → Bool
unfolding effective_pct
is_exhausted usage = says true usage.limit_reached || leb (points 100) (effective_pct usage)

-- The reset of one window, if it is known and still to come.
abbrev pub future_reset : Timestamp → Option UsageWindow → List (Pct × Timestamp)
future_reset now none = []
future_reset now (some w) = elim w.resets_at [
  | none ↦ []
  | some at ↦ if ltb now at then (w.pct, at) ∷ [] else []
]

abbrev pub future_resets : Timestamp → Option Usage → List (Pct × Timestamp)
future_resets now none = []
future_resets now (some u) = future_reset now u.session ++ future_reset now u.weekly

-- `Iterator::max` and `Iterator::min`.
abbrev pub max_of : List ℕ → Option ℕ
max_of [] = none
max_of (x ∷ xs) = elim (max_of xs) [ none ↦ some x | some y ↦ some (max x y) ]

abbrev pub min_of : List ℕ → Option ℕ
min_of [] = none
min_of (x ∷ xs) = elim (min_of xs) [ none ↦ some x | some y ↦ some (min x y) ]

abbrev pub reset_of : Pct × Timestamp → Timestamp
reset_of w = w.1

abbrev pub is_full : Pct × Timestamp → Bool
is_full w = leb (points 100) w.0

unfoldable pub exhaust_until : Timestamp → Option Usage → Timestamp
exhaust_until now usage =
    let windows = future_resets now usage in
    let full = max_of (map reset_of (filter is_full windows)) in
    unwrap_or (now + blind_exhaustion) (or_else full (min_of (map reset_of windows)))
