-- ===== src/Severity.antt =====
-- crates/libsubby/src/severity.rs: severity bands and notification transitions.
--
-- An `f32` is not a number, infinite, or a signed multiple of 2^-149.
pub mod Bands
mod Samples
use subbier.Base.{
  ℕ, ◌*◌, ◌^◌, Bool, true, false, ◌&&◌, ◌||◌, not, Option, none, some, leb, ltb, ◌==◌,
  if◌then◌else◌,
}
use subbier.Model.{points}

pub data F32 : Type 0 where
  nan : F32
  infinity : F32
  minus_infinity : F32
  above : (magnitude : ℕ) → F32
  below : (magnitude : ℕ) → F32

abbrev pub is_finite : F32 → Bool
is_finite (above m) = true
is_finite (below m) = true
is_finite _ = false

-- `a >= b`.
abbrev pub at_least : F32 → F32 → Bool
at_least nan b = false
at_least infinity nan = false
at_least infinity _ = true
at_least minus_infinity minus_infinity = true
at_least minus_infinity _ = false
at_least (above m) (above n) = leb n m
at_least (above m) (below n) = true
at_least (above m) minus_infinity = true
at_least (above m) _ = false
at_least (below m) (above n) = m == 0 && n == 0
at_least (below m) (below n) = leb m n
at_least (below m) minus_infinity = true
at_least (below m) _ = false

-- `x < 0.0`.
abbrev pub is_negative : F32 → Bool
is_negative nan = false
is_negative x = not (at_least x (above 0))

pub data Severity : Type 0 where
  ok warn critical : Severity

-- The derived order.
abbrev pub rank : Severity → ℕ
rank ok = 0
rank warn = 1
rank critical = 2

abbrev pub default_warn_pct : F32
default_warn_pct = above (points 75)

abbrev pub default_critical_pct : F32
default_critical_pct = above (points 90)

abbrev pub finite_or : F32 → F32 → F32
finite_or default x = if is_finite x then x else default

abbrev pub band : F32 → F32 → F32 → Severity
band pct w c =
    if not (is_finite pct) || is_negative pct
    then ok
    else if at_least pct c
    then critical
    else if at_least pct w
    then warn
    else ok

unfoldable pub severity_for : (pct warn_pct critical_pct : F32) → Severity
severity_for pct warn_pct critical_pct =
    let c = finite_or default_critical_pct critical_pct in
    let w = finite_or default_warn_pct warn_pct in band pct (if at_least w c then c else w) c

pub record Transition : Type 0 where
  pub severity : Severity
  pub notify : Option Severity

unfoldable pub notification_transition : Option Severity → Severity → Transition
notification_transition prev current = record {
  severity = current;
  notify = elim prev [
    | none ↦ none
    | some previous ↦ if ltb (rank previous) (rank current) then some current else none
  ];
}
