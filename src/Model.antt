-- ===== src/Model.antt =====
-- crates/libsubby/src/model.rs: the provider-free domain types.
--
-- A `SubId` and a `Timestamp` (nanoseconds) are native numbers. A percentage is an `f32` that
-- provider/mod.rs has normalised into 0..=100, so it is finite and not negative; every such `f32` is
-- a whole multiple of 2^-149, and `Pct` counts in that unit. Comparisons, `max` and the one
-- subtraction that the router makes are exact in it.
use subbier.Base.{ℕ, ◌*◌, ◌+◌, ◌^◌, Bool, true, false, Option, none, some, List, String, leb}

abbrev pub SubId : Type 0
SubId = ℕ

abbrev pub Timestamp : Type 0
Timestamp = ℕ

abbrev pub Pct : Type 0
Pct = ℕ

-- A whole number of percentage points as a `Pct`.
abbrev pub points : ℕ → Pct
points n = n * 2 ^ 149

pub data Provider : Type 0 where
  codex claude : Provider

-- Equality of providers, as derived.
abbrev pub same_provider : Provider → Provider → Bool
same_provider Provider.codex Provider.codex = true
same_provider Provider.claude Provider.claude = true
same_provider _ _ = false

-- `[A; 2]`, indexed by `Provider::index`.
pub record PerProvider {ℓ} (A : Type ℓ) : Type ℓ where
  pub codex : A
  pub claude : A

module _ {ℓ} {A : Type ℓ} where
  abbrev pub at : PerProvider A → Provider → A
  at v Provider.codex = v.codex
  at v Provider.claude = v.claude

  abbrev pub put : PerProvider A → Provider → A → PerProvider A
  put v Provider.codex a = record v { codex = a }
  put v Provider.claude a = record v { claude = a }

  abbrev pub both : A → PerProvider A
  both a = record { codex = a; claude = a }

pub data StrategyKind : Type 0 where
  lowest_usage highest_usage round_robin least_connections : StrategyKind

abbrev pub same_kind : StrategyKind → StrategyKind → Bool
same_kind lowest_usage lowest_usage = true
same_kind highest_usage highest_usage = true
same_kind round_robin round_robin = true
same_kind least_connections least_connections = true
same_kind _ _ = false

unfoldable pub default_sticky : StrategyKind → Bool
default_sticky lowest_usage = true
default_sticky highest_usage = true
default_sticky round_robin = false
default_sticky least_connections = false

pub record UsageWindow : Type 0 where
  pub pct : Pct
  pub resets_at : Option Timestamp
  pub started_at : Option Timestamp

pub record Usage : Type 0 where
  pub plan : Option String
  pub session : Option UsageWindow
  pub weekly : Option UsageWindow
  pub scoped : List (String × UsageWindow)
  pub limit_reached : Option Bool

pub record Tokens : Type 0 where
  pub access : String
  pub refresh : Option String
  pub expires_at : Option Timestamp

-- `exp - skew <= now`, with the subtraction moved to the other side.
unfoldable pub is_expired : Tokens → Timestamp → ℕ → Bool
is_expired tokens now skew = elim tokens.expires_at [
  | some exp ↦ leb exp (now + skew)
  | none ↦ true
]
