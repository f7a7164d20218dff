-- ===== src/Balance/Selection.antt =====
-- crates/libsubby/src/balance/mod.rs, what `select_in` takes and returns: hints, the reason of a
-- selection, and the errors with their HTTP status.
use subbier.Base.{ℕ, Bool, true, false, Option, String, if◌then◌else◌}
use subbier.Model.{SubId, Timestamp, Provider, StrategyKind}

pub record Hints : Type 0 where
  pub chain : Option SubId
  pub key : Option SubId

pub data SelectReason : Type 0 where
  pinned frozen affinity placement sticky : SelectReason
  strategy : StrategyKind → SelectReason

pub record Selection : Type 0 where
  pub sub : SubId
  pub reason : SelectReason
  pub candidates : ℕ

pub data SelectError : Type 0 where
  not_proxied : Provider → SelectError
  no_candidates : Provider → SelectError
  pool_empty : String → Bool → SelectError
  unknown_pool : String → SelectError
  all_exhausted : Provider → Option Timestamp → SelectError

-- `SelectError::status`.
unfoldable pub error_status : SelectError → ℕ
error_status (not_proxied provider) = 503
error_status (no_candidates provider) = 503
error_status (pool_empty pool over_ceiling) = if over_ceiling then 429 else 503
error_status (unknown_pool pool) = 404
error_status (all_exhausted provider next_reset) = 429

pub data Result {ℓ} (A : Type ℓ) : Type ℓ where
  ok : A → Result A
  err : SelectError → Result A

infixl 5 ◌>>=◌ ◌>>◌
abbrev pub ◌>>=◌ {ℓ κ} : {B : Type ℓ} {C : Type κ} → Result B → (B → Result C) → Result C
err why >>= next = err why
ok value >>= next = next value

abbrev pub ◌>>◌ {ℓ κ} : {B : Type ℓ} {C : Type κ} → Result B → Result C → Result C
err why >> rest = err why
ok value >> rest = rest

-- An early return with an error, if the test holds.
abbrev pub refuse_if : Bool → SelectError → Result (Unit {0})
refuse_if true e = err e
refuse_if false e = ok tt
