-- ===== src/Poller/Backoff.antt =====
-- How long a failed poll keeps the next one away.
use subbier.Base.{
  ℕ, zero, suc, ◌≤◌, ◌≡◌, ◌-◌, ◌+◌, max, min, refl, inl, inr, some, arith, unwrap_or, ltb,
  filter_some, if◌then◌else◌, Option-cases, subst,
}
use subbier.Poller.{CachedError, retry_after, is_rate_limited, backoff, rung_wait, seconds}

rung_wait-top : (m : ℕ) → rung_wait (suc (suc (suc (suc m)))) ≡ seconds 900
rung_wait-top m = let q : min (suc (suc (suc (suc m)))) 4 ≡ 4 = omega arith in rw q refl

rung_wait-step :
    (m : ℕ)
    → (seconds 30 ≤ rung_wait m) × (rung_wait m ≤ rung_wait (suc m)) × (rung_wait m ≤ seconds 900)
rung_wait-step zero = (omega arith, omega arith, omega arith)
rung_wait-step (suc zero) = (omega arith, omega arith, omega arith)
rung_wait-step (suc (suc zero)) = (omega arith, omega arith, omega arith)
rung_wait-step (suc (suc (suc zero))) = (omega arith, omega arith, omega arith)
rung_wait-step (suc (suc (suc (suc m)))) =
    let here = rung_wait-top m in
    let next = rung_wait-top (suc m) in
    (omega (arith, here), omega (arith, here, next), omega (arith, here))

rung_wait_mono : (m k : ℕ) → rung_wait m ≤ rung_wait (k + m)
rung_wait_mono m zero = let q : zero + m ≡ m = omega arith in rw q (omega arith)
rung_wait_mono m (suc k) =
    let q : suc k + m ≡ suc (k + m) = omega arith in
    rw q (omega (arith, rung_wait_mono m k, (rung_wait-step (k + m)).1))

-- The rung of the ladder that a failure stands on.
abbrev rung : ℕ → CachedError → ℕ
rung failures e = failures - 1 + (if is_rate_limited e then 1 else 0)

capped : (c r : ℕ) → unwrap_or c (filter_some (λ floor. ltb c floor) (some r)) ≡ max c r
capped c r = ground arith

backoff-max :
    (failures : ℕ) (e : CachedError)
    → backoff failures e ≡ max (rung_wait (rung failures e)) (unwrap_or 0 (retry_after e))
unfolding backoff
backoff-max failures e = elim (Option-cases (retry_after e)) [
  | inl h ↦ rw h (omega arith)
  | inr (r, h) ↦ rw h (capped (rung_wait (rung failures e)) r)
]

-- The backoff after `g` failures in a row is at least half a minute, at least what the provider
-- asked for, at least the backoff after fewer failures with the same error, and no more than a
-- quarter of an hour unless the provider asked for more.
pub backoff-Bounds :
    (f g : ℕ) (e : CachedError)
    → f ≤ g
    → (seconds 30 ≤ backoff g e)
      × (unwrap_or 0 (retry_after e) ≤ backoff g e)
      × (backoff f e ≤ backoff g e)
      × (backoff g e ≤ max (seconds 900) (unwrap_or 0 (retry_after e)))
backoff-Bounds f g e h =
    let fewer = backoff-max f e in
    let more = backoff-max g e in
    let s = rung_wait-step (rung g e) in
    let k = rung g e - rung f e in
    let q : k + rung f e ≡ rung g e = omega arith in
    let m = subst (λ n. rung_wait (rung f e) ≤ rung_wait n) q (rung_wait_mono (rung f e) k) in
    (
      omega (arith, more, s.0),
      omega (arith, more),
      omega (arith, more, fewer, m),
      omega (arith, more, s.2),
    )
