-- ===== src/Severity/Bands.antt =====
-- The bands in the order of the percentage, and which polls notify.
use subbier.Base.{
  ◌≤◌, ◌<◌, ◌≡◌, ◌+◌, inl, inr, true, false, not, ◌||◌, Option, none, some, List, [], ◌∷◌, arith,
  Bool-cases, ltb, length,
}
use subbier.Severity.{
  F32, is_finite, at_least, is_negative, Severity, ok, warn, critical, rank, band, severity_for,
  notification_transition,
}

at_least_trans : (a b c : F32) → at_least b a ≡ true → at_least a c ≡ true → at_least b c ≡ true
at_least_trans a b c h k = ground arith

positive_trans :
    (p q : F32)
    → is_finite q ≡ true
    → at_least q p ≡ true
    → (not (is_finite p) || is_negative p) ≡ false
    → (not (is_finite q) || is_negative q) ≡ false
positive_trans p q f h k = ground arith

band_mono :
    (p q w c : F32)
    → is_finite q ≡ true
    → at_least q p ≡ true
    → rank (band p w c) ≤ rank (band q w c)
band_mono p q w c f h = elim (Bool-cases (not (is_finite p) || is_negative p)) [
  | inl n ↦ rw n (omega arith)
  | inr n ↦
      let m = positive_trans p q f h n in
      let over_c = at_least_trans p q c h in
      let over_w = at_least_trans p q w h in rw (n, m) (ground (arith, over_c, over_w))
]

-- Under any two thresholds, also ones that are not finite or that stand the wrong way round, a
-- finite percentage never has a lower severity than a smaller one.
severity_for-at_least :
    (p q warn_pct critical_pct : F32)
    → is_finite q ≡ true
    → at_least q p ≡ true
    → rank (severity_for p warn_pct critical_pct) ≤ rank (severity_for q warn_pct critical_pct)
unfolding severity_for
severity_for-at_least p q warn_pct critical_pct f h = band_mono p q _ _ f h

-- The notifications of a run of polls.
unfoldable notifications : Option Severity → List Severity → List Severity
notifications prev [] = []
notifications prev (s ∷ ss) = elim (notification_transition prev s).notify [
  | none ↦ notifications (some s) ss
  | some n ↦ n ∷ notifications (some s) ss
]

-- The severities never fall, from `p` on.
abbrev NeverFalls : Severity → List Severity → Type 0
NeverFalls p [] = Unit {0}
NeverFalls p (s ∷ ss) = (rank p ≤ rank s) × NeverFalls s ss

rank-le : (s : Severity) → rank s ≤ 2
rank-le ok = omega arith
rank-le warn = omega arith
rank-le critical = omega arith

-- While the severity never falls, an account that was polled before notifies at most once for each
-- step that is left up to critical, however many polls there are.
notifications-NeverFalls :
    (p : Severity) (ss : List Severity)
    → NeverFalls p ss
    → length (notifications (some p) ss) + rank p ≤ 2
unfolding notifications notification_transition
notifications-NeverFalls p [] h = omega (arith, rank-le p)
notifications-NeverFalls p (s ∷ ss) h =
    let i = notifications-NeverFalls s ss h.1 in
    elim (Bool-cases (ltb (rank p) (rank s))) [
      | inl e ↦ let l : rank p < rank s = ground arith in rw (e, length) (omega (arith, i, l))
      | inr e ↦ rw (e, length) (omega (arith, i, h.0))
    ]
