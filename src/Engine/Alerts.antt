-- ===== src/Engine/Alerts.antt =====
-- The alerts and the severities after the windows of one report, for evaluate_alerts of engine.rs.
use subbier.Base.{
  ◌≡◌, refl, sym, inl, inr, ap, ◌∙◌, Bool, true, false, Option, none, some, List, [], ◌∷◌, ◌++◌,
  All, ltb, ◌==◌, arith, Bool-cases, Option-cases, if◌then◌else◌,
}
use mathlib.Core.List.{append-nil}
use subbier.Model.{SubId, UsageWindow}
use subbier.Severity.{Severity, rank, above, notification_transition}
use subbier.Engine.{
  WindowKind, same_window, Alert, UiConfig, Severities, Engine, set_severity, band_of, raised,
  evaluate_alert, evaluate_alerts,
}

-- Whether a window that was in a band before is in a more severe one.
abbrev rises : Option Severity → Severity → Bool
rises none current = false
rises (some previous) current = ltb (rank previous) (rank current)

abbrev alert_of : UiConfig → SubId → WindowKind × UsageWindow → Alert
alert_of ui id kw = record {
  sub = id;
  window = kw.0;
  severity = band_of ui kw.1;
  pct = above kw.1.pct;
}

-- An alert for each window that rises above its band in `m`, in order.
abbrev risen : UiConfig → SubId → Severities → List (WindowKind × UsageWindow) → List Alert
risen ui id m [] = []
risen ui id m (kw ∷ kws) =
    if rises (m id kw.0) (band_of ui kw.1)
    then alert_of ui id kw ∷ risen ui id m kws
    else risen ui id m kws

-- The same if alerts are on.
abbrev pub expected : UiConfig → SubId → Severities → List (WindowKind × UsageWindow) → List Alert
expected ui id m kws = if ui.notifications then risen ui id m kws else []

-- The band of the last window of a kind, or what was there before.
abbrev pub last_band :
    UiConfig → WindowKind → Option Severity → List (WindowKind × UsageWindow) → Option Severity
last_band ui k before [] = before
last_band ui k before (kw ∷ kws) =
    last_band ui k (if same_window kw.0 k then some (band_of ui kw.1) else before) kws

-- No kind stands twice.
abbrev pub Distinct : List (WindowKind × UsageWindow) → Type 0
Distinct [] = Unit {0}
Distinct (kw ∷ kws) = All (λ x. same_window kw.0 x.0 ≡ false) kws × Distinct kws

risen_unrelated :
    (ui : UiConfig) (id : SubId) (k : WindowKind) (s : Severity) (m : Severities)
    (kws : List (WindowKind × UsageWindow))
    → All (λ x. same_window k x.0 ≡ false) kws
    → risen ui id (set_severity id k s m) kws ≡ risen ui id m kws
risen_unrelated ui id k s m [] d = refl
risen_unrelated ui id k s m (kw ∷ kws) d =
    let y : (id == id) ≡ true = ground arith in
    rw (y, d.0, risen_unrelated ui id k s m kws d.1) refl

raised_lem :
    (ui : UiConfig) (id : SubId) (m : Severities) (kw : WindowKind × UsageWindow)
    → raised ui id kw (notification_transition (m id kw.0) (band_of ui kw.1)).notify
      ≡ expected ui id m (kw ∷ [])
unfolding notification_transition
raised_lem ui id m kw = elim (Option-cases (m id kw.0)) [
  | inl z ↦ rw z (ground arith)
  | inr (p, z) ↦ rw z (ground arith)
]

expected_cons :
    (ui : UiConfig) (id : SubId) (m : Severities) (kw : WindowKind × UsageWindow)
    (kws : List (WindowKind × UsageWindow)) (old : List Alert)
    → (old ++ expected ui id m (kw ∷ [])) ++ expected ui id m kws
      ≡ old ++ expected ui id m (kw ∷ kws)
expected_cons ui id m kw kws [] = ground arith
expected_cons ui id m kw kws (a ∷ old) = ap (λ l. a ∷ l) (expected_cons ui id m kw kws old)

evaluate_alerts-alerts :
    (id : SubId) (kws : List (WindowKind × UsageWindow)) (e : Engine)
    → Distinct kws
    → (evaluate_alerts id kws e).alerts ≡ e.alerts ++ expected e.ui id e.severities kws
unfolding evaluate_alerts evaluate_alert notification_transition
evaluate_alerts-alerts id [] e d = elim (Bool-cases e.ui.notifications) [
  | inl y ↦ rw y (sym (append-nil e.alerts))
  | inr n ↦ rw n (sym (append-nil e.alerts))
]
evaluate_alerts-alerts id (kw ∷ kws) e d =
    evaluate_alerts-alerts id kws (evaluate_alert id kw e) d.1
    ∙ rw
        (
          risen_unrelated e.ui id kw.0 (band_of e.ui kw.1) e.severities kws d.0,
          raised_lem e.ui id e.severities kw,
        )
        (expected_cons e.ui id e.severities kw kws e.alerts)

evaluate_alerts-severities :
    (id : SubId) (kws : List (WindowKind × UsageWindow)) (e : Engine) (i : SubId) (k : WindowKind)
    → (evaluate_alerts id kws e).severities i k
      ≡ (if i == id then last_band e.ui k (e.severities i k) kws else e.severities i k)
unfolding evaluate_alerts evaluate_alert notification_transition
evaluate_alerts-severities id [] e i k = ground arith
evaluate_alerts-severities id (kw ∷ kws) e i k =
    evaluate_alerts-severities id kws (evaluate_alert id kw e) i k
    ∙ elim (Bool-cases (i == id)) [ inl y ↦ rw y refl | inr n ↦ rw n refl ]

-- After the windows of a report of an account, in which no kind stands twice, the alerts are those
-- from before and then, if alerts are on, one for each window whose band is more severe than the
-- one on record, in order; and whether or not alerts are on, the band on record for a kind of that
-- account is that of the last window of the kind, and nothing else on record changes.
pub evaluate_alerts-expected :
    (id : SubId) (kws : List (WindowKind × UsageWindow)) (e : Engine)
    → Distinct kws
    → ((evaluate_alerts id kws e).alerts ≡ e.alerts ++ expected e.ui id e.severities kws)
      × ((i : SubId) (k : WindowKind)
          → (evaluate_alerts id kws e).severities i k
            ≡ (if i == id then last_band e.ui k (e.severities i k) kws else e.severities i k))
evaluate_alerts-expected id kws e d =
    (evaluate_alerts-alerts id kws e d, evaluate_alerts-severities id kws e)
