-- ===== src/Balance/Exhaustion/Ends.antt =====
-- The end of a quarantine, by the windows of the usage report (exhaust_until of balance/mod.rs).
use subbier.Base.{
  ◌+◌, ◌*◌, ◌^◌, ◌≤◌, ◌<◌, ◌≡◌, ◌⊎◌, inl, inr, refl, sym, ap, subst, true, if◌then◌else◌, ◌++◌,
  Option, none, some, List, [], ◌∷◌, ltb, arith, Elem, here, there, Bool-cases, Option-cases,
}
use subbier.Model.{Pct, Timestamp, Usage, UsageWindow, points}
use subbier.Balance.Exhaustion.{future_reset, future_resets, exhaust_until}
use subbier.Balance.Exhaustion.Reset.{IsReset, exhaust_until-IsReset}

-- The two windows of a report that count.
abbrev pub IsWindow : Option Usage → UsageWindow → Type 0
IsWindow none w = ⊥
IsWindow (some u) w = (u.session ≡ some w) ⊎ (u.weekly ≡ some w)

-- One of them is used to `pct` and resets later than now.
abbrev pub Resets : Timestamp → Option Usage → Pct → Timestamp → Type 0
Resets now usage pct at =
    (w : UsageWindow) × IsWindow usage w × (w.pct ≡ pct) × (w.resets_at ≡ some at) × (now < at)

pub data IsEnd (now : Timestamp) (usage : Option Usage) (until : Timestamp) : Type 0 where
  latest_full :
      (pct : Pct)
      → Resets now usage pct until
      → points 100 ≤ pct
      → ((q : Pct) (at : Timestamp) → Resets now usage q at → points 100 ≤ q → at ≤ until)
      → IsEnd now usage until
  earliest :
      (pct : Pct)
      → Resets now usage pct until
      → ((q : Pct) (at : Timestamp) → Resets now usage q at → (q < points 100) × (until ≤ at))
      → IsEnd now usage until
  none_ahead :
      ((q : Pct) (at : Timestamp) → ¬ Resets now usage q at)
      → until ≡ now + 5 * 60 * 10 ^ 9
      → IsEnd now usage until

Elem-left : {A : Type 0} (a : A) (xs ys : List A) → Elem a xs → Elem a (xs ++ ys)
Elem-left a [] ys h = elim h [ ]
Elem-left a (x ∷ xs) ys (here q) = here q
Elem-left a (x ∷ xs) ys (there t) = there (Elem-left a xs ys t)

Elem-right : {A : Type 0} (a : A) (xs ys : List A) → Elem a ys → Elem a (xs ++ ys)
Elem-right a [] ys h = h
Elem-right a (x ∷ xs) ys h = there (Elem-right a xs ys h)

Elem-either : {A : Type 0} (a : A) (xs ys : List A) → Elem a (xs ++ ys) → Elem a xs ⊎ Elem a ys
Elem-either a [] ys h = inr h
Elem-either a (x ∷ xs) ys (here q) = inl (here q)
Elem-either a (x ∷ xs) ys (there t) = elim (Elem-either a xs ys t) [
  | inl e ↦ inl (there e)
  | inr e ↦ inr e
]

module _ (now : Timestamp) where
  future_reset-some :
      (w : UsageWindow) (at : Timestamp)
      → w.resets_at ≡ some at
      → now < at
      → Elem {A = Pct × Timestamp} (w.pct, at) (future_reset now (some w))
  future_reset-some w at r l = let t : ltb now at ≡ true = ground arith in rw (r, t) (here refl)

  -- What a window with a reset stands for.
  single :
      (w : UsageWindow) (x : Timestamp) (pct : Pct) (at : Timestamp)
      → w.resets_at ≡ some x
      → now < x
      → Elem {A = Pct × Timestamp} (pct, at) ((w.pct, x) ∷ [])
      → (w.pct ≡ pct) × (w.resets_at ≡ some at) × (now < at)
  single w x pct at r l (here q) =
      let e : at ≡ x = ap (λ p. p.1) q in (sym (ap (λ p. p.0) q), rw e r, rw e l)
  single w x pct at r l (there t) = elim t [ ]

  future_reset-from :
      (w : UsageWindow) (pct : Pct) (at : Timestamp)
      → Elem {A = Pct × Timestamp} (pct, at) (future_reset now (some w))
      → (w.pct ≡ pct) × (w.resets_at ≡ some at) × (now < at)
  future_reset-from w pct at h = elim (Option-cases w.resets_at) [
    | inl n ↦ let z : Elem {A = Pct × Timestamp} (pct, at) [] = rw n at h in elim z [ ]
    | inr (x, r) ↦
        let z : Elem {A = Pct × Timestamp} (pct, at) (if ltb now x then (w.pct, x) ∷ [] else []) =
          rw r at h in
        elim (Bool-cases (ltb now x)) [
          | inl t ↦
              let y : Elem {A = Pct × Timestamp} (pct, at) ((w.pct, x) ∷ []) = rw t at z in
              single w x pct at r (ground arith) y
          | inr f ↦ let y : Elem {A = Pct × Timestamp} (pct, at) [] = rw f at z in elim y [ ]
        ]
  ]

  future_reset-window :
      (o : Option UsageWindow) (pct : Pct) (at : Timestamp)
      → Elem {A = Pct × Timestamp} (pct, at) (future_reset now o)
      → (w : UsageWindow) × (o ≡ some w) × (w.pct ≡ pct) × (w.resets_at ≡ some at) × (now < at)
  future_reset-window none pct at h = elim h [ ]
  future_reset-window (some w) pct at h =
      let f = future_reset-from w pct at h in (w, refl, f.0, f.1, f.2)

  future_resets-Resets :
      (usage : Option Usage) (pct : Pct) (at : Timestamp)
      → Elem {A = Pct × Timestamp} (pct, at) (future_resets now usage)
      → Resets now usage pct at
  future_resets-Resets none pct at h = elim h [ ]
  future_resets-Resets (some u) pct at h =
      elim (Elem-either (pct, at) (future_reset now u.session) (future_reset now u.weekly) h) [
        | inl e ↦
            let (w, q, p, r, l) = future_reset-window u.session pct at e in (w, inl q, p, r, l)
        | inr e ↦ let (w, q, p, r, l) = future_reset-window u.weekly pct at e in (w, inr q, p, r, l)
      ]

  Resets-future_resets :
      (usage : Option Usage) (pct : Pct) (at : Timestamp)
      → Resets now usage pct at
      → Elem {A = Pct × Timestamp} (pct, at) (future_resets now usage)
  Resets-future_resets none pct at (w, i, p, r, l) = absurd i
  Resets-future_resets (some u) pct at (w, inl q, p, r, l) =
      let e : Elem {A = Pct × Timestamp} (pct, at) (future_reset now (some w)) =
        subst (λ x. Elem {A = Pct × Timestamp} (x, at) (future_reset now (some w))) p
          (future_reset-some w at r l) in
      Elem-left (pct, at) (future_reset now u.session) (future_reset now u.weekly)
        (subst (λ o. Elem {A = Pct × Timestamp} (pct, at) (future_reset now o)) (sym q) e)
  Resets-future_resets (some u) pct at (w, inr q, p, r, l) =
      let e : Elem {A = Pct × Timestamp} (pct, at) (future_reset now (some w)) =
        subst (λ x. Elem {A = Pct × Timestamp} (x, at) (future_reset now (some w))) p
          (future_reset-some w at r l) in
      Elem-right (pct, at) (future_reset now u.session) (future_reset now u.weekly)
        (subst (λ o. Elem {A = Pct × Timestamp} (pct, at) (future_reset now o)) (sym q) e)

  IsReset-IsEnd :
      (usage : Option Usage) (until : Timestamp)
      → IsReset now (future_resets now usage) until
      → IsEnd now usage until
  IsReset-IsEnd usage until (IsReset.latest_full pct e full l) =
      latest_full pct (future_resets-Resets usage pct until e) full
        (λ q at r big. l q at (Resets-future_resets usage q at r) big)
  IsReset-IsEnd usage until (IsReset.earliest pct e l) =
      earliest pct (future_resets-Resets usage pct until e)
        (λ q at r. l q at (Resets-future_resets usage q at r))
  IsReset-IsEnd usage until (IsReset.blind n q) =
      none_ahead
        (λ p at r.
          let z : Elem {A = Pct × Timestamp} (p, at) [] =
            rw n at (Resets-future_resets usage p at r) in
          elim z [ ])
        q

-- The end of a quarantine: of the session and the weekly window of the report, those count that have
-- a reset later than now. It is the latest reset among the full ones of these; with no full one, the
-- earliest reset of them; and with none at all, five minutes from now.
pub exhaust_until-IsEnd :
    (now : Timestamp) (usage : Option Usage) → IsEnd now usage (exhaust_until now usage)
exhaust_until-IsEnd now usage =
    IsReset-IsEnd now usage (exhaust_until now usage) (exhaust_until-IsReset now usage)
