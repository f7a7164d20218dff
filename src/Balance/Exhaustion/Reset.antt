-- ===== src/Balance/Exhaustion/Reset.antt =====
-- The moment until which a used-up account is skipped.
use subbier.Base.{
  Bool-cases, All-elem, All-append, max, min, ◌⊎◌, unwrap_or, or_else, inl, inr, Option-cases,
  map-Elem, Elem-map, filter-Elem, Elem-filter, filter, ℕ, ◌+◌, ◌≤◌, ◌<◌, ◌≡◌, refl, Option, none,
  some, List, [], ◌∷◌, map, arith, Elem, All, here, there,
}
use subbier.Model.{Pct, Timestamp, Usage, UsageWindow, points}
use subbier.Balance.Exhaustion.{
  blind_exhaustion, future_reset, future_resets, max_of, min_of, reset_of, is_full, exhaust_until,
}

-- How the end of a quarantine is chosen among the windows that reset later than now.
pub data IsReset (now : Timestamp) (windows : List (Pct × Timestamp)) (until : Timestamp)
    : Type 0 where
  latest_full :
      (pct : Pct)
      → Elem (pct, until) windows
      → points 100 ≤ pct
      → ((q : Pct) (at : Timestamp) → Elem (q, at) windows → points 100 ≤ q → at ≤ until)
      → IsReset now windows until
  earliest :
      (pct : Pct)
      → Elem (pct, until) windows
      → ((q : Pct) (at : Timestamp) → Elem (q, at) windows → (q < points 100) × (until ≤ at))
      → IsReset now windows until
  blind : windows ≡ [] → until ≡ now + blind_exhaustion → IsReset now windows until

max-cases : (x y : ℕ) → (max x y ≡ x) ⊎ (max x y ≡ y)
max-cases x y = grind arith

min-cases : (x y : ℕ) → (min x y ≡ x) ⊎ (min x y ≡ y)
min-cases x y = grind arith

max_of-none : (xs : List ℕ) (a : ℕ) → max_of xs ≡ none → ¬ Elem a xs
max_of-none [] a h e = elim e [ ]
max_of-none (x ∷ xs) a h e = ground arith

pub min_of-none : (xs : List ℕ) (a : ℕ) → min_of xs ≡ none → ¬ Elem a xs
min_of-none [] a h e = elim e [ ]
min_of-none (x ∷ xs) a h e = ground arith

max_of-Elem : (xs : List ℕ) (m : ℕ) → max_of xs ≡ some m → Elem m xs
max_of-Elem [] m h = cc
max_of-Elem (x ∷ xs) m h = elim (Option-cases (max_of xs)) [
  | inl k ↦ here (ground arith)
  | inr (y, k) ↦ elim (max-cases x y) [
    | inl e ↦ here (ground arith)
    | inr e ↦ there (max_of-Elem xs m (ground arith))
  ]
]

pub min_of-Elem : (xs : List ℕ) (m : ℕ) → min_of xs ≡ some m → Elem m xs
min_of-Elem [] m h = cc
min_of-Elem (x ∷ xs) m h = elim (Option-cases (min_of xs)) [
  | inl k ↦ here (ground arith)
  | inr (y, k) ↦ elim (min-cases x y) [
    | inl e ↦ here (ground arith)
    | inr e ↦ there (min_of-Elem xs m (ground arith))
  ]
]

-- What bounds the maximum bounds every element.
max_of-le : (xs : List ℕ) (m a : ℕ) → max_of xs ≡ some m → Elem a xs → a ≤ m
max_of-le [] m a h e = elim e [ ]
max_of-le (x ∷ xs) m a h (here q) = ground arith
max_of-le (x ∷ xs) m a h (there t) = elim (Option-cases (max_of xs)) [
  | inl k ↦ absurd (max_of-none xs a k t)
  | inr (y, k) ↦ let b = max_of-le xs y a k t in ground arith
]

pub min_of-le : (xs : List ℕ) (m a : ℕ) → min_of xs ≡ some m → Elem a xs → m ≤ a
min_of-le [] m a h e = elim e [ ]
min_of-le (x ∷ xs) m a h (here q) = ground arith
min_of-le (x ∷ xs) m a h (there t) = elim (Option-cases (min_of xs)) [
  | inl k ↦ absurd (min_of-none xs a k t)
  | inr (y, k) ↦ let b = min_of-le xs y a k t in ground arith
]

no_resets : (ws : List (Pct × Timestamp)) → min_of (map reset_of ws) ≡ none → ws ≡ []
no_resets [] h = refl
no_resets (w ∷ ws) h = absurd (min_of-none (map reset_of (w ∷ ws)) (reset_of w) h (here refl))

none_full :
    (ws : List (Pct × Timestamp)) (w : Pct × Timestamp)
    → max_of (map reset_of (filter is_full ws)) ≡ none
    → Elem w ws
    → w.0 < points 100
none_full ws w e k = elim (Bool-cases (is_full w)) [
  | inl full ↦ absurd (
      max_of-none _ (reset_of w) e
        (Elem-map reset_of w (filter is_full ws) (Elem-filter is_full w ws k full)))
  | inr free ↦ ground arith
]

module _ (now : Timestamp) (ws : List (Pct × Timestamp)) where
  -- The choice that `exhaust_until` makes among the windows that it has collected.
  abbrev choice : Timestamp
  choice =
      unwrap_or (now + blind_exhaustion)
        (or_else (max_of (map reset_of (filter is_full ws))) (min_of (map reset_of ws)))

  full-IsReset : (m : ℕ) → max_of (map reset_of (filter is_full ws)) ≡ some m → IsReset now ws m
  full-IsReset m e =
      let (w, we, wq) = map-Elem reset_of m (filter is_full ws) (max_of-Elem _ m e) in
      let (inside, full) = filter-Elem is_full w ws we in
      latest_full w.0 (rw wq inside) (ground arith) (λ q at k big. max_of-le _ m at e (
        Elem-map reset_of (q, at) (filter is_full ws)
          (Elem-filter is_full (q, at) ws k (ground arith))))

  choice-IsReset : IsReset now ws choice
  choice-IsReset = elim (Option-cases (max_of (map reset_of (filter is_full ws)))) [
    | inr (m, e) ↦ rw e (full-IsReset m e)
    | inl e ↦ elim (Option-cases (min_of (map reset_of ws))) [
      | inl k ↦ rw (e, k) (blind (no_resets ws k) refl)
      | inr (m, k) ↦
          let (w, we, wq) = map-Elem reset_of m ws (min_of-Elem _ m k) in
          rw (e, k)
            (earliest w.0 (rw wq we) (λ q at h.
              (none_full ws (q, at) e h, min_of-le _ m at k (Elem-map reset_of (q, at) ws h))))
    ]
  ]

-- A quarantine lasts until the latest reset among the full windows that reset in the future; with
-- no such window, until the earliest future reset; with no future reset at all, five minutes.
pub exhaust_until-IsReset :
    (now : Timestamp) (usage : Option Usage)
    → IsReset now (future_resets now usage) (exhaust_until now usage)
unfolding exhaust_until
exhaust_until-IsReset now usage = choice-IsReset now (future_resets now usage)

abbrev Later : Timestamp → Pct × Timestamp → Type 0
Later now w = now < reset_of w

future_reset-Later :
    (now : Timestamp) (window : Option UsageWindow) → All (Later now) (future_reset now window)
future_reset-Later now window = ground arith

future_resets-Later :
    (now : Timestamp) (usage : Option Usage) → All (Later now) (future_resets now usage)
future_resets-Later now none = tt
future_resets-Later now (some u) =
    All-append (Later now) (future_reset now u.session) (future_reset now u.weekly)
      (future_reset-Later now u.session) (future_reset-Later now u.weekly)

IsReset-Later :
    {now until : Timestamp} {ws : List (Pct × Timestamp)}
    → IsReset now ws until
    → All (Later now) ws
    → now < until
IsReset-Later {until = until} {ws = ws} (latest_full pct e f l) h =
    All-elem (Later _) (pct, until) ws h e
IsReset-Later {until = until} {ws = ws} (earliest pct e l) h =
    All-elem (Later _) (pct, until) ws h e
IsReset-Later (blind e q) h = omega arith

-- So a quarantine always ends strictly in the future.
exhaust_until-later : (now : Timestamp) (usage : Option Usage) → now < exhaust_until now usage
exhaust_until-later now usage =
    IsReset-Later (exhaust_until-IsReset now usage) (future_resets-Later now usage)
