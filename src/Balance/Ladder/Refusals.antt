-- ===== src/Balance/Ladder/Refusals.antt =====
-- What the filters of select_in answer, in terms of the accounts (balance/mod.rs).
use subbier.Base.{
  ◌≤◌, ◌<◌, ◌≡◌, ◌⊎◌, Bool, true, false, Option, some, List, is_empty, is_none_or, Elem,
}
use subbier.Base.OrdMap.{lookup}
use subbier.Model.{Pct, Provider, Timestamp, points}
use subbier.Balance.Router.{
  SubStatus, PoolGate, Quarantine, contains, admits, has_ceiling, State, proxies, usable, until_of,
}
use subbier.Balance.Selection.{
  pool_empty, not_proxied, no_candidates, all_exhausted, Result, ok, err,
}
use subbier.Balance.Ladder.Live.{eligible}

-- An account at or over a limit of the pool.
abbrev pub AtLimit : PoolGate → SubStatus → Type 0
AtLimit gate s =
    ((p : Pct) × (s.session_pct ≡ some p) × (gate.max_session_pct ≤ p))
    ⊎ ((p : Pct) × (s.weekly_pct ≡ some p) × (gate.max_weekly_pct ≤ p))

abbrev pub is_admitted : Option PoolGate → SubStatus → Bool
is_admitted pool s = is_none_or (λ gate. admits gate s) pool

-- A quarantine of an account.
abbrev pub Quarantined : State → SubStatus → Timestamp → Type 0
Quarantined state s until =
    (q : Quarantine) × (lookup s.sub state.exhausted ≡ some q) × (q.until ≡ until)

module _ (state : State) (provider : Provider) (subs : List SubStatus)
    (pool : Option PoolGate) where
  -- The accounts that the pool is about.
  abbrev pub Able : SubStatus → Type 0
  Able s = Elem s subs × (usable provider s ≡ true)

  pub data Answer (r : Result (List SubStatus)) : Type 0 where
    live :
        proxies state.settings provider ≡ true
        → is_empty (eligible state provider pool subs) ≡ false
        → r ≡ ok (eligible state provider pool subs)
        → Answer r
    not_on : proxies state.settings provider ≡ false → r ≡ err (not_proxied provider) → Answer r
    no_account : ((s : SubStatus) → ¬ Able s) → r ≡ err (no_candidates provider) → Answer r
    no_member :
        (gate : PoolGate)
        → pool ≡ some gate
        → ((s : SubStatus) → Able s → contains gate s.sub ≡ false)
        → r ≡ err (pool_empty gate.name false)
        → Answer r
    over_ceiling :
        (gate : PoolGate)
        → pool ≡ some gate
        → (gate.max_session_pct < points 100) ⊎ (gate.max_weekly_pct < points 100)
        → ((s : SubStatus) → Able s → contains gate s.sub ≡ true → AtLimit gate s)
        → r ≡ err (pool_empty gate.name true)
        → Answer r
    full_without_ceiling :
        (gate : PoolGate)
        → pool ≡ some gate
        → points 100 ≤ gate.max_session_pct
        → points 100 ≤ gate.max_weekly_pct
        → ((s : SubStatus) → Able s → contains gate s.sub ≡ true → AtLimit gate s)
        → r ≡ err (pool_empty gate.name false)
        → Answer r
    quarantined :
        (first : SubStatus) (until : Timestamp)
        → Able first
        → is_admitted pool first ≡ true
        → Quarantined state first until
        → ((s : SubStatus)
            → Able s
            → is_admitted pool s ≡ true
            → (at : Timestamp) × Quarantined state s at × (until ≤ at))
        → r ≡ err (all_exhausted provider (some until))
        → Answer r

abbrev Capped : PoolGate → Type 0
Capped gate =
    ((has_ceiling gate ≡ true)
      × ((gate.max_session_pct < points 100) ⊎ (gate.max_weekly_pct < points 100)))
    ⊎ ((has_ceiling gate ≡ false)
        × (points 100 ≤ gate.max_session_pct)
        × (points 100 ≤ gate.max_weekly_pct))

-- The ends of the quarantines that `next_reset` compares.
abbrev end_of : State → SubStatus → Option Timestamp
end_of state s = until_of (lookup s.sub state.exhausted)
