-- ===== src/Balance/Ladder/Live.antt =====
-- The subs that a request may run on: the chain of filters against one description of them.
use subbier.Base.{
  ◌≡◌, ◌⊎◌, refl, sym, ap, ◌∙◌, inl, inr, Bool, true, false, ◌&&◌, Option, none, some, List, [],
  ◌∷◌, map, arith, filter, is_empty, is_none_or, filter-filter, filter-nonempty, Bool-cases,
  if◌then◌else◌,
}
use subbier.Model.{Provider, Timestamp, SubId}
use subbier.Balance.Router.{
  SubStatus, PoolGate, contains, admits, has_ceiling, State, proxies, usable, is_free, sweep,
  sort_ids, eligible_in,
}
use subbier.Balance.Selection.{
  pool_empty, not_proxied, no_candidates, all_exhausted, Result, ok, err,
}
use subbier.Balance.Ladder.{in_pool, live_subs, next_reset}
use mathlib.Core.Path.{fun_ext}

-- A sub may serve a request for `provider` in `pool`: it is enabled, logged in and of that provider,
-- the pool admits it, and it is not quarantined.
abbrev pub is_eligible : State → Provider → Option PoolGate → SubStatus → Bool
is_eligible state provider pool s =
    usable provider s && (is_none_or (λ gate. admits gate s) pool && is_free state s)

abbrev pub eligible : State → Provider → Option PoolGate → List SubStatus → List SubStatus
eligible state provider pool = filter (is_eligible state provider pool)

filter-ext :
    (p q : SubStatus → Bool) (xs : List SubStatus)
    → ((s : SubStatus) → p s ≡ q s)
    → filter p xs ≡ filter q xs
filter-ext p q xs h = ap (λ f. filter f xs) (fun_ext h)

-- What `in_pool` lets through, as one filter.
abbrev pub through : Option PoolGate → List SubStatus → List SubStatus
through pool = filter (λ s. is_none_or (λ gate. admits gate s) pool)

through-none : (xs : List SubStatus) → through none xs ≡ xs
through-none [] = refl
through-none (x ∷ xs) = ap (◌∷◌ x) (through-none xs)

contains-admits :
    (gate : PoolGate) (s : SubStatus) → (contains gate s.sub && admits gate s) ≡ admits gate s
unfolding admits
contains-admits gate s = ground arith

through-some :
    (gate : PoolGate) (xs : List SubStatus)
    → filter (admits gate) (filter (λ s. contains gate s.sub) xs) ≡ through (some gate) xs
through-some gate xs =
    filter-filter (admits gate) (λ s. contains gate s.sub) xs
    ∙ filter-ext (λ s. contains gate s.sub && admits gate s) (admits gate) xs (contains-admits gate)

in_pool-ok :
    (pool : Option PoolGate) (xs : List SubStatus)
    → is_empty (through pool xs) ≡ false
    → in_pool pool xs ≡ ok (through pool xs)
unfolding in_pool
in_pool-ok none xs h = ap ok (sym (through-none xs))
in_pool-ok (some gate) xs h =
    let members = filter (λ s. contains gate s.sub) xs in
    let e : is_empty (filter (admits gate) members) ≡ false =
      ap is_empty (through-some gate xs) ∙ h in
    rw (filter-nonempty (admits gate) members e, e) (ap ok (through-some gate xs))

module _ (state : State) (provider : Provider) (subs : List SubStatus)
    (pool : Option PoolGate) where
  abbrev pub able : List SubStatus
  able = filter (usable provider) subs

  -- The filters one after another are the one filter.
  eligible_lem : filter (is_free state) (through pool able) ≡ eligible state provider pool subs
  eligible_lem =
      filter-filter (is_free state) (λ s. is_none_or (λ gate. admits gate s) pool) able
      ∙ filter-filter (λ s. is_none_or (λ gate. admits gate s) pool && is_free state s)
          (usable provider) subs

  -- If the provider is proxied and some sub is eligible, the filters give the eligible subs.
  pub live_subs-ok :
      proxies state.settings provider ≡ true
      → is_empty (eligible state provider pool subs) ≡ false
      → live_subs state provider subs pool ≡ ok (eligible state provider pool subs)
  unfolding live_subs
  live_subs-ok p h =
      let l : is_empty (filter (is_free state) (through pool able)) ≡ false =
        ap is_empty eligible_lem ∙ h in
      let t = filter-nonempty (is_free state) (through pool able) l in
      let a = filter-nonempty _ able t in rw (p, a, in_pool-ok pool able t, l) (ap ok eligible_lem)

  -- Why a request is refused before any ranking, with the facts that each error reports.
  pub data Verdict (r : Result (List SubStatus)) : Type 0 where
    lives :
        proxies state.settings provider ≡ true
        → is_empty (eligible state provider pool subs) ≡ false
        → r ≡ ok (eligible state provider pool subs)
        → Verdict r
    off : proxies state.settings provider ≡ false → r ≡ err (not_proxied provider) → Verdict r
    nobody : is_empty able ≡ true → r ≡ err (no_candidates provider) → Verdict r
    outside :
        (gate : PoolGate)
        → pool ≡ some gate
        → is_empty (filter (λ s. contains gate s.sub) able) ≡ true
        → is_empty able ≡ false
        → r ≡ err (pool_empty gate.name false)
        → Verdict r
    too_full :
        (gate : PoolGate)
        → pool ≡ some gate
        → is_empty (filter (λ s. contains gate s.sub) able) ≡ false
        → is_empty (through pool able) ≡ true
        → r ≡ err (pool_empty gate.name (has_ceiling gate))
        → Verdict r
    used_up :
        is_empty (through pool able) ≡ false
        → is_empty (eligible state provider pool subs) ≡ true
        → r ≡ err (all_exhausted provider (next_reset state (through pool able)))
        → Verdict r

  through_empty :
      (q : Option PoolGate)
      → pool ≡ q
      → proxies state.settings provider ≡ true
      → is_empty able ≡ false
      → is_empty (through q able) ≡ true
      → Verdict (live_subs state provider subs q)
  unfolding live_subs in_pool
  through_empty none e p a t = absurd (let k = ap is_empty (through-none able) in ground arith)
  through_empty (some gate) e p a t =
      let members = filter (λ s. contains gate s.sub) able in
      let k : is_empty (filter (admits gate) members) ≡ true =
        ap is_empty (through-some gate able) ∙ t in
      elim (Bool-cases (is_empty members)) [
        | inl m ↦ outside gate e m a (rw (p, a, m))
        | inr m ↦ too_full gate e m (rw e t) (rw (p, a, m, k))
      ]

  -- `select_in`'s filters refuse for the reason that the error names: the provider is not proxied,
  -- no sub of it is enabled and logged in, none of those is in the pool, those in the pool are all
  -- over a ceiling of it, or those that remain are all quarantined, in which case the error carries
  -- the soonest end of their quarantines. Otherwise the live subs are exactly the eligible ones.
  pub live_subs-Verdict : Verdict (live_subs state provider subs pool)
  unfolding live_subs
  live_subs-Verdict = elim (Bool-cases (proxies state.settings provider)) [
    | inr p ↦ off p (rw p)
    | inl p ↦ elim (Bool-cases (is_empty able)) [
      | inl a ↦ nobody a (rw (p, a))
      | inr a ↦ elim (Bool-cases (is_empty (through pool able))) [
        | inl t ↦ through_empty pool refl p a t
        | inr t ↦ elim (Bool-cases (is_empty (eligible state provider pool subs))) [
          | inr l ↦ lives p l (live_subs-ok p l)
          | inl l ↦
              let k : is_empty (filter (is_free state) (through pool able)) ≡ true =
                ap is_empty eligible_lem ∙ l in
              used_up t l (rw (p, a, in_pool-ok pool able t, k))
        ]
      ]
    ]
  ]

and_swap : (a b c : Bool) → ((a && b) && c) ≡ (a && (c && b))
and_swap a b c = ground arith

eligible_in-filter :
    (state : State) (provider : Provider) (subs : List SubStatus) (pool : Option PoolGate)
    → filter
        (λ s. is_none_or (λ gate. admits gate s) pool)
        (filter (λ s. usable provider s && is_free state s) subs)
      ≡ eligible state provider pool subs
eligible_in-filter state provider subs pool =
    filter-filter (λ s. is_none_or (λ gate. admits gate s) pool)
      (λ s. usable provider s && is_free state s) subs
    ∙ filter-ext _ (is_eligible state provider pool) subs (λ s.
      and_swap (usable provider s) (is_free state s) (is_none_or (λ gate. admits gate s) pool))

abbrev pub ids_of : Result (List SubStatus) → List SubId
ids_of (ok live) = sort_ids (map (λ s. s.sub) live)
ids_of (err e) = []

no_ids : (live : List SubStatus) → is_empty live ≡ true → sort_ids (map (λ s. s.sub) live) ≡ []
unfolding sort_ids
no_ids [] h = refl
no_ids (s ∷ live) h = cc

refused-ids :
    (state : State) (provider : Provider) (subs : List SubStatus) (pool : Option PoolGate)
    (r : Result (List SubStatus))
    → (proxies state.settings provider ≡ false)
      ⊎ (is_empty (eligible state provider pool subs) ≡ true)
    → Verdict state provider subs pool r
    → ids_of r ≡ []
refused-ids state provider subs pool r (inl h) (lives p l e) = cc
refused-ids state provider subs pool r (inr h) (lives p l e) = cc
refused-ids state provider subs pool r h (off p e) = ap ids_of e
refused-ids state provider subs pool r h (nobody a e) = ap ids_of e
refused-ids state provider subs pool r h (outside gate q m a e) = ap ids_of e
refused-ids state provider subs pool r h (too_full gate q m t e) = ap ids_of e
refused-ids state provider subs pool r h (used_up t l e) = ap ids_of e

-- `eligible_in` returns, in `SubId` order, exactly the subs that `select_in` would consider at the
-- same moment, and none when `select_in` would refuse the request.
pub eligible_in-live_subs :
    (provider : Provider) (subs : List SubStatus) (pool : Option PoolGate) (now : Timestamp)
    (state : State)
    → (eligible_in provider subs pool now state).1
      ≡ ids_of (live_subs (sweep now state) provider subs pool)
unfolding eligible_in
eligible_in-live_subs provider subs pool now state =
    let swept = sweep now state in
    let live = eligible swept provider pool subs in
    let shown =
      ap (λ l. if proxies state.settings provider then sort_ids (map (λ s. s.sub) l) else [])
        (eligible_in-filter swept provider subs pool) in
    shown ∙ elim (Bool-cases (proxies state.settings provider)) [
      | inr p ↦ rw p (
          sym (
            refused-ids swept provider subs pool _ (inl p)
              (live_subs-Verdict swept provider subs pool)))
      | inl p ↦ elim (Bool-cases (is_empty live)) [
        | inr l ↦ rw (p, live_subs-ok swept provider subs pool p l) refl
        | inl l ↦ rw p (
            no_ids live l
            ∙ sym (
                refused-ids swept provider subs pool _ (inr l)
                  (live_subs-Verdict swept provider subs pool)))
      ]
    ]
