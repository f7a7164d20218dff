-- ===== src/Balance/Select/Sound.antt =====
-- `select_in` as a whole: whom it answers with, for every scorer, and whatever other requests do to
-- the router between its two locks.
use subbier.Base.{
  ℕ, ◌≤◌, ◌≡◌, refl, sym, ap, subst, ◌∙◌, Bool, true, Option, none, some, List, arith, Elem,
  filter-Elem, any-Elem, find, find-true, any-nonempty, Elem-length, length, length-filter-le,
  ==_iff, ◌==◌,
}
use subbier.Base.OrdMap.{lookup}
use subbier.Model.{SubId, Timestamp, Provider, at, Usage}
use subbier.Balance.Router.{SubStatus, PoolGate, State, sweep, proxies}
use subbier.Balance.Router.Invariant.{IsValid, sweep-IsValid, hold-IsValid}
use subbier.Balance.Ladder.{Phase, holds, ladder, first_part, after_ladder}
use subbier.Balance.Ladder.Live.{
  Verdict, lives, off, nobody, outside, too_full, used_up, is_eligible, eligible, live_subs-Verdict,
  live_subs-ok,
}
use subbier.Balance.Ladder.Wishes.{wishes, Granted, Grants, ladder-Granted}
use subbier.Balance.Selection.{Hints, Selection, Result, ok, err}
use subbier.Balance.Select.{resume, select_in}
use subbier.Balance.Select.Rank.{RankOutcome, rank_locked-RankOutcome}

-- The answer names a sub of the request's list that was eligible at the start, that is not
-- quarantined at the end, and that the provider's requests now stick to.
pub record Served (swept : State) (provider : Provider) (subs : List SubStatus)
    (pool : Option PoolGate) (after : State) (sel : Selection) : Type 0 where
  pub status : SubStatus
  pub is_listed : Elem status subs
  pub was_eligible : is_eligible swept provider pool status ≡ true
  pub serves : sel.sub ≡ status.sub
  pub is_free_now : lookup sel.sub after.exhausted ≡ none
  pub holds_now : at after.current provider ≡ some sel.sub
  pub some_left : 1 ≤ sel.candidates
  pub counted : sel.candidates ≤ length subs

-- The first wish that is live at the start.
abbrev pub first_wish : State → Provider → List SubStatus → Hints → Option PoolGate → Option SubId
first_wish swept provider subs hints pool =
    find (holds (eligible swept provider pool subs)) (wishes swept provider hints)

abbrev pub Outcome :
    State → Provider → List SubStatus → Option PoolGate → State × Option (Result Selection) → Type 0
Outcome swept provider subs pool (after, none) = ⊥
Outcome swept provider subs pool (after, some (err e)) = IsValid after
Outcome swept provider subs pool (after, some (ok sel)) =
    IsValid after × Served swept provider subs pool after sel

module _ (swept : State) (provider : Provider) (subs : List SubStatus)
    (pool : Option PoolGate) where
  abbrev live : List SubStatus
  live = eligible swept provider pool subs

  abbrev test : SubStatus → Bool
  test = is_eligible swept provider pool

  ranked-Outcome :
      (r : State × Option (Result Selection))
      → RankOutcome provider live r
      → Outcome swept provider subs pool r
  ranked-Outcome (after, none) o = o
  ranked-Outcome (after, some (err e)) o = o
  ranked-Outcome (after, some (ok sel)) o =
      let k = o.1 in
      let (listed, was) = filter-Elem test k.status subs k.is_live in
      (
        o.0,
        record {
          status = k.status;
          is_listed = listed;
          was_eligible = was;
          serves = k.serves;
          is_free_now = rw k.serves k.is_free_now;
          holds_now = k.holds_now;
          some_left = k.some_left;
          counted = omega (arith, k.counted, length-filter-le test subs);
        },
      )

  -- A live sub comes from the list.
  holds-status :
      (sub : SubId) → holds live sub ≡ true → (s : SubStatus) × Elem s live × (sub ≡ s.sub)
  holds-status sub h =
      let (s, e, q) = any-Elem (λ s. s.sub == sub) live h in (s, e, sym ((==_iff s.sub sub).0 q))

  pub granted-Outcome :
      (sub : SubId) (after : State) (sel : Selection)
      → IsValid swept
      → holds live sub ≡ true
      → Grants swept provider live sub after sel
      → Outcome swept provider subs pool (after, some (ok sel))
  granted-Outcome sub after sel v h g =
      let (s, e, q) = holds-status sub h in
      let (listed, was) = filter-Elem test s subs e in
      let free : lookup sub swept.exhausted ≡ none = rw q (ground arith) in
      (
        subst IsValid (sym g.moved) (hold-IsValid provider sub free v),
        record {
          status = s;
          is_listed = listed;
          was_eligible = was;
          serves = g.granted ∙ q;
          is_free_now =
              ap (λ (t : State). lookup sel.sub t.exhausted) g.moved
              ∙ ap (λ x. lookup x swept.exhausted) g.granted
              ∙ free;
          holds_now = g.held_now ∙ ap some (sym g.granted);
          some_left = omega (arith, g.counted, Elem-length s live e);
          counted = omega (arith, g.counted, length-filter-le test subs);
        },
      )

module _ (scorer : List SubId → ℕ → List (Option Usage)) (meanwhile : State → State)
    (provider : Provider) (subs : List SubStatus) (hints : Hints) (pool : Option PoolGate) where
  module _ (later : Timestamp) (swept : State) where
    abbrev finish : State × Phase → State × Option (Result Selection)
    finish r = resume scorer meanwhile provider later r.0 r.1

    ladder-Outcome :
        (o : Option SubId) (r : Option (State × Selection))
        → first_wish swept provider subs hints pool ≡ o
        → Granted swept provider (eligible swept provider pool subs) o r
        → IsValid swept
        → IsValid (meanwhile swept)
        → Outcome swept provider subs pool
            (finish (after_ladder swept (eligible swept provider pool subs) r))
    ladder-Outcome none r e g v w = rw g (
        ranked-Outcome swept provider subs pool _ (
          rank_locked-RankOutcome provider (eligible swept provider pool subs) swept.settings _
            later (meanwhile swept) w))
    ladder-Outcome (some sub) r e (after, sel, q, g) v w = rw q (
        granted-Outcome swept provider subs pool sub after sel v
          (find-true _ sub (wishes swept provider hints) e) g)

    parts-Outcome :
        (r : Result (List SubStatus))
        → Verdict swept provider subs pool r
        → IsValid swept
        → IsValid (meanwhile swept)
        → Outcome swept provider subs pool (finish (first_part swept provider hints r))
    parts-Outcome r (lives p l e) v w = rw e (
        ladder-Outcome (first_wish swept provider subs hints pool) _ refl
          (ladder-Granted swept provider (eligible swept provider pool subs) hints) v w)
    parts-Outcome r (off p e) v w = rw e v
    parts-Outcome r (nobody a e) v w = rw e v
    parts-Outcome r (outside gate q m a e) v w = rw e v
    parts-Outcome r (too_full gate q m t e) v w = rw e v
    parts-Outcome r (used_up t l e) v w = rw e v

  -- Whatever the scorer reports, and whatever other requests do to the router between the two locks
  -- as long as they keep the invariant, `select_in` keeps the invariant, never panics, and answers
  -- only with a listed sub that was enabled, logged in, admitted by the pool and not quarantined at
  -- the start, that is not quarantined at the end, and that the provider now sticks to; it counts at
  -- least one candidate, and at most as many as there are subs.
  pub select_in-Outcome :
      (now later : Timestamp) (state : State)
      → IsValid state
      → ((s : State) → IsValid s → IsValid (meanwhile s))
      → Outcome
          (sweep now state)
          provider
          subs
          pool
          (select_in scorer meanwhile provider subs hints pool now later state)
  unfolding select_in
  select_in-Outcome now later state v keeps =
      let swept = sweep now state in
      let w = sweep-IsValid now v in
      parts-Outcome later swept _ (live_subs-Verdict swept provider subs pool) w (keeps swept w)

  -- The first wish that is live is granted without a usage round: neither the scorer nor what happens
  -- meanwhile can change the answer. The order of the wishes is the user's pin, the current sub while
  -- auto-switch is off, the hint of the conversation, the hint of the cache key, and the current sub
  -- while the settings are sticky. The answered sub is held for the provider, nothing else of the
  -- router changes after the sweep, and the candidates counted are the eligible subs.
  pub select_in-wish :
      (now later : Timestamp) (state : State) (sub : SubId)
      → proxies state.settings provider ≡ true
      → first_wish (sweep now state) provider subs hints pool ≡ some sub
      → (after : State) × (sel : Selection) × (select_in scorer meanwhile provider subs hints pool
            now later state
          ≡ (after, some (ok sel)))
        × Grants
            (sweep now state)
            provider
            (eligible (sweep now state) provider pool subs)
            sub
            after
            sel
  unfolding select_in sweep
  select_in-wish now later state sub p e =
      let swept = sweep now state in
      let live = eligible swept provider pool subs in
      let full =
        any-nonempty (λ s. s.sub == sub) live
          (find-true (holds live) sub (wishes swept provider hints) e) in
      let (after, sel, q, g) =
        subst (λ o. Granted swept provider live o (ladder swept provider hints live)) e
          (ladder-Granted swept provider live hints) in
      (after, sel, rw (live_subs-ok swept provider subs pool p full, q), g)
