-- ===== src/Balance/Select/Rank.antt =====
-- The last part of `select_in`, `rank_locked`: where the ranking points, and whom it answers with.
use subbier.Base.{
  ℕ, suc, ◌≤◌, ◌≡◌, refl, inl, inr, true, Option, none, some, List, [], ◌∷◌, arith, All, All-imp,
  Elem, here, there, get_elem?, get_elem?-All, is_empty, length, Bool-cases, if◌then◌else◌,
}
use subbier.Base.OrdMap.{lookup}
use subbier.Model.{
  SubId, Timestamp, Provider, at, StrategyKind, lowest_usage, highest_usage, round_robin,
  least_connections, Usage,
}
use subbier.Balance.Exhaustion.{is_exhausted}
use subbier.Balance.Strategy.{Candidate, StrategyState, pick, needs_usage}
use subbier.Balance.Strategy.Ranking.{pick-Preferred}
use subbier.Balance.Strategy.RoundRobin.{pick_round_robin-next}
use subbier.Balance.Router.{SubStatus, RouterSettings, State, is_free, candidate}
use subbier.Balance.Router.Invariant.{IsValid, exhaust-IsValid, hold-IsValid}
use subbier.Balance.Ladder.Wishes.{at-put}
use subbier.Balance.Selection.{Selection, SelectError, Result, ok, err}
use subbier.Balance.Select.{
  score, exhaust_if_full, quarantine_full, candidates_from, settle, choose, rank_locked,
}

pub pick-stands :
    (kind : StrategyKind) (c : Candidate) (cs : List Candidate) (state : StrategyState)
    → (d : Candidate) × (get_elem? (c ∷ cs) (pick kind (c ∷ cs) state).0 ≡ some d)
pick-stands lowest_usage c cs state = let p = (pick-Preferred c cs state).0 in (p.chosen, p.stands)
pick-stands highest_usage c cs state = let p = (pick-Preferred c cs state).1 in (p.chosen, p.stands)
pick-stands least_connections c cs state =
    let p = (pick-Preferred c cs state).2 in (p.chosen, p.stands)
pick-stands round_robin c cs state =
    let p = pick_round_robin-next c cs state in (p.0, unfold pick in p.1)

exhaust_if_full-IsValid :
    (sub : SubId) (u : Option Usage) (later : Timestamp) {state : State}
    → IsValid state
    → IsValid (exhaust_if_full sub u later state)
unfolding exhaust_if_full
exhaust_if_full-IsValid sub none later v = v
exhaust_if_full-IsValid sub (some u) later v = elim (Bool-cases (is_exhausted u)) [
  | inl e ↦ rw e (exhaust-IsValid sub (some u) later v)
  | inr e ↦ rw e v
]

pub quarantine_full-IsValid :
    (i : ℕ) (live : List SubStatus) (scores : List (Option Usage)) (later : Timestamp)
    {state : State}
    → IsValid state
    → IsValid (quarantine_full i live scores later state)
unfolding quarantine_full
quarantine_full-IsValid i [] scores later v = v
quarantine_full-IsValid i (s ∷ live) scores later v =
    quarantine_full-IsValid (suc i) live scores later
      (exhaust_if_full-IsValid s.sub (score scores i) later v)

-- A candidate comes from a live sub that is not quarantined.
abbrev pub ComesFrom : State → List SubStatus → Candidate → Type 0
ComesFrom state live d =
    (s : SubStatus) × Elem s live × (d.sub ≡ s.sub) × (lookup s.sub state.exhausted ≡ none)

is_free-lookup :
    (state : State) (s : SubStatus) → is_free state s ≡ true → lookup s.sub state.exhausted ≡ none
is_free-lookup state s e = ground arith

candidates_from-ComesFrom :
    (i : ℕ) (live : List SubStatus) (scores : List (Option Usage)) (state : State)
    → All (ComesFrom state live) (candidates_from i live scores state)
unfolding candidates_from candidate
candidates_from-ComesFrom i [] scores state = tt
candidates_from-ComesFrom i (s ∷ live) scores state =
    let rest =
      All-imp (ComesFrom state live) (ComesFrom state (s ∷ live)) _
        (λ d c. (c.0, there c.1, c.2, c.3)) (candidates_from-ComesFrom (suc i) live scores state) in
    elim (Bool-cases (is_free state s)) [
      | inl e ↦ rw e ((s, here refl, refl, is_free-lookup state s e), rest)
      | inr e ↦ rw e rest
    ]

candidates_from-length :
    (i : ℕ) (live : List SubStatus) (scores : List (Option Usage)) (state : State)
    → length (candidates_from i live scores state) ≤ length live
unfolding candidates_from
candidates_from-length i [] scores state = omega arith
candidates_from-length i (s ∷ live) scores state =
    ground (arith, candidates_from-length (suc i) live scores state)

-- What a ranked answer is: `s` serves it.
pub record Ranked (provider : Provider) (live : List SubStatus) (after : State) (sel : Selection)
    : Type 0 where
  pub status : SubStatus
  pub is_live : Elem status live
  pub serves : sel.sub ≡ status.sub
  pub is_free_now : lookup status.sub after.exhausted ≡ none
  pub holds_now : at after.current provider ≡ some sel.sub
  pub some_left : 1 ≤ sel.candidates
  pub counted : sel.candidates ≤ length live

abbrev pub RankOutcome : Provider → List SubStatus → State × Option (Result Selection) → Type 0
RankOutcome provider live (after, none) = ⊥
RankOutcome provider live (after, some (err e)) = IsValid after
RankOutcome provider live (after, some (ok sel)) = IsValid after × Ranked provider live after sel

module _ (provider : Provider) (live : List SubStatus) where
  settle-RankOutcome :
      (settings : RouterSettings) (count : ℕ) (state : State) (cursor : StrategyState)
      (d : Candidate)
      → IsValid state
      → ComesFrom state live d
      → 1 ≤ count
      → count ≤ length live
      → RankOutcome provider live (settle provider settings count state cursor (some d))
  settle-RankOutcome settings count state cursor d v (s, e, q, free) h k =
      let w = hold-IsValid provider d.sub (rw q free) v in
      (
        record { sorted = w.sorted; codex_free = w.codex_free; claude_free = w.claude_free },
        record {
          status = s;
          is_live = e;
          serves = q;
          is_free_now = free;
          holds_now = at-put state.current provider d.sub;
          some_left = h;
          counted = k;
        },
      )

  choose-RankOutcome :
      (settings : RouterSettings) (c : Candidate) (cs : List Candidate) (state : State)
      → IsValid state
      → All (ComesFrom state live) (c ∷ cs)
      → length (c ∷ cs) ≤ length live
      → RankOutcome provider live (choose provider settings (c ∷ cs) state)
  choose-RankOutcome settings c cs state v h k =
      let cursor = at state.strategies provider in
      let (d, e) = pick-stands settings.strategy c cs cursor in
      let from =
        get_elem?-All (ComesFrom state live) (c ∷ cs) (pick settings.strategy (c ∷ cs) cursor).0 d h
          e in
      rw e (
        settle-RankOutcome settings (length (c ∷ cs)) state
          (pick settings.strategy (c ∷ cs) cursor).1 d v from (omega arith) k)

  ranked_list :
      (settings : RouterSettings) (cs : List Candidate) (state : State) (e : SelectError)
      → IsValid state
      → All (ComesFrom state live) cs
      → length cs ≤ length live
      → RankOutcome provider live
          (if is_empty cs then (state, some (err e)) else choose provider settings cs state)
  ranked_list settings [] state e v h k = v
  ranked_list settings (c ∷ cs) state e v h k = choose-RankOutcome settings c cs state v h k

  -- The last part never points outside the candidates, keeps the invariant, and answers only with a
  -- live sub that is not quarantined after the usage round.
  pub rank_locked-RankOutcome :
      (settings : RouterSettings) (scores : List (Option Usage)) (later : Timestamp) (state : State)
      → IsValid state
      → RankOutcome provider live (rank_locked provider live settings scores later state)
  unfolding rank_locked
  rank_locked-RankOutcome settings scores later state v =
      let after =
        if needs_usage settings.strategy
        then quarantine_full 0 live scores later state
        else state in
      ranked_list settings (candidates_from 0 live scores after) after _
        (elim (Bool-cases (needs_usage settings.strategy)) [
          | inl e ↦ rw e (quarantine_full-IsValid 0 live scores later v)
          | inr e ↦ rw e v
        ])
        (candidates_from-ComesFrom 0 live scores after) (candidates_from-length 0 live scores after)
