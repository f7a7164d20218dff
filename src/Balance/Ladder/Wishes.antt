-- ===== src/Balance/Ladder/Wishes.antt =====
-- The rungs before the strategies, as a list of wishes of which the first live one is granted.
use subbier.Base.{
  ◌≡◌, refl, sym, ap, subst, ◌∙◌, inl, inr, Bool, true, false, not, Option, none, some, List, [],
  ◌∷◌, ◌++◌, arith, find, length, or_else, Bool-cases, if◌then◌else◌,
}
use subbier.Model.{Provider, PerProvider, SubId, at, put}
use subbier.Balance.Router.{SubStatus, State, is_sticky}
use subbier.Balance.Selection.{
  Hints, Selection, SelectReason, pinned, frozen, affinity, placement, sticky,
}
use subbier.Balance.Ladder.{holds, held, held_if, hold, ladder, answer, climb}

abbrev pub one : Option SubId → List SubId
one none = []
one (some s) = s ∷ []

abbrev pub one_if : Bool → Option SubId → List SubId
one_if test o = if test then one o else []

-- Where a request would rather run, strongest first: the user's pin, the current sub while
-- auto-switch is off, the sub of the conversation, the sub of the cache key, and the current sub
-- while the settings are sticky.
unfoldable pub wishes : State → Provider → Hints → List SubId
wishes state provider hints =
    one state.pinned
    ++ (one_if (not state.settings.auto_switch) (at state.current provider)
        ++ (one hints.chain
            ++ (one hints.key ++ one_if (is_sticky state.settings) (at state.current provider))))

-- What an answer of the ladder looks like.
pub record Grants (state : State) (provider : Provider) (live : List SubStatus) (sub : SubId)
    (after : State) (s : Selection) : Type 0 where
  pub granted : s.sub ≡ sub
  pub counted : s.candidates ≡ length live
  pub held_now : at after.current provider ≡ some sub
  pub moved : after ≡ hold state provider sub

abbrev pub Granted :
    State → Provider → List SubStatus → Option SubId → Option (State × Selection) → Type 0
Granted state provider live none r = r ≡ none
Granted state provider live (some sub) r =
    (after : State) × (s : Selection) × (r ≡ some (after, s))
    × Grants state provider live sub after s

module _ (live : List SubStatus) where
  find-one :
      (o : Option SubId) (ws : List SubId)
      → find (holds live) (one o ++ ws) ≡ or_else (held live o) (find (holds live) ws)
  find-one none ws = refl
  find-one (some s) ws = elim (Bool-cases (holds live s)) [ inl e ↦ rw e | inr e ↦ rw e ]

  find-one_if :
      (test : Bool) (o : Option SubId) (ws : List SubId)
      → find (holds live) (one_if test o ++ ws)
        ≡ or_else (held_if test live o) (find (holds live) ws)
  find-one_if true o ws = find-one o ws
  find-one_if false o ws = refl

  find-last :
      (test : Bool) (o : Option SubId) → find (holds live) (one_if test o) ≡ held_if test live o
  find-last true none = refl
  find-last true (some s) = refl
  find-last false o = refl

  held-eq : (o : Option SubId) (c : SubId) → held live o ≡ some c → o ≡ some c
  held-eq none c e = e
  held-eq (some s) c e = ground arith

  held_if-eq :
      (test : Bool) (o : Option SubId) (c : SubId) → held_if test live o ≡ some c → o ≡ some c
  held_if-eq true o c e = held-eq o c e
  held_if-eq false o c e = cc

put-at :
    (v : PerProvider (Option SubId)) (p : Provider) (c : SubId)
    → at v p ≡ some c
    → v ≡ put v p (some c)
put-at v Provider.codex c e = ground arith
put-at v Provider.claude c e = ground arith

pub at-put :
    (v : PerProvider (Option SubId)) (p : Provider) (c : SubId) → at (put v p (some c)) p ≡ some c
at-put v Provider.codex c = refl
at-put v Provider.claude c = refl

module _ (state : State) (provider : Provider) (live : List SubStatus) where
  moved-Granted :
      (sub : SubId) (why : SelectReason)
      → Granted state provider live
          (some sub)
          (answer (hold state provider sub) sub why (length live))
  moved-Granted sub why = (
    hold state provider sub,
    _,
    refl,
    record {
      granted = refl;
      counted = refl;
      held_now = at-put state.current provider sub;
      moved = refl;
    },
  )

  stayed-Granted :
      (sub : SubId) (why : SelectReason)
      → at state.current provider ≡ some sub
      → Granted state provider live (some sub) (answer state sub why (length live))
  stayed-Granted sub why e = (
    state,
    _,
    refl,
    record {
      granted = refl;
      counted = refl;
      held_now = e;
      moved = λ i. record state { current = put-at state.current provider sub e i };
    },
  )

  climb-Granted :
      (p f a k s : Option SubId)
      → ((c : SubId) → f ≡ some c → at state.current provider ≡ some c)
      → ((c : SubId) → s ≡ some c → at state.current provider ≡ some c)
      → Granted state provider live
          (or_else p (or_else f (or_else a (or_else k s))))
          (climb state provider (length live) p f a k s)
  climb-Granted (some p) f a k s hf hs = moved-Granted p pinned
  climb-Granted none (some c) a k s hf hs = stayed-Granted c frozen (hf c refl)
  climb-Granted none none (some a) k s hf hs = moved-Granted a affinity
  climb-Granted none none none (some k) s hf hs = moved-Granted k placement
  climb-Granted none none none none (some c) hf hs = stayed-Granted c sticky (hs c refl)
  climb-Granted none none none none none hf hs = refl

  -- The ladder grants the first wish that is live, whatever rung it stands on, and holds that sub
  -- for the provider from then on; with no live wish it leaves the choice to the strategy.
  pub ladder-Granted :
      (hints : Hints)
      → Granted state provider live
          (find (holds live) (wishes state provider hints))
          (ladder state provider hints live)
  unfolding ladder wishes
  ladder-Granted hints =
      let current = at state.current provider in
      let found =
        find-one live state.pinned _
        ∙ ap (or_else (held live state.pinned)) (
            find-one_if live (not state.settings.auto_switch) current _
            ∙ ap (or_else (held_if (not state.settings.auto_switch) live current)) (
                find-one live hints.chain _
                ∙ ap (or_else (held live hints.chain)) (
                    find-one live hints.key _
                    ∙ ap (or_else (held live hints.key))
                        (find-last live (is_sticky state.settings) current)))) in
      subst (λ o. Granted state provider live o (ladder state provider hints live)) (sym found)
        (climb-Granted _ _ _ _ _ (held_if-eq live (not state.settings.auto_switch) current)
          (held_if-eq live (is_sticky state.settings) current))
