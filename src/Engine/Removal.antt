-- ===== src/Engine/Removal.antt =====
-- What is seen of an account before and after remove_sub of engine.rs.
use subbier.Base.{
  ℕ, ◌≡◌, ◌∙◌, ap, refl, inl, inr, Bool, true, false, Option, none, some, List, [], ◌∷◌, All, ◌==◌,
  arith, find, Bool-cases, Option-cases, if◌then◌else◌, is_some,
}
use subbier.Base.OrdMap.{lookup, remove, IsSorted, lookup-remove}
use subbier.Model.{SubId, Provider}
use subbier.Balance.Router.{State, Quarantine, unless_held, pin, clear_current, clear_exhaustion}
use subbier.Balance.Router.Invariant.{IsValid}
use subbier.Metrics.{Metrics, forget, proxied_in_flight}
use subbier.Registry.{SubEntry, get}
use subbier.Registry.Entries.{get-remove}
use subbier.Severity.{Severity}
use subbier.Engine.{
  WindowKind, SubRecord, Engine, note_error, persist_subs, remove_record, remove_found, remove_sub,
  holds, forget_pin, forget_current, forget_router,
}

-- What the parts of the engine hold of one account.
pub record Seen : Type 0 where
  pub account : Option SubRecord
  pub entry : Option SubEntry
  pub in_flight : ℕ
  pub quarantine : Option Quarantine
  pub is_pinned : Bool
  pub is_current_codex : Bool
  pub is_current_claude : Bool
  pub bands : WindowKind → Option Severity

abbrev pub unseen : Seen
unseen = record {
  account = none;
  entry = none;
  in_flight = 0;
  quarantine = none;
  is_pinned = false;
  is_current_codex = false;
  is_current_claude = false;
  bands = λ k. none;
}

abbrev pub seen : SubId → Engine → Seen
seen i e = record {
  account = find (λ r. r.id == i) e.subs;
  entry = get i e.registry;
  in_flight = proxied_in_flight i e.metrics;
  quarantine = lookup i e.router.exhausted;
  is_pinned = holds i e.router.pinned;
  is_current_codex = holds i e.router.current.codex;
  is_current_claude = holds i e.router.current.claude;
  bands = λ k. e.severities i k;
}

-- No two records have the same id.
abbrev pub UniqueIds : List SubRecord → Type 0
UniqueIds [] = Unit {0}
UniqueIds (r ∷ rs) = All (λ x. (x.id == r.id) ≡ false) rs × UniqueIds rs

holds-unless_held :
    (i sub : SubId) (slot : Option SubId)
    → holds i (unless_held sub slot) ≡ (if i == sub then false else holds i slot)
holds-unless_held i sub none = ground arith
holds-unless_held i sub (some c) = ground arith

forget_pin_slot :
    (sub : SubId) (s : State) (o : Option SubId)
    → s.pinned ≡ o
    → (if holds sub o then pin none s else s) ≡ record s { pinned = unless_held sub o }
unfolding pin
forget_pin_slot sub s none q = λ k. record s { pinned = q k }
forget_pin_slot sub s (some c) q = elim (Bool-cases (c == sub)) [
  | inl y ↦ rw y refl
  | inr n ↦ rw n (λ k. record s { pinned = q k })
]

forget_pin_lem :
    (sub : SubId) (s : State) → forget_pin sub s ≡ record s { pinned = unless_held sub s.pinned }
forget_pin_lem sub s = forget_pin_slot sub s s.pinned refl

forget_codex_slot :
    (sub : SubId) (s : State) (o : Option SubId)
    → s.current.codex ≡ o
    → (if holds sub o then clear_current Provider.codex s else s)
      ≡ record s { current = record s.current { codex = unless_held sub o } }
unfolding clear_current
forget_codex_slot sub s none q = λ k. record s { current = record s.current { codex = q k } }
forget_codex_slot sub s (some c) q = elim (Bool-cases (c == sub)) [
  | inl y ↦ rw y refl
  | inr n ↦ rw n (λ k. record s { current = record s.current { codex = q k } })
]

forget_codex_lem :
    (sub : SubId) (s : State)
    → forget_current sub Provider.codex s
      ≡ record s { current = record s.current { codex = unless_held sub s.current.codex } }
forget_codex_lem sub s = forget_codex_slot sub s s.current.codex refl

forget_claude_slot :
    (sub : SubId) (s : State) (o : Option SubId)
    → s.current.claude ≡ o
    → (if holds sub o then clear_current Provider.claude s else s)
      ≡ record s { current = record s.current { claude = unless_held sub o } }
unfolding clear_current
forget_claude_slot sub s none q = λ k. record s { current = record s.current { claude = q k } }
forget_claude_slot sub s (some c) q = elim (Bool-cases (c == sub)) [
  | inl y ↦ rw y refl
  | inr n ↦ rw n (λ k. record s { current = record s.current { claude = q k } })
]

forget_claude_lem :
    (sub : SubId) (s : State)
    → forget_current sub Provider.claude s
      ≡ record s { current = record s.current { claude = unless_held sub s.current.claude } }
forget_claude_lem sub s = forget_claude_slot sub s s.current.claude refl

find-absent :
    (i : SubId) (rs : List SubRecord)
    → All (λ x. (x.id == i) ≡ false) rs
    → find (λ r. r.id == i) rs ≡ none
find-absent i [] a = refl
find-absent i (r ∷ rs) a = rw a.0 (find-absent i rs a.1)

find-remove_record :
    (i sub : SubId) (rs : List SubRecord)
    → UniqueIds rs
    → find (λ r. r.id == i) (remove_record sub rs)
      ≡ (if i == sub then none else find (λ r. r.id == i) rs)
unfolding remove_record
find-remove_record i sub [] u = ground arith
find-remove_record i sub (r ∷ rs) u =
    let q = find-remove_record i sub rs u.1 in
    let a = find-absent r.id rs u.0 in
    let b : i ≡ r.id → find (λ x. x.id == i) rs ≡ none = λ p. rw p a in ground (arith, q, b)

in_flight-forget :
    (i sub : SubId) (m : Metrics)
    → IsSorted m.subs
    → proxied_in_flight i (forget sub m) ≡ (if i == sub then 0 else proxied_in_flight i m)
unfolding proxied_in_flight forget
in_flight-forget i sub m v = rw (lookup-remove sub i 0 m.subs v) (elim (Bool-cases (i == sub)) [
  | inl y ↦ let z : (sub == i) ≡ true = ground arith in rw (y, z) refl
  | inr n ↦ let z : (sub == i) ≡ false = ground arith in rw (n, z) refl
])

forget_router_lem :
    (sub : SubId) (s : State)
    → forget_router sub s ≡ record s {
      pinned = unless_held sub s.pinned;
      current = record {
        codex = unless_held sub s.current.codex;
        claude = unless_held sub s.current.claude;
      };
      exhausted = remove sub s.exhausted;
    }
unfolding clear_exhaustion
forget_router_lem sub s =
    ap (λ x. forget_current sub Provider.claude (forget_current sub Provider.codex x))
      (forget_pin_lem sub (clear_exhaustion sub s))
    ∙ (ap (forget_current sub Provider.claude) (
          forget_codex_lem sub
            (record s { pinned = unless_held sub s.pinned; exhausted = remove sub s.exhausted }))
        ∙ forget_claude_lem sub (record s {
          pinned = unless_held sub s.pinned;
          current = record s.current { codex = unless_held sub s.current.codex };
          exhausted = remove sub s.exhausted;
        }))

seen-persist_subs :
    (i : SubId) (written : Bool) (e : Engine) → seen i (persist_subs written e) ≡ seen i e
unfolding persist_subs note_error
seen-persist_subs i true e = refl
seen-persist_subs i false e = refl

equal_sym : (i j : ℕ) → (i == j) ≡ (j == i)
equal_sym i j = ground arith

-- A slot of the router after the removal.
holds-forget_router :
    (i sub : SubId) (slot : State → Option SubId) (s : State)
    → slot (forget_router sub s) ≡ unless_held sub (slot s)
    → holds i (slot (forget_router sub s)) ≡ (if i == sub then false else holds i (slot s))
holds-forget_router i sub slot s q = ap (holds i) q ∙ holds-unless_held i sub (slot s)

quarantine-forget_router :
    (i sub : SubId) (s : State)
    → IsValid s
    → lookup i (forget_router sub s).exhausted ≡ (if i == sub then none else lookup i s.exhausted)
quarantine-forget_router i sub s v =
    ap (λ x. lookup i x.exhausted) (forget_router_lem sub s)
    ∙ (lookup-remove sub i 0 s.exhausted v.sorted
        ∙ ap (λ b. if b then none else lookup i s.exhausted) (equal_sym sub i))

seen-parts :
    (i sub : SubId) (written : Bool) (e : Engine) (r : SubRecord)
    → UniqueIds e.subs
    → IsSorted e.metrics.subs
    → IsValid e.router
    → seen i (remove_found sub written e (some r)) ≡ record {
      account = if i == sub then none else find (λ r. r.id == i) e.subs;
      entry = if i == sub then none else get i e.registry;
      in_flight = if i == sub then 0 else proxied_in_flight i e.metrics;
      quarantine = if i == sub then none else lookup i e.router.exhausted;
      is_pinned = if i == sub then false else holds i e.router.pinned;
      is_current_codex = if i == sub then false else holds i e.router.current.codex;
      is_current_claude = if i == sub then false else holds i e.router.current.claude;
      bands = λ k. if i == sub then none else e.severities i k;
    }
seen-parts i sub written e r u m v =
    let f = forget_router_lem sub e.router in
    seen-persist_subs i written _ ∙ (λ k. record {
      account = find-remove_record i sub e.subs u k;
      entry = get-remove sub i e.registry k;
      in_flight = in_flight-forget i sub e.metrics m k;
      quarantine = quarantine-forget_router i sub e.router v k;
      is_pinned = holds-forget_router i sub (λ x. x.pinned) e.router (ap (λ x. x.pinned) f) k;
      is_current_codex =
          holds-forget_router i sub (λ x. x.current.codex) e.router (ap (λ x. x.current.codex) f) k;
      is_current_claude =
          holds-forget_router i sub (λ x. x.current.claude) e.router (ap (λ x. x.current.claude) f)
            k;
      bands = λ w. if i == sub then none else e.severities i w;
    })

-- After an account that the engine has is removed, whether or not the file could be written, nothing
-- of it is left in the accounts, the registry, the gauges, the quarantines, the pin, the current
-- accounts and the severities, and what is seen of every other account there is what was seen
-- before. The ids are unique, the map of the gauges is sorted and the router's invariant holds.
pub remove_sub-seen :
    (i sub : SubId) (written : Bool) (e : Engine)
    → is_some (find (λ r. r.id == sub) e.subs) ≡ true
    → UniqueIds e.subs
    → IsSorted e.metrics.subs
    → IsValid e.router
    → seen i (remove_sub sub written e) ≡ (if i == sub then unseen else seen i e)
unfolding remove_sub
remove_sub-seen i sub written e h u m v = elim (Option-cases (find (λ r. r.id == sub) e.subs)) [
  | inl z ↦ absurd (let y : is_some {A = SubRecord} none ≡ true = rw z at h in cc)
  | inr (r, z) ↦ rw z (
      seen-parts i sub written e r u m v
      ∙ elim (Bool-cases (i == sub)) [ inl y ↦ rw y refl | inr n ↦ rw n refl ])
]
