-- ===== src/Registry/Entries.antt =====
-- The registry of crates/libsubby/src/proxy/mod.rs as a map from ids to entries.
use subbier.Base.{
  ◌≡◌, ◌∙◌, ap, inl, inr, refl, Bool, true, false, Option, none, some, List, [], ◌∷◌, ◌++◌, find,
  ◌==◌, is_some, arith, Bool-cases, Option-cases, if◌then◌else◌,
}
use mathlib.Core.Path.{fun_ext}
use subbier.Model.{SubId, Tokens}
use subbier.Registry.{
  SubEntry, SubRegistry, update_first, get, upsert, remove, set_enabled, set_needs_login,
  store_tokens,
}

pub data Operation : Type 0 where
  replaces : SubRegistry → Operation
  upserts : SubEntry → Operation
  removes : SubId → Operation
  enables : SubId → Bool → Operation
  marks_login : SubId → Bool → Operation
  refreshes : SubId → Tokens → Operation

unfoldable pub step : Operation → SubRegistry → SubRegistry
step (replaces es) r = es
step (upserts e) r = upsert e r
step (removes id) r = (remove id r).0
step (enables id b) r = set_enabled id b r
step (marks_login id b) r = set_needs_login id b r
step (refreshes id t) r = (store_tokens id t r).0

-- What a map from ids to entries would do.
abbrev pub change :
    SubId
    → (Option SubEntry → Option SubEntry)
    → (SubId → Option SubEntry)
    → SubId
    → Option SubEntry
change id f m i = if i == id then f (m i) else m i

abbrev pub on_some : (SubEntry → SubEntry) → Option SubEntry → Option SubEntry
on_some f none = none
on_some f (some e) = some (f e)

abbrev pub step_map : Operation → (SubId → Option SubEntry) → SubId → Option SubEntry
step_map (replaces es) m = λ i. find (λ e. e.id == i) es
step_map (upserts e) m = change e.id (λ o. some e) m
step_map (removes id) m = change id (λ o. none) m
step_map (enables id b) m = change id (on_some (λ e. record e { enabled = b })) m
step_map (marks_login id b) m = change id (on_some (λ e. record e { needs_login = b })) m
step_map (refreshes id t) m = change id (on_some (λ e. record e { tokens = t })) m

unfoldable pub run : List Operation → SubRegistry → SubRegistry
unfolding step
run [] r = r
run (o ∷ os) r = run os (step o r)

unfoldable pub run_map : List Operation → (SubId → Option SubEntry) → SubId → Option SubEntry
run_map [] m = m
run_map (o ∷ os) m = run_map os (step_map o m)

-- An entry keeps its id.
abbrev KeepsId : (SubEntry → SubEntry) → Type 0
KeepsId f = (e : SubEntry) → (f e).id ≡ e.id

get-update_first :
    (f : SubEntry → SubEntry) (id i : SubId) (r : SubRegistry)
    → KeepsId f
    → get i (update_first f id r) ≡ change id (on_some f) (λ j. get j r) i
unfolding get update_first
get-update_first f id i [] k = ground arith
get-update_first f id i (e ∷ es) k =
    let q = k e in let r = get-update_first f id i es k in ground (arith, q, r)

get-append :
    (i : SubId) (r : SubRegistry) (e : SubEntry)
    → get i (r ++ (e ∷ []))
      ≡ (if is_some (get i r) then get i r else if e.id == i then some e else none)
unfolding get
get-append i [] e = ground arith
get-append i (x ∷ xs) e = let q = get-append i xs e in ground (arith, q)

get-replaced :
    (e : SubEntry) (i : SubId) (r : SubRegistry)
    → get i (update_first (λ x. e) e.id r) ≡ change e.id (on_some (λ x. e)) (λ j. get j r) i
unfolding get update_first
get-replaced e i [] = ground arith
get-replaced e i (x ∷ xs) = let q = get-replaced e i xs in ground (arith, q)

replaced_present :
    (e : SubEntry) (i : SubId) (r : SubRegistry)
    → is_some (get e.id r) ≡ true
    → change e.id (on_some (λ x. e)) (λ j. get j r) i ≡ change e.id (λ o. some e) (λ j. get j r) i
replaced_present e i r h = elim (Bool-cases (i == e.id)) [
  | inr n ↦ rw n refl
  | inl n ↦
      let q : i ≡ e.id = ground arith in
      rw (n, q)
        (elim (Option-cases (get e.id r)) [
          | inl z ↦ absurd (let y : is_some {A = SubEntry} none ≡ true = rw z at h in cc)
          | inr (x, z) ↦ rw z refl
        ])
]

appended_absent :
    (e : SubEntry) (i : SubId) (r : SubRegistry)
    → is_some (get e.id r) ≡ false
    → (if is_some (get i r) then get i r else if e.id == i then some e else none)
      ≡ change e.id (λ o. some e) (λ j. get j r) i
appended_absent e i r h = elim (Bool-cases (i == e.id)) [
  | inl n ↦
      let z : i ≡ e.id = ground arith in
      let y : (e.id == e.id) ≡ true = ground arith in rw (z, h, y) refl
  | inr n ↦
      let y : (e.id == i) ≡ false = ground arith in
      elim (Option-cases (get i r)) [ inl z ↦ rw (n, z, y) refl | inr (x, z) ↦ rw (n, z) refl ]
]

get-upsert :
    (e : SubEntry) (i : SubId) (r : SubRegistry)
    → get i (upsert e r) ≡ change e.id (λ o. some e) (λ j. get j r) i
unfolding upsert get
get-upsert e i r = elim (Bool-cases (is_some (find (λ x. x.id == e.id) r))) [
  | inl h ↦ rw h (get-replaced e i r ∙ replaced_present e i r h)
  | inr h ↦ rw h (get-append i r e ∙ appended_absent e i r h)
]

pub get-remove :
    (id i : SubId) (r : SubRegistry)
    → get i (remove id r).0 ≡ change id (λ o. none) (λ j. get j r) i
unfolding get remove
get-remove id i [] = ground arith
get-remove id i (e ∷ es) = let q = get-remove id i es in ground (arith, q)

get-step :
    (o : Operation) (r : SubRegistry) (i : SubId) → get i (step o r) ≡ step_map o (λ j. get j r) i
unfolding step set_enabled set_needs_login store_tokens get
get-step (replaces es) r i = refl
get-step (upserts e) r i = get-upsert e i r
get-step (removes id) r i = get-remove id i r
get-step (enables id b) r i = get-update_first (λ e. record e { enabled = b }) id i r (λ e. refl)
get-step (marks_login id b) r i =
    get-update_first (λ e. record e { needs_login = b }) id i r (λ e. refl)
get-step (refreshes id t) r i = get-update_first (λ e. record e { tokens = t }) id i r (λ e. refl)

-- The registry is a map from ids to entries: after any history of replacing all entries, adding or
-- replacing one, removing one, enabling or disabling one, marking one for a new sign-in and storing
-- its tokens, looking up an id finds what such a map would hold.
pub run-run_map :
    (os : List Operation) (r : SubRegistry) (i : SubId)
    → get i (run os r) ≡ run_map os (λ j. get j r) i
unfolding run run_map
run-run_map [] r i = refl
run-run_map (o ∷ os) r i =
    run-run_map os (step o r) i ∙ ap (λ m. run_map os m i) (fun_ext (λ j. get-step o r j))
