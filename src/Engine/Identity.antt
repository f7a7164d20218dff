-- ===== src/Engine/Identity.antt =====
-- Accounts over whole histories of the engine of engine.rs, from the stored ones on.
use subbier.Base.{
  ℕ, ◌+◌, ◌^◌, ◌<◌, ◌≡◌, refl, ap, Bool, true, false, Option, none, List, [], ◌∷◌, String, ◌==◌,
  arith, find, length, is_some,
}
use subbier.Model.{SubId}
use subbier.Balance.Router.{RouterSettings, default_settings}
use subbier.Balance.Router.Invariant.{new-IsValid}
use subbier.Poller.{Error}
use subbier.Registry.{SubRegistry, get}
use subbier.Engine.{UiConfig, Sub, SubRecord, Allowance, Engine, remove_sub}
use subbier.Engine.Accounts.{load}
use subbier.Engine.Identities.{Bounds, identities, IsGone}
use subbier.Engine.Mirror.{Mirrors}
use subbier.Engine.Validity.{IsValid}
use subbier.Engine.Validity.Adoption.{more, Apart, load-IsValid}
use subbier.Engine.Validity.Commands.{remove_sub-gone}
use subbier.Engine.Histories.{Event, adoptions, new_engine, run, run-IsValid}

find-IsGone :
    (sub : SubId) (rs : List SubRecord)
    → IsGone sub (identities rs)
    → find (λ r. r.id == sub) rs ≡ none
find-IsGone sub [] g = refl
find-IsGone sub (r ∷ rs) g = rw g.0 (find-IsGone sub rs g.1)

get-IsGone :
    (sub : SubId) (on : ℕ → Bool) (es : SubRegistry) (rs : List SubRecord)
    → Mirrors on es rs
    → IsGone sub (identities rs)
    → get sub es ≡ none
unfolding get
get-IsGone sub on [] rs m g = refl
get-IsGone sub on (e ∷ es) [] m g = absurd m
get-IsGone sub on (e ∷ es) (r ∷ rs) m g =
    let q : e.id ≡ r.id = ap (λ s. s.id) m.0 in
    let z : (e.id == sub) ≡ false = rw q g.0 in rw z (get-IsGone sub on es rs m.1 g.1)

module _ (stored found : List Sub) (now : ℕ) (written : Bool) (settings : RouterSettings)
    (ui : UiConfig) (on : ℕ → Bool) (db : Option (List Allowance)) where
  -- The engine that `build` returns.
  abbrev pub built : Engine
  built = load stored found now written settings (new_engine ui on db)

  built-IsValid :
      (b : Bounds)
      → Apart stored
      → 1 + (length stored + (length found + b.room)) < 2 ^ 32
      → b.gone ≡ 0
      → IsValid b built
  built-IsValid b a l g =
      load-IsValid b stored found now written settings (new_engine ui on db) a refl (record {
        table = record {
          bounded = l;
          below = tt;
          unique = tt;
          passed = omega (arith, g);
          absent = tt;
        };
        routed = new-IsValid default_settings;
        counted = tt;
      })

  -- From the accounts stored and discovered, of which no two stored ones have the same key, any
  -- history that adds fewer accounts than there are ids keeps the engine's invariant: no two
  -- accounts have the same id or the same key, the registry holds the accounts, in their order and
  -- with their switches and sign-ins, and the router's invariant holds.
  pub run-built-IsValid :
      (describe : Error → Option ℕ → String) (xs : List Event)
      → Apart stored
      → 1 + (length stored + (length found + adoptions xs)) < 2 ^ 32
      → IsValid (record { room = 0; gone = 0 }) (run describe xs built)
  run-built-IsValid describe xs a l =
      run-IsValid describe (record { room = 0; gone = 0 }) xs built
        (built-IsValid (more (adoptions xs) (record { room = 0; gone = 0 })) a (omega (arith, l))
          refl)

  -- An id is never given again: from the accounts stored and discovered, of which no two stored ones
  -- have the same key, after any history, the removal of an account that is there then, and any
  -- history after that, neither the accounts nor the registry have the id, provided that fewer
  -- accounts are added than there are ids.
  pub removed-never_returns :
      (describe : Error → Option ℕ → String) (xs ys : List Event) (sub : SubId) (saved : Bool)
      → Apart stored
      → 1 + (length stored + (length found + (adoptions xs + adoptions ys))) < 2 ^ 32
      → is_some (find (λ r. r.id == sub) (run describe xs built).subs) ≡ true
      → let after = run describe ys (remove_sub sub saved (run describe xs built)) in
        (find (λ r. r.id == sub) after.subs ≡ none) × (get sub after.registry ≡ none)
  removed-never_returns describe xs ys sub saved a l h =
      let start : Bounds = record { room = adoptions ys + 0; gone = 0 } in
      let before : Engine = run describe xs built in
      let v : IsValid start before =
        run-IsValid describe start xs built
          (built-IsValid (more (adoptions xs) start) a (omega (arith, l)) refl) in
      let w =
        run-IsValid describe (record { room = 0; gone = sub }) ys (remove_sub sub saved before)
          (remove_sub-gone start sub saved before h v) in
      (find-IsGone sub _ w.table.absent, get-IsGone sub _ _ _ w.mirror w.table.absent)
