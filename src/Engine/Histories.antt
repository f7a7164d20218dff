-- ===== src/Engine/Histories.antt =====
-- Histories of the engine of engine.rs: from what build loads on, every command, event and timer of
-- its loop in any order, with the proxy's requests before, between and while a round of polls waits.
use subbier.Base.{
  ℕ, ◌+◌, ◌≡◌, refl, subst, Bool, Option, none, List, [], ◌∷◌, String, arith, length,
}
use subbier.Model.{SubId, Tokens}
use subbier.Balance.Router.{new, default_settings}
use subbier.Metrics.{new_metrics}
use subbier.Poller.{Error}
use subbier.Engine.{UiConfig, Sub, Allowance, Engine, persist_subs, remove_sub}
use subbier.Engine.Accounts.{
  Loaded, rediscover, finish_login, tokens_refreshed, set_sub_enabled, reload_config,
  set_notifications, publish,
}
use subbier.Engine.Rounds.{ProxyEvent, serve, Outside, poll_round}
use subbier.Engine.Identities.{Bounds, one_more}
use subbier.Engine.Validity.{IsValid, serve-IsValid}
use subbier.Engine.Validity.Adoption.{more, rediscover-IsValid, finish_login-IsValid}
use subbier.Engine.Validity.Commands.{
  persist_subs-IsValid, enable_found-IsValid, tokens_refreshed-IsValid, set_notifications-IsValid,
  reload_config-IsValid, remove_sub-IsValid,
}
use subbier.Engine.Validity.Rounds.{poll_round-IsValid}

pub data Event : Type 0 where
  serves : ProxyEvent → Event
  rediscovers : (now : ℕ) (found : List Sub) (written : Bool) → Event
  signs_in : Sub → (written : Bool) → Event
  rotated : (key : ℕ) → Tokens → (now : ℕ) → Event
  enables : SubId → Bool → (written : Bool) → Event
  removes : SubId → (written : Bool) → Event
  polls : Outside → (force : Bool) → Event
  notifies : Bool → (written : Bool) → Event
  reloads : Option Loaded → Event
  persists : (written : Bool) → Event
  publishes : Event

-- How many accounts an event may add.
abbrev pub adopts : Event → ℕ
adopts (rediscovers now found written) = length found
adopts (signs_in sub written) = 1
adopts _ = 0

abbrev pub adoptions : List Event → ℕ
adoptions [] = 0
adoptions (x ∷ xs) = adopts x + adoptions xs

-- The engine that `build` fills.
abbrev pub new_engine : UiConfig → (ℕ → Bool) → Option (List Allowance) → Engine
new_engine ui sub_enabled db = record {
  ui = ui;
  sub_enabled = sub_enabled;
  subs = [];
  next_id = 1;
  severities = λ i k. none;
  alerts = [];
  last_error = none;
  dirty_at = none;
  persist_at = none;
  registry = [];
  router = new default_settings;
  usage = [];
  metrics = new_metrics;
  db = db;
  saved = [];
}

module _ (describe : Error → Option ℕ → String) where
  unfoldable pub step : Event → Engine → Engine
  step (serves x) e = serve x e
  step (rediscovers now found written) e = (rediscover now found written e).0
  step (signs_in sub written) e = finish_login sub written e
  step (rotated key tokens now) e = tokens_refreshed key tokens now e
  step (enables sub on written) e = set_sub_enabled sub on written e
  step (removes sub written) e = remove_sub sub written e
  step (polls out force) e = poll_round describe out force e
  step (notifies on written) e = set_notifications on written e
  step (reloads config) e = reload_config config e
  step (persists written) e = persist_subs written e
  step publishes e = publish e

  unfoldable pub run : List Event → Engine → Engine
  unfolding step
  run [] e = e
  run (x ∷ xs) e = run xs (step x e)

  none-more : (b : Bounds) (e : Engine) → IsValid (more 0 b) e → IsValid b e
  none-more b e v = subst (λ n. IsValid (record { room = n; gone = b.gone }) e) (omega arith) v

  one-more : (b : Bounds) (e : Engine) → IsValid (more 1 b) e → IsValid (one_more b) e
  one-more b e v = subst (λ n. IsValid (record { room = n; gone = b.gone }) e) (omega arith) v

  step-IsValid :
      (b : Bounds) (x : Event) (e : Engine) → IsValid (more (adopts x) b) e → IsValid b (step x e)
  unfolding step set_sub_enabled publish
  step-IsValid b (serves x) e v = serve-IsValid b x e (none-more b e v)
  step-IsValid b (rediscovers now found written) e v = rediscover-IsValid b now found written e v
  step-IsValid b (signs_in sub written) e v = finish_login-IsValid b sub written e (one-more b e v)
  step-IsValid b (rotated key tokens now) e v =
      tokens_refreshed-IsValid b key tokens now e (none-more b e v)
  step-IsValid b (enables sub on written) e v =
      enable_found-IsValid b sub on written e _ refl (none-more b e v)
  step-IsValid b (removes sub written) e v = remove_sub-IsValid b sub written e (none-more b e v)
  step-IsValid b (polls out force) e v = poll_round-IsValid b describe out force e (none-more b e v)
  step-IsValid b (notifies on written) e v =
      set_notifications-IsValid b on written e (none-more b e v)
  step-IsValid b (reloads config) e v = reload_config-IsValid b config e (none-more b e v)
  step-IsValid b (persists written) e v = persist_subs-IsValid b written e (none-more b e v)
  step-IsValid b publishes e v = none-more b e v

  pub run-IsValid :
      (b : Bounds) (xs : List Event) (e : Engine)
      → IsValid (more (adoptions xs) b) e
      → IsValid b (run xs e)
  unfolding run
  run-IsValid b [] e v = none-more b e v
  run-IsValid b (x ∷ xs) e v =
      let q : (adopts x + adoptions xs) + b.room ≡ adopts x + (adoptions xs + b.room) =
        omega arith in
      run-IsValid b xs (step x e) (
        step-IsValid (more (adoptions xs) b) x e
          (subst (λ n. IsValid (record { room = n; gone = b.gone }) e) q v))
