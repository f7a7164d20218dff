-- ===== src/Auth/Samples.antt =====
-- Callers that share a refresh, for the theorems on the token manager.
use subbier.Base.{
  ℕ, ◌≡◌, ◌≢◌, ◌↔◌, refl, false, true, none, some, String, if◌then◌else◌, same_string, [], ◌∷◌,
}
use subbier.Model.{Tokens}
use subbier.Auth.{
  Refreshing, failed, fresh, adopted, driven, settled, awaiting, returned, Manager, new_manager,
  cell_for, update, retire, join, start, settle_cell, leave, Reach, begun, next, refresh_outcome,
}
use subbier.Auth.SingleFlight.{one_flight}
use subbier.Auth.Joining.{waiting-joined, returned-not_joined}
use subbier.Auth.SignIn.{
  Redirect, refused, exchanged, handle, handle_all, listen, finish, read_query, login-first,
}
use subbier.Auth.Recovery.{IsLost, refresh_outcome-permanent_iff}

abbrev joined : ℕ → ℕ → Manager → Manager
joined c key m =
    let r = cell_for key m in
    record r.0 { callers = update c (some (awaiting key r.1.0)) r.0.callers }

-- Callers 1 and 2 wait for the cell of account 7, and caller 1 drives it.
abbrev two_waiting : Manager
two_waiting = joined 2 7 (joined 1 7 new_manager)

abbrev driving : Manager
driving = record two_waiting { cells = update 0 (some (driven 7 1)) two_waiting.cells }

two_waiting-Reach : Reach two_waiting
unfolding cell_for
two_waiting-Reach =
    next (next begun (join new_manager 1 7 refl)) (join (joined 1 7 new_manager) 2 7 refl)

driving-Reach : Reach driving
unfolding cell_for
driving-Reach = next two_waiting-Reach (start two_waiting 1 7 0 7 refl refl)

one_flight_example : (◌≡◌ {A = ℕ} 0 0) × (◌≡◌ {A = ℕ} 1 1)
unfolding cell_for
one_flight_example = one_flight driving 7 0 0 1 1 driving-Reach refl refl

waiting-joined_example : (◌≡◌ {A = ℕ} 0 0) × (cell_for 7 driving ≡ (driving, (0, true)))
unfolding cell_for
waiting-joined_example = waiting-joined driving 7 0 0 1 2 driving-Reach refl refl refl refl

abbrev ended : Manager
ended = record driving { cells = update 0 (some (settled 7 (failed false))) driving.cells }

abbrev left : ℕ → Manager → Manager
left c m =
    let n = retire 7 0 m in
    record n { callers = update c (some (returned 0 (failed false))) n.callers }

both_left-Reach : Reach (left 2 (left 1 ended))
unfolding cell_for retire
both_left-Reach =
    next
      (next (next driving-Reach (settle_cell driving 1 7 0 7 (failed false) refl refl))
        (leave ended 1 7 0 7 (failed false) refl refl))
      (leave (left 1 ended) 2 7 0 7 (failed false) refl refl)

-- The next caller gets another cell.
returned-not_joined_example : (cell_for 7 (left 2 (left 1 ended))).1.0 ≢ 0
unfolding cell_for retire
returned-not_joined_example =
    returned-not_joined (left 2 (left 1 ended)) 7 1 0 (failed false) both_left-Reach refl

abbrev renewed : Tokens
renewed = record { access = "new"; refresh = some "live"; expires_at = none }

abbrev endpoint : String → Refreshing
endpoint token = if same_string token "live" then fresh renewed else failed true

abbrev current : Tokens
current = record { access = "old"; refresh = some "dead"; expires_at = none }

refresh_outcome-permanent_iff_example :
    (refresh_outcome endpoint adopted current 5 (some renewed) "dead" ≡ failed true)
    ↔ ((endpoint "dead" ≡ failed true) × IsLost endpoint current 5 adopted (some renewed))
refresh_outcome-permanent_iff_example =
    refresh_outcome-permanent_iff endpoint current 5 adopted (some renewed) "dead"

-- A request beside the path, one with another state, one with the right state, and one without a code.
abbrev stray : Redirect
stray = record { path = "/favicon.ico"; pairs = [] }

abbrev forged : Redirect
forged = record { path = "/callback"; pairs = ("code", "x") ∷ ("state", "other") ∷ [] }

abbrev honest : Redirect
honest = record { path = "/callback"; pairs = ("state", "s") ∷ ("code", "x") ∷ ("code", "y") ∷ [] }

abbrev denied : Redirect
denied = record { path = "/callback"; pairs = ("error", "access_denied") ∷ [] }

login-first_example :
    (exchanged "s" (handle_all (stray ∷ honest ∷ denied ∷ []) (listen "/callback")).0.outcome
      ≡ some "y")
    × ((handle_all (stray ∷ honest ∷ denied ∷ []) (listen "/callback")).1 ≡ 404 ∷ 200 ∷ 410 ∷ [])
login-first_example = login-first "/callback" "s" (stray ∷ honest ∷ denied ∷ [])

a_forged_state_is_refused :
    exchanged "s" (handle_all (forged ∷ honest ∷ []) (listen "/callback")).0.outcome ≡ none
a_forged_state_is_refused = (login-first "/callback" "s" (forged ∷ honest ∷ [])).0

a_denial_is_told :
    (handle_all (denied ∷ []) (listen "/callback")).0.outcome ≡ some (refused "access_denied")
unfolding handle_all handle finish read_query
a_denial_is_told = refl
