-- ===== src/Auth.antt =====
-- crates/libsubby/src/auth/mod.rs: the TokenManager, which lets one refresh per account run at a time,
-- and recover_adopted.
--
-- A `SubKey` is a number. The map of refreshes in flight and the cells that the callers share are
-- functions; a cell is named by a number, as by its pointer. A cell is tokio's OnceCell: its
-- initialiser is run by one caller at a time, a caller that is dropped while it runs it leaves the
-- cell vacant for another, and a value once set stays. The token endpoint, the source of an adopted
-- credential and the clock are arguments.
pub mod Flight
pub mod SingleFlight
pub mod Recovery
pub mod Joining
pub mod SignIn
mod Samples
use subbier.Base.{
  ℕ, suc, ◌≡◌, ◌≢◌, ◌⊎◌, inl, inr, ◌*◌, ◌^◌, Bool, true, false, ◌&&◌, ◌||◌, not, Option, none, some,
  String, if◌then◌else◌, ◌==◌, same_string,
}
use subbier.Model.{Tokens, Timestamp, is_expired}

-- One minute.
abbrev pub expiry_skew : ℕ
expiry_skew = 60 * 10 ^ 9

pub data Refreshing : Type 0 where
  fresh : Tokens → Refreshing
  failed : (permanent : Bool) → Refreshing

-- `own` is `Subbier`.
pub data CredentialSource : Type 0 where
  adopted keychain own : CredentialSource

-- Equality of optional texts.
abbrev pub same_option_text : Option String → Option String → Bool
same_option_text none none = true
same_option_text (some a) (some b) = same_string a b
same_option_text _ _ = false

-- The refresh token found at the source, tried once.
abbrev pub retry : (String → Refreshing) → Option String → Option Refreshing
retry refresh_at none = none
retry refresh_at (some token) = some (refresh_at token)

abbrev pub recover_found :
    (String → Refreshing) → Tokens → Timestamp → Option Tokens → Option Refreshing
recover_found refresh_at current now none = none
recover_found refresh_at current now (some found) =
    if same_option_text found.refresh current.refresh && same_string found.access current.access
    then none
    else if not (is_expired found now expiry_skew)
    then some (fresh found)
    else retry refresh_at found.refresh

-- `found` is what re-reading the source brought.
unfoldable pub recover_adopted :
    (String → Refreshing)
    → CredentialSource
    → Tokens
    → Timestamp
    → (found : Option Tokens) → Option Refreshing
recover_adopted refresh_at own current now found = none
recover_adopted refresh_at adopted current now found = recover_found refresh_at current now found
recover_adopted refresh_at keychain current now found = recover_found refresh_at current now found

abbrev pub or_recovered : Refreshing → Option Refreshing → Refreshing
or_recovered e none = e
or_recovered e (some r) = r

-- The initialiser of a cell, once the endpoint has answered for the caller's own refresh token.
abbrev pub settled_with : Option Refreshing → Refreshing → Refreshing
settled_with recovered (failed true) = or_recovered (failed true) recovered
settled_with recovered other = other

unfoldable pub refresh_outcome :
    (String → Refreshing)
    → CredentialSource
    → Tokens
    → Timestamp
    → (found : Option Tokens) → (refresh_token : String) → Refreshing
unfolding recover_adopted
refresh_outcome refresh_at source current now found refresh_token =
    settled_with (recover_adopted refresh_at source current now found) (refresh_at refresh_token)

-- Whether `ensure_fresh` goes to the cell at all.
pub data Entry : Type 0 where
  still_good : Entry
  no_refresh_token : Entry
  joins : (refresh_token : String) → Entry

abbrev pub entry_with : Option String → Entry
entry_with none = no_refresh_token
entry_with (some token) = joins token

unfoldable pub entry : (force : Bool) → Tokens → Timestamp → Entry
entry force tokens now =
    if not force && not (is_expired tokens now expiry_skew)
    then still_good
    else entry_with tokens.refresh

-- What becomes of the sub's tokens and what the caller is told: whether the access token changed, or
-- that the refresh failed for good or not.
unfoldable pub settle : Tokens → Refreshing → Tokens × (Bool ⊎ Bool)
settle tokens (fresh renewed) = (renewed, inl (not (same_string renewed.access tokens.access)))
settle tokens (failed permanent) = (tokens, inr permanent)

pub data Cell : Type 0 where
  vacant : (key : ℕ) → Cell
  driven : (key by : ℕ) → Cell
  settled : (key : ℕ) → Refreshing → Cell

pub data Caller : Type 0 where
  awaiting : (key cell : ℕ) → Caller
  returned : (cell : ℕ) → Refreshing → Caller

-- `next` is a pointer that no cell has had.
pub record Manager : Type 0 where
  pub inflight : ℕ → Option ℕ
  pub cells : ℕ → Option Cell
  pub callers : ℕ → Option Caller
  pub next : ℕ

abbrev pub new_manager : Manager
new_manager = record {
  inflight = λ key. none;
  cells = λ cell. none;
  callers = λ caller. none;
  next = 0;
}

abbrev pub update {ℓ} : {A : Type ℓ} → ℕ → A → (ℕ → A) → ℕ → A
update k a f j = if j == k then a else f j

abbrev pub cell_found : ℕ → Manager → Option ℕ → Manager × (ℕ × Bool)
cell_found key m (some cell) = (m, (cell, true))
cell_found key m none = (
  record m {
    inflight = update key (some m.next) m.inflight;
    cells = update m.next (some (vacant key)) m.cells;
    next = suc m.next;
  },
  (m.next, false),
)

-- The cell, and whether the caller joined a refresh.
unfoldable pub cell_for : ℕ → Manager → Manager × (ℕ × Bool)
cell_for key m = cell_found key m (m.inflight key)

abbrev pub is_current : ℕ → Option ℕ → Bool
is_current cell none = false
is_current cell (some current) = current == cell

unfoldable pub retire : (key cell : ℕ) → Manager → Manager
retire key cell m =
    if is_current cell (m.inflight key)
    then record m { inflight = update key none m.inflight }
    else m

-- One step of a caller of `ensure_fresh` that needs a refresh.
pub data Step : Manager → Manager → Type 0 where
  -- It gets the cell of its account.
  join :
      (m : Manager) (c key : ℕ)
      → m.callers c ≡ none
      → Step m (
          let r = cell_for key m in
          record r.0 { callers = update c (some (awaiting key r.1.0)) r.0.callers })
  -- It starts the initialiser.
  start :
      (m : Manager) (c key cell owner : ℕ)
      → m.callers c ≡ some (awaiting key cell)
      → m.cells cell ≡ some (vacant owner)
      → Step m (record m { cells = update cell (some (driven owner c)) m.cells })
  -- The initialiser ends.
  settle_cell :
      (m : Manager) (c key cell owner : ℕ) (r : Refreshing)
      → m.callers c ≡ some (awaiting key cell)
      → m.cells cell ≡ some (driven owner c)
      → Step m (record m { cells = update cell (some (settled owner r)) m.cells })
  -- It has the value, retires the cell and goes.
  leave :
      (m : Manager) (c key cell owner : ℕ) (r : Refreshing)
      → m.callers c ≡ some (awaiting key cell)
      → m.cells cell ≡ some (settled owner r)
      → Step m (
          let n = retire key cell m in
          record n { callers = update c (some (returned cell r)) n.callers })
  -- It is dropped while it drives the cell.
  drop_driver :
      (m : Manager) (c key cell owner : ℕ)
      → m.callers c ≡ some (awaiting key cell)
      → m.cells cell ≡ some (driven owner c)
      → Step m (record m {
        cells = update cell (some (vacant owner)) m.cells;
        callers = update c none m.callers;
      })
  -- It is dropped while another one drives the cell, or nobody does.
  drop_waiter :
      (m : Manager) (c key cell : ℕ)
      → m.callers c ≡ some (awaiting key cell)
      → ((owner : ℕ) → m.cells cell ≢ some (driven owner c))
      → Step m (record m { callers = update c none m.callers })

pub data Reach : Manager → Type 0 where
  begun : Reach new_manager
  next : {m n : Manager} → Reach m → Step m n → Reach n
