-- ===== src/Auth/SignIn.antt =====
-- crates/libsubby/src/auth/pkce.rs and login of auth/mod.rs: the listener that waits for the redirect
-- of a sign-in, and what login does with it.
--
-- A request is its path and the pairs that the url crate parses from its query. The channel to the
-- sign-in is open until the first outcome is sent; what it carries is `outcome`. The
-- server stops soon after; a request that comes later is one that still reaches it.
use subbier.Base.{
  ℕ, ◌≡◌, ◌∙◌, refl, ap, inl, inr, Bool, true, false, ◌&&◌, not, Option, none, some, List, [], ◌∷◌,
  String, same_string, same_string_iff, if◌then◌else◌, find, unwrap_or, Bool-cases,
}

pub record Callback : Type 0 where
  pub code : String
  pub state : String

-- An error is the detail that its text ends in.
pub data Outcome : Type 0 where
  signed : Callback → Outcome
  refused : (detail : String) → Outcome

pub record Redirect : Type 0 where
  pub path : String
  pub pairs : List (String × String)

-- `Inner`, and what has gone through its channel.
pub record Listener : Type 0 where
  pub path : String
  pub is_open : Bool
  pub outcome : Option Outcome

abbrev pub listen : String → Listener
listen path = record { path = path; is_open = true; outcome = none }

unfoldable pub finish : Outcome → Listener → Listener × Bool
finish outcome l =
    if l.is_open then (record l { is_open = false; outcome = some outcome }, true) else (l, false)

-- The variables of the loop over the query.
pub record Query : Type 0 where
  pub code : Option String
  pub state : String
  pub error : Option String
  pub description : Option String

abbrev pub no_query : Query
no_query = record { code = none; state = ""; error = none; description = none }

abbrev pub read_pair : String × String → Query → Query
read_pair (key, value) q =
    if same_string key "code"
    then record q { code = some value }
    else if same_string key "state"
    then record q { state = value }
    else if same_string key "error"
    then record q { error = some value }
    else if same_string key "error_description"
    then record q { description = some value }
    else q

unfoldable pub read_query : List (String × String) → Query → Query
read_query [] q = q
read_query (p ∷ ps) q = read_query ps (read_pair p q)

abbrev pub or_else : Option String → Option String → Option String
or_else none b = b
or_else (some a) b = some a

abbrev pub no_code : String
no_code = "no authorization code in the callback"

-- The outcome and the status of the page.
abbrev pub answer_with : Query → Option String → Outcome × ℕ
answer_with q (some code) = (signed (record { code = code; state = q.state }), 200)
answer_with q none = (refused (unwrap_or no_code (or_else q.description q.error)), 400)

abbrev pub answer : Query → Outcome × ℕ
answer q = answer_with q q.code

unfoldable pub handle : Redirect → Listener → Listener × ℕ
unfolding finish read_query
handle r l =
    if not (same_string r.path l.path)
    then (l, 404)
    else let a = answer (read_query r.pairs no_query) in
      let sent = finish a.0 l in (sent.0, if sent.1 then a.1 else 410)

-- Requests one after the other, and the statuses of their answers.
unfoldable pub handle_all : List Redirect → Listener → Listener × List ℕ
unfolding handle
handle_all [] l = (l, [])
handle_all (r ∷ rs) l =
    let first = handle r l in let rest = handle_all rs first.0 in (rest.0, first.1 ∷ rest.1)

-- The code that `login` exchanges, for the state that it asked with.
abbrev pub exchanged : String → Option Outcome → Option String
exchanged state none = none
exchanged state (some (refused detail)) = none
exchanged state (some (signed c)) =
    if not (same_string c.state "") && not (same_string c.state state) then none else some c.code

-- The last value that a query has for a key.
abbrev pub last_value : String → Option String → List (String × String) → Option String
last_value key before [] = before
last_value key before (p ∷ ps) =
    last_value key (if same_string p.0 key then some p.1 else before) ps

-- What a redirect lets login exchange: its code, unless it carries a state that is another one.
abbrev pub accepted : String → Redirect → Option String
accepted state r =
    let echoed = unwrap_or "" (last_value "state" none r.pairs) in
    if same_string echoed ""
    then last_value "code" none r.pairs
    else if same_string echoed state
    then last_value "code" none r.pairs
    else none

abbrev pub first_of : (Redirect → Option String) → Option Redirect → Option String
first_of f none = none
first_of f (some r) = f r

-- The status of the page for a code.
abbrev pub status_of : Option String → ℕ
status_of none = 400
status_of (some code) = 200

-- The statuses: 404 off the path, 410 after the first redirect.
abbrev pub statuses_of : String → Bool → List Redirect → List ℕ
statuses_of path is_open [] = []
statuses_of path is_open (r ∷ rs) =
    if same_string r.path path
    then (if is_open then status_of (last_value "code" none r.pairs) else 410)
      ∷ statuses_of path false rs
    else 404 ∷ statuses_of path is_open rs

read_pair-code :
    (p : String × String) (q : Query)
    → (read_pair p q).code ≡ (if same_string p.0 "code" then some p.1 else q.code)
read_pair-code p q = elim (Bool-cases (same_string p.0 "code")) [
  | inl y ↦ rw y refl
  | inr n ↦ rw n (elim (Bool-cases (same_string p.0 "state")) [
    | inl y ↦ rw y refl
    | inr m ↦ rw m (elim (Bool-cases (same_string p.0 "error")) [
      | inl y ↦ rw y refl
      | inr k ↦ rw k (elim (Bool-cases (same_string p.0 "error_description")) [
        | inl y ↦ rw y refl
        | inr j ↦ rw j refl
      ])
    ])
  ])
]

read_pair-state :
    (p : String × String) (q : Query)
    → (read_pair p q).state ≡ (if same_string p.0 "state" then p.1 else q.state)
read_pair-state p q = elim (Bool-cases (same_string p.0 "code")) [
  | inl y ↦
      let e : p.0 ≡ "code" = (same_string_iff p.0 "code").0 y in
      let z : same_string p.0 "state" ≡ false = rw e refl in rw (y, z) refl
  | inr n ↦ rw n (elim (Bool-cases (same_string p.0 "state")) [
    | inl y ↦ rw y refl
    | inr m ↦ rw m (elim (Bool-cases (same_string p.0 "error")) [
      | inl y ↦ rw y refl
      | inr k ↦ rw k (elim (Bool-cases (same_string p.0 "error_description")) [
        | inl y ↦ rw y refl
        | inr j ↦ rw j refl
      ])
    ])
  ])
]

read_query-code :
    (ps : List (String × String)) (q : Query) → (read_query ps q).code ≡ last_value "code" q.code ps
unfolding read_query
read_query-code [] q = refl
read_query-code (p ∷ ps) q =
    read_query-code ps (read_pair p q) ∙ ap (λ o. last_value "code" o ps) (read_pair-code p q)

read_query-state :
    (ps : List (String × String)) (q : Query) (before : Option String)
    → q.state ≡ unwrap_or "" before
    → (read_query ps q).state ≡ unwrap_or "" (last_value "state" before ps)
unfolding read_query
read_query-state [] q before h = h
read_query-state (p ∷ ps) q before h =
    read_query-state ps (read_pair p q) (if same_string p.0 "state" then some p.1 else before) (
      read_pair-state p q
      ∙ elim (Bool-cases (same_string p.0 "state")) [ inl y ↦ rw y refl | inr n ↦ rw n h ])

exchanged-answer_with :
    (state : String) (q : Query) (code : Option String)
    → exchanged state (some (answer_with q code).0)
      ≡ (if same_string q.state "" then code else if same_string q.state state then code else none)
exchanged-answer_with state q none = elim (Bool-cases (same_string q.state "")) [
  | inl y ↦ rw y refl
  | inr n ↦
      rw n (elim (Bool-cases (same_string q.state state)) [ inl y ↦ rw y refl | inr m ↦ rw m refl ])
]
exchanged-answer_with state q (some x) = elim (Bool-cases (same_string q.state "")) [
  | inl y ↦ rw y refl
  | inr n ↦
      rw n (elim (Bool-cases (same_string q.state state)) [ inl y ↦ rw y refl | inr m ↦ rw m refl ])
]

-- What login makes of the answer to a redirect.
exchanged-answer :
    (state : String) (r : Redirect)
    → exchanged state (some (answer (read_query r.pairs no_query)).0) ≡ accepted state r
exchanged-answer state r =
    let q : Query = read_query r.pairs no_query in
    let c : q.code ≡ last_value "code" none r.pairs = read_query-code r.pairs no_query in
    let t : q.state ≡ unwrap_or "" (last_value "state" none r.pairs) =
      read_query-state r.pairs no_query none refl in
    exchanged-answer_with state q q.code
    ∙ ap (λ x. if same_string q.state "" then x else if same_string q.state state then x else none)
        c
    ∙ ap
        (λ x.
          if same_string x ""
          then last_value "code" none r.pairs
          else if same_string x state
          then last_value "code" none r.pairs
          else none)
        t

answer_with-status : (q : Query) (code : Option String) → (answer_with q code).1 ≡ status_of code
answer_with-status q none = refl
answer_with-status q (some x) = refl

answer-status :
    (r : Redirect)
    → (answer (read_query r.pairs no_query)).1 ≡ status_of (last_value "code" none r.pairs)
answer-status r =
    answer_with-status (read_query r.pairs no_query) (read_query r.pairs no_query).code
    ∙ ap status_of (read_query-code r.pairs no_query)

-- A listener that has had its redirect keeps the outcome.
closed-handle_all :
    (rs : List Redirect) (path : String) (outcome : Option Outcome)
    → let l : Listener = record { path = path; is_open = false; outcome = outcome } in
      ((handle_all rs l).0 ≡ l) × ((handle_all rs l).1 ≡ statuses_of path false rs)
unfolding handle_all handle finish
closed-handle_all [] path outcome = (refl, refl)
closed-handle_all (r ∷ rs) path outcome = elim (Bool-cases (same_string r.path path)) [
  | inl y ↦ let ih = closed-handle_all rs path outcome in rw y (ih.0, ap (λ s. 410 ∷ s) ih.1)
  | inr n ↦ let ih = closed-handle_all rs path outcome in rw n (ih.0, ap (λ s. 404 ∷ s) ih.1)
]

-- Whatever requests the listener of a sign-in gets, login exchanges what the first one on its path
-- lets it: the last code of that query, unless the query's last state is not empty and another one
-- than was asked with, and nothing when there is no such request or no code. Requests on other paths
-- are answered 404, that first one 200 with a code and 400 without, and later ones on the path 410.
pub login-first :
    (path state : String) (rs : List Redirect)
    → (exchanged state (handle_all rs (listen path)).0.outcome
        ≡ first_of (accepted state) (find (λ r. same_string r.path path) rs))
      × ((handle_all rs (listen path)).1 ≡ statuses_of path true rs)
unfolding handle_all handle finish
login-first path state [] = (refl, refl)
login-first path state (r ∷ rs) = elim (Bool-cases (same_string r.path path)) [
  | inl y ↦
      let a = answer (read_query r.pairs no_query) in
      let rest = closed-handle_all rs path (some a.0) in
      rw y (
        ap (λ l. exchanged state l.outcome) rest.0 ∙ exchanged-answer state r,
        ap
              (λ x.
                x ∷ (handle_all rs (record { path = path; is_open = false; outcome = some a.0 })).1)
              (answer-status r)
            ∙ ap (λ s. status_of (last_value "code" none r.pairs) ∷ s) rest.1,
      )
  | inr n ↦ let ih = login-first path state rs in rw n (ih.0, ap (λ s. 404 ∷ s) ih.1)
]
