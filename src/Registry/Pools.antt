-- ===== src/Registry/Pools.antt =====
-- A request on a pool's path: pool_gate of crates/libsubby/src/proxy/mod.rs, over the router.
use subbier.Base.{
  ℕ, ◌≡◌, inl, inr, refl, sym, subst, ap, ◌∙◌, Bool, true, Option, none, some, List, map, String,
  find, filter, any, any-Elem, map-Elem, filter-Elem, find-true, Elem, here, there, [], ◌∷◌, ◌==◌,
  ==_iff, arith, Bool-cases,
}
use subbier.Model.{SubId, Pct, Timestamp, Usage, Provider}
use subbier.Balance.Router.{SubStatus, PoolGate, State, sweep, contains, admits}
use subbier.Balance.Router.Invariant.{IsValid}
use subbier.Balance.Ladder.Live.{is_eligible}
use subbier.Balance.Selection.{Hints, Selection, Result, ok, err}
use subbier.Balance.Select.{select_in}
use subbier.Balance.Select.Sound.{Outcome, select_in-Outcome}
use subbier.Registry.{
  SubEntry, SubRegistry, PoolConfig, pool_matches, resolve_pool, gate_of, is_named, pool_gate,
  Reads, statuses,
}

abbrev members_of : Result PoolGate → Option (List SubId)
members_of (ok gate) = gate.members
members_of (err e) = none

find-Elem : {A : Type 0} (p : A → Bool) (a : A) (xs : List A) → find p xs ≡ some a → Elem a xs
find-Elem p a [] e = absurd (cc)
find-Elem p a (x ∷ xs) e = elim (Bool-cases (p x)) [
  | inl h ↦ let q : some x ≡ some a = rw h at e in here (cc)
  | inr h ↦ there (find-Elem p a xs (rw h at e))
]

eligible-contains :
    (swept : State) (provider : Provider) (gate : PoolGate) (s : SubStatus)
    → is_eligible swept provider (some gate) s ≡ true
    → contains gate s.sub ≡ true
unfolding admits
eligible-contains swept provider gate s h = ground arith

module _ (is_whitespace : ℕ → Bool) (text_of : ℕ → List ℕ) (percent : ℕ → Pct) where
  -- The pool of that name admits the account, as an entry of the registry.
  pub record IsMember (name : String) (pools : List PoolConfig) (entries : SubRegistry)
      (sub : SubId) : Type 0 where
    pub pool : PoolConfig
    pub entry : SubEntry
    pub configured : Elem pool pools
    pub named : is_named is_whitespace text_of percent name pool ≡ true
    pub registered : Elem entry entries
    pub identified : entry.id ≡ sub
    pub matches : pool_matches is_whitespace text_of percent pool entry ≡ true

  resolved-entry :
      (pool : PoolConfig) (entries : SubRegistry) (sub : SubId)
      → any (λ m. m == sub) (resolve_pool is_whitespace text_of percent pool entries) ≡ true
      → (e : SubEntry) × Elem e entries
        × (e.id ≡ sub)
        × (pool_matches is_whitespace text_of percent pool e ≡ true)
  unfolding resolve_pool
  resolved-entry pool entries sub h =
      let test = pool_matches is_whitespace text_of percent pool in
      let (m, listed, q) = any-Elem (λ m. m == sub) (map (λ e. e.id) (filter test entries)) h in
      let (e, t, i) = map-Elem (λ e. e.id) m (filter test entries) listed in
      let (u, k) = filter-Elem test e entries t in (e, u, sym i ∙ (==_iff m sub).0 q, k)

  gate-IsMember :
      (name : String) (pools : List PoolConfig) (entries : SubRegistry) (gate : PoolGate)
      (sub : SubId) (o : Option PoolConfig)
      → find (is_named is_whitespace text_of percent name) pools ≡ o
      → gate_of is_whitespace text_of percent entries name o ≡ ok gate
      → contains gate sub ≡ true
      → IsMember name pools entries sub
  unfolding contains
  gate-IsMember name pools entries gate sub none f g c = absurd (cc)
  gate-IsMember name pools entries gate sub (some pool) f g c =
      let members = resolve_pool is_whitespace text_of percent pool entries in
      let q : some members ≡ gate.members = ap members_of g in
      let d : any (λ m. m == sub) members ≡ true = rw (← q) at c in
      let (e, u, i, k) = resolved-entry pool entries sub d in
      record {
        pool = pool;
        entry = e;
        configured = find-Elem (is_named is_whitespace text_of percent name) pool pools f;
        named = find-true (is_named is_whitespace text_of percent name) pool pools f;
        registered = u;
        identified = i;
        matches = k;
      }

  served-IsMember :
      (name : String) (pools : List PoolConfig) (entries : SubRegistry) (gate : PoolGate)
      (swept : State) (provider : Provider) (subs : List SubStatus) (after : State)
      (sel : Selection)
      → pool_gate is_whitespace text_of percent name pools entries ≡ ok gate
      → Outcome swept provider subs (some gate) (after, some (ok sel))
      → IsMember name pools entries sel.sub
  unfolding pool_gate
  served-IsMember name pools entries gate swept provider subs after sel g o =
      let s = o.1 in
      let c = eligible-contains swept provider gate s.status s.was_eligible in
      gate-IsMember name pools entries gate sel.sub
        (find (is_named is_whitespace text_of percent name) pools) refl g (rw s.serves c)

  -- A request on a pool's path is only ever served by an account that the pool's configuration
  -- matches: the account is the id of an entry of the registry that the pool of that name admits, when
  -- the pool was resolved. The router's invariant must hold, and other requests must keep it.
  pub pool_gate-select_in :
      (name : String) (pools : List PoolConfig) (entries : SubRegistry) (gate : PoolGate)
      (scorer : List SubId → ℕ → List (Option Usage)) (meanwhile : State → State)
      (provider : Provider) (reads : Reads) (now_registered : SubRegistry) (hints : Hints)
      (now later : Timestamp) (router after : State) (sel : Selection)
      → IsValid router
      → ((s : State) → IsValid s → IsValid (meanwhile s))
      → pool_gate is_whitespace text_of percent name pools entries ≡ ok gate
      → select_in scorer meanwhile provider
          (statuses provider reads now_registered)
          hints
          (some gate)
          now
          later
          router
        ≡ (after, some (ok sel))
      → IsMember name pools entries sel.sub
  pool_gate-select_in name pools entries gate scorer meanwhile provider reads now_registered hints
        now later router after sel v keeps g e =
      let subs = statuses provider reads now_registered in
      let o =
        select_in-Outcome scorer meanwhile provider subs hints (some gate) now later router v
          keeps in
      let p : Outcome (sweep now router) provider subs (some gate) (after, some (ok sel)) =
        subst (Outcome (sweep now router) provider subs (some gate)) e o in
      served-IsMember name pools entries gate (sweep now router) provider subs after sel g p
