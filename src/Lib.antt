-- ===== src/Lib.antt =====
-- subbier: a proxy that spreads requests for Codex and Claude over several subscriptions.
--
-- The modules follow crates/libsubby/src:
--   Model       model.rs: the ids, percentages, usage reports and tokens that the parts share.
--   Balance     balance/mod.rs and balance/strategy.rs. Failure: the markers of a usage limit
--               (is_usage_limit_body), Attempt::classify and what each class leads to. Exhaustion:
--               effective_pct, is_exhausted, exhaust_until. Strategy: Candidate, the comparators of
--               the strategies and their pick. Router: State and every operation on it but
--               select_in. Selection: the types that select_in takes and returns. Ladder: select_in
--               under its first lock (filters, pin, freeze, hints, stickiness). Select: the usage
--               round, the second lock, and select_in whole. History: the operations of a router in
--               any order, as a list of events.
--   Failover    proxy/claude.rs and proxy/codex.rs, forward_with_failover, attempt, ensure_fresh and
--               observe_rate_limits, with send_retrying of proxy/mod.rs, over the router of Balance.
--               The provider, the token manager, the registry, the caches and the clock are an
--               interface, Outside; Prepared says which of the two providers a request is for.
--   Codex       proxy/transcript.rs and prepare of proxy/codex.rs: the body of a request on its way
--               upstream, over an interface to serde_json's values and objects, with the store of
--               Transcripts and the registry. Streaming: stream_response, from the bytes that come
--               in to those that the client gets, with the framer and the aggregator of Sse.
--   Sse         proxy/sse.rs. The framer (SseFramer::push and flush); Payload: data_payload and
--               split_lines; Aggregate: the Aggregator, over an interface to serde_json's values;
--               Rewrite: rewrite_previous_response_id.
--   Registry    proxy/mod.rs: the SubRegistry and pool_gate, with PoolConfig of config/mod.rs and
--               SubKey of model.rs. Conversations: the hints of prepare in proxy/codex.rs, which the
--               store, the registry and the router share.
--   Auth        auth/mod.rs. TokenManager: the steps of its callers (ensure_fresh, cell_for, retire)
--               over the cells that they share, as a relation; recover_adopted. Failover takes the
--               manager as part of its interface. SignIn: the callback listener of auth/pkce.rs
--               (handle, Inner::finish) and login's check of the state.
--   Metrics     proxy/metrics.rs: the counters that the maps and the running requests share, as a
--               heap. Gauges: histories of requests.
--   Poller      usage/mod.rs: the cache of usage reports and its backoff.
--   Transcripts store/transcripts.rs: the tables of turns and of placements, as ordered maps; the
--               queries that the code sends to SQLite are written out as functions on them.
--   History     history.rs: Series::resample and resample_held.
--   Engine      engine.rs: the state that its operations share (Engine), record_usage,
--               evaluate_alerts, health_of and remove_sub, with the registry, the router, the cache
--               and the counters as its parts. Accounts: merge_discovered, finish_login,
--               adopt_tokens, mark_needs_login, set_sub_enabled, reload_config and the end of build.
--               Polling and Rounds: poll_round with its phases, over what the sources, the token
--               manager and the poller answer (Outside), and with what requests do at each wait.
--               Histories: every command, event and timer of the loop, in any order.
--   Severity    severity.rs: severity bands, over every kind of f32, and notifications.
--   Base        lists, options and tests over the native numbers, ASCII text, comparators as Rust's
--               Ordering, and the ordered map that stands for a BTreeMap.
--
-- An operation that locks the router's state takes the state and returns the new one. select_in
-- releases the lock for its usage round: what other requests do meanwhile is a function on states,
-- which Balance.History takes to be any list of operations. The clock is an argument, one
-- per reading; the scorer that fetches usage reports is a parameter about which nothing is assumed.
--
-- Percentages are f32 in the source. provider/mod.rs normalises each into 0..=100, and every such
-- f32 is a whole multiple of 2^-149, so a percentage is a natural number in that unit and the
-- comparisons are exact; only severity.rs, which takes any f32, has all of them. A pool's ceiling is
-- taken to be finite and not negative. A timestamp is a natural number of nanoseconds, in Transcripts
-- of seconds. The counts that a selection is given are not bounded; those in Metrics wrap or saturate
-- as in the source. Keys and names that the code only compares (SubKey, the name of a pool in
-- Metrics, the ids of turns) are numbers.
--
-- No definition of the model runs on fuel. The loops go through lists, except for these: the
-- failover loop counts down the attempts that the first selection allows, and send_retrying the
-- backoffs left; the loop of evict counts down from the number of rows, each turn of which deletes
-- one; the walk over a conversation counts down from MAX_DEPTH. The two turns of the loop in
-- attempt, of which the second never repeats, are one function that takes what follows as an
-- argument.
--
-- Not modelled: sockets and HTTP, the database driver, credentials and their stores, the
-- exchange of OAuth codes and tokens, the parsing of provider reports, the engine's listener,
-- snapshots and labels, configuration files, rendering, and the command line and menu bar programs.
pub mod Base
pub mod Model
pub mod Balance
pub mod Poller
pub mod Metrics
pub mod Codex
pub mod Engine
pub mod Failover
pub mod Transcripts
pub mod Severity
pub mod Auth
pub mod Sse
pub mod History
pub mod Registry
