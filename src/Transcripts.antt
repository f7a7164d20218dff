-- ===== src/Transcripts.antt =====
-- crates/libsubby/src/store/transcripts.rs: the store of conversations, with its two tables.
--
-- The table `response` is an ordered map by its primary key; `rowid` is SQLite's, one more than the
-- largest for a new row. Ids and keys are numbers, since they are only compared. An item is a number
-- too, and a turn says how long its two serialised lists are. Times are whole seconds.
pub mod Sums
pub mod Bytes
pub mod Chains
pub mod Talks
pub mod Turns
mod Samples
use subbier.Base.{
  ℕ, zero, suc, ◌+◌, ◌-◌, ◌*◌, max, Bool, true, false, ◌&&◌, not, Option, none, some, List, [], ◌∷◌,
  ◌++◌, ltb, leb, ◌==◌, if◌then◌else◌, length, is_some, map,
}
use subbier.Base.OrdMap.{OrdMap, lookup, insert, remove, retain}

abbrev pub RowId : Type 0
RowId = ℕ

abbrev pub max_depth : ℕ
max_depth = 10000

pub record Limits : Type 0 where
  pub max_bytes : ℕ
  pub ttl : ℕ

abbrev pub default_limits : Limits
default_limits = record { max_bytes = 1024 * 1024 * 1024; ttl = 24 * 60 * 60 }

pub record Turn : Type 0 where
  pub id : ℕ
  pub parent : Option ℕ
  pub sub : ℕ
  pub input : List ℕ
  pub output : List ℕ
  pub serialised : ℕ

pub record Row : Type 0 where
  pub parent : Option ℕ
  pub sub : ℕ
  pub input : List ℕ
  pub output : List ℕ
  pub bytes : ℕ
  pub touched_at : ℕ
  pub rowid : RowId

pub record Placement : Type 0 where
  pub sub : ℕ
  pub touched_at : ℕ

pub record Store : Type 0 where
  pub rows : OrdMap Row
  pub placements : OrdMap Placement
  pub bytes : ℕ

-- `SUM(bytes)`.
unfoldable pub stored_bytes : OrdMap Row → ℕ
stored_bytes [] = 0
stored_bytes ((k, r) ∷ m) = r.bytes + stored_bytes m

unfoldable pub max_rowid : OrdMap Row → ℕ
max_rowid [] = 0
max_rowid ((k, r) ∷ m) = max r.rowid (max_rowid m)

-- `now.saturating_sub(ttl)`: no row is older than time 0.
abbrev pub cutoff : Limits → ℕ → ℕ
cutoff limits now = now - limits.ttl

-- `ORDER BY touched_at, rowid`.
abbrev pub is_before : Row → Row → Bool
is_before a b =
    if ltb a.touched_at b.touched_at
    then true
    else a.touched_at == b.touched_at && ltb a.rowid b.rowid

abbrev pub older_of : ℕ × Row → Option (ℕ × Row) → Option (ℕ × Row)
older_of e none = some e
older_of e (some f) = if is_before f.1 e.1 then some f else some e

-- `LIMIT 1` of the rows in that order.
unfoldable pub oldest : OrdMap Row → Option (ℕ × Row)
oldest [] = none
oldest (e ∷ m) = older_of e (oldest m)

-- The `while` of `evict`: `left` bounds the rows that it can delete.
unfoldable pub shrink : (left : ℕ) → Limits → Store → Store
shrink zero limits s = s
shrink (suc left) limits s =
    if ltb limits.max_bytes s.bytes
    then (elim (oldest s.rows) [
      | none ↦ s
      | some v ↦
          shrink left limits (record s { rows = remove v.0 s.rows; bytes = s.bytes - v.1.bytes })
    ])
    else s

abbrev pub is_recent : ℕ → Row → Bool
is_recent limit r = leb limit r.touched_at

-- Expired rows go only if they hold any bytes.
abbrev pub expire : ℕ → Store → Store
expire limit s =
    let expired = stored_bytes (retain (λ r. ltb r.touched_at limit) s.rows) in
    if ltb 0 expired
    then record s { rows = retain (is_recent limit) s.rows; bytes = s.bytes - expired }
    else s

unfoldable pub evict : Limits → ℕ → Store → Store
unfolding shrink stored_bytes
evict limits now s =
    let kept =
      expire (cutoff limits now) (record s {
        placements = retain (λ p. leb (cutoff limits now) p.touched_at) s.placements;
      }) in
    shrink (length kept.rows) limits kept

abbrev pub bytes_of : Option Row → ℕ
bytes_of none = 0
bytes_of (some r) = r.bytes

abbrev pub row_of : Turn → ℕ → OrdMap Row → Row
row_of turn now rows = record {
  parent = turn.parent;
  sub = turn.sub;
  input = turn.input;
  output = turn.output;
  bytes = turn.serialised;
  touched_at = now;
  rowid = max_rowid rows + 1;
}

unfoldable pub remember : Limits → Turn → ℕ → Store → Store
unfolding evict
remember limits turn now s =
    if ltb limits.max_bytes turn.serialised
    then s
    else evict limits now (record s {
      rows = insert turn.id (row_of turn now s.rows) s.rows;
      bytes = s.bytes + turn.serialised - bytes_of (lookup turn.id s.rows);
    })

-- The ancestors of a row, itself first, as far as they are stored; `left` is the depth that remains.
unfoldable pub walk : (left : ℕ) → Option ℕ → OrdMap Row → List (ℕ × Row)
walk left none rows = []
walk zero (some id) rows = elim (lookup id rows) [ none ↦ [] | some r ↦ (id, r) ∷ [] ]
walk (suc left) (some id) rows = elim (lookup id rows) [
  | none ↦ []
  | some r ↦ (id, r) ∷ walk left r.parent rows
]

abbrev pub same_id : Option ℕ → ℕ → Bool
same_id none k = false
same_id (some i) k = i == k

-- Each link names the next one, and the last has no parent.
unfoldable pub is_whole : List (ℕ × Row) → Bool
is_whole [] = false
is_whole (l ∷ []) = not (is_some l.1.parent)
is_whole (l ∷ m ∷ ls) = same_id l.1.parent m.0 && is_whole (m ∷ ls)

-- The items from the root to the head.
unfoldable pub items_of : List (ℕ × Row) → List ℕ
items_of [] = []
items_of (l ∷ ls) = items_of ls ++ (l.1.input ++ l.1.output)

pub record Chain : Type 0 where
  pub items : List ℕ
  pub sub : ℕ

unfoldable pub assemble : List (ℕ × Row) → Option Chain
unfolding is_whole items_of
assemble [] = none
assemble (l ∷ ls) =
    if is_whole (l ∷ ls) then some (record { items = items_of (l ∷ ls); sub = l.1.sub }) else none

abbrev pub touched : ℕ → ℕ → Option Row → OrdMap Row → OrdMap Row
touched id now none rows = rows
touched id now (some r) rows = insert id (record r { touched_at = now }) rows

unfoldable pub touch : List (ℕ × Row) → ℕ → OrdMap Row → OrdMap Row
touch [] now rows = rows
touch (l ∷ ls) now rows = touch ls now (touched l.0 now (lookup l.0 rows) rows)

abbrev pub chain_found : List (ℕ × Row) → ℕ → Store → Option Chain → Store × Option Chain
chain_found links now s none = (s, none)
chain_found links now s (some c) = (record s { rows = touch links now s.rows }, some c)

unfoldable pub chain : ℕ → ℕ → Store → Store × Option Chain
unfolding walk assemble touch
chain head now s =
    let links = walk max_depth (some head) s.rows in chain_found links now s (assemble links)

abbrev pub placed : ℕ → ℕ → ℕ → Store → Option Placement → Store × Option ℕ
placed key limit now s none = (s, none)
placed key limit now s (some p) =
    if leb limit p.touched_at
    then (
      record s { placements = insert key (record p { touched_at = now }) s.placements },
      some p.sub,
    )
    else (s, none)

unfoldable pub placement : Limits → ℕ → ℕ → Store → Store × Option ℕ
placement limits key now s = placed key (cutoff limits now) now s (lookup key s.placements)

unfoldable pub place : ℕ → ℕ → ℕ → Store → Store
place key sub now s = record s {
  placements = insert key (record { sub = sub; touched_at = now }) s.placements;
}
