-- ===== src/Transcripts/Samples.antt =====
-- A small store, for the theorem on store/transcripts.rs.
use subbier.Base.{ℕ, ◌≡◌, refl, Option, none, some, List, [], ◌∷◌, arith}
use subbier.Base.OrdMap.{lookup}
use subbier.Transcripts.{Row, chain, Limits, default_limits, remember, Turn, Store, stored_bytes}
use subbier.Transcripts.Talks.{Talk, opening, reply}
use subbier.Transcripts.Turns.{remember-chain}
use subbier.Transcripts.Bytes.{
  IsWithin, Operation, remembers, reads, looks_up, places, run, run-IsWithin,
}

abbrev small : Limits
small = record { max_bytes = 100; ttl = 60 }

abbrev turn : ℕ → Option ℕ → Turn
turn id parent = record {
  id = id;
  parent = parent;
  sub = 4;
  input = 1 ∷ [];
  output = 2 ∷ [];
  serialised = 40;
}

abbrev empty : Store
empty = record { rows = []; placements = []; bytes = 0 }

abbrev busy : List Operation
busy =
    remembers (turn 1 none) 10
    ∷ remembers (turn 2 (some 1)) 11
    ∷ reads 2 12
    ∷ places 9 4 13
    ∷ remembers (turn 3 none) 14
    ∷ looks_up 9 15
    ∷ []

run-IsWithin_example : IsWithin small (run small busy empty)
unfolding stored_bytes
run-IsWithin_example =
    run-IsWithin small busy empty
      (record { is_totalled = record { sorted = tt; totalled = refl }; fits = omega arith })

abbrev row : Option ℕ → List ℕ → List ℕ → Row
row parent input output = record {
  parent = parent;
  sub = 4;
  input = input;
  output = output;
  bytes = 40;
  touched_at = 3;
  rowid = 1;
}

abbrev talk : Store
talk = record {
  rows = (1, row none (10 ∷ []) (11 ∷ [])) ∷ (2, row (some 1) (12 ∷ []) (13 ∷ [])) ∷ [];
  placements = [];
  bytes = 80;
}

abbrev third : Turn
third = record {
  id = 3;
  parent = some 2;
  sub = 6;
  input = 14 ∷ [];
  output = 15 ∷ [];
  serialised = 40;
}

talk-Talk : Talk talk.rows 2 2 (10 ∷ 11 ∷ 12 ∷ 13 ∷ [])
unfolding lookup
talk-Talk =
    reply (row (some 1) (12 ∷ []) (13 ∷ [])) 1 refl refl
      (opening (row none (10 ∷ []) (11 ∷ [])) refl refl)

remember-chain_example :
    (chain 3 12 (remember default_limits third 11 talk)).1
    ≡ some (record { items = 10 ∷ 11 ∷ 12 ∷ 13 ∷ 14 ∷ 15 ∷ []; sub = 6 })
unfolding lookup
remember-chain_example =
    remember-chain default_limits third 11 12 2 (10 ∷ 11 ∷ 12 ∷ 13 ∷ []) talk refl talk-Talk
      (omega arith) (omega arith, (omega arith, tt)) (omega arith)
