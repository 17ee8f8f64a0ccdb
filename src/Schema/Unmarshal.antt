-- ===== src/Schema/Unmarshal.antt =====
-- schema/schema.go: what `UnmarshalSnapshot` makes of a decoded document.
use devengine.Common.{
  ℕ, ◌==◌, false, List, [], Text, Map, Result, ok, err, ◌>>=◌, map, if◌then◌else◌,
}
use devengine.Schema.{Sequence, Table, Snapshot}

-- The field `sequences` as it stands in the document: not there or null, an array that decodes
-- into sequences, one that decodes into texts only, or neither (with the error of the first try).
pub data RawSequences : Type 0 where
  missing : RawSequences
  current : List Sequence → RawSequences
  legacy : List Text → RawSequences
  malformed : Text → RawSequences

-- The struct `raw` that the document is decoded into.
pub record Raw : Type 0 where
  pub snapshot_version : ℕ
  pub captured_at : ℕ
  pub tables : Map Table
  pub enums : Map (List Text)
  pub sequences : RawSequences

pub data UnmarshalError : Type 0 where
  in_snapshot : Text → UnmarshalError
  in_sequences : Text → UnmarshalError

-- `Sequence{Name: name}`
abbrev pub named_sequence : Text → Sequence
named_sequence name = record {
  name = name;
  data_type = [];
  start = [];
  min_value = [];
  max_value = [];
  increment = [];
  cycle = false;
  cache = [];
}

unfoldable pub read_sequences : RawSequences → Result UnmarshalError (List Sequence)
read_sequences missing = ok []
read_sequences (current seqs) = ok seqs
read_sequences (legacy names) = ok (map named_sequence names)
read_sequences (malformed e) = err (in_sequences e)

unfoldable pub unmarshal_snapshot : Result Text Raw → Result UnmarshalError Snapshot
unfolding read_sequences
unmarshal_snapshot (err e) = err (in_snapshot e)
unmarshal_snapshot (ok raw) = do
  sequences ← read_sequences raw.sequences
  ok (record {
    snapshot_version = if raw.snapshot_version == 0 then 1 else raw.snapshot_version;
    captured_at = raw.captured_at;
    tables = raw.tables;
    enums = raw.enums;
    sequences = sequences;
  })
