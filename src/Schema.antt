-- ===== src/Schema.antt =====
-- schema/schema.go: what a snapshot holds, and the tables that none holds.
pub mod Capture
pub mod Loops
pub mod Captured
pub mod Failed
pub mod Unmarshal
pub mod Drift
pub mod Diff
pub mod Agree
pub mod Clean
pub mod Sorted
mod Tests
use devengine.Common.{
  ℕ, Bool, true, false, ◌||◌, Option, none, some, List, Text, str, text_eq, strip, Map,
}

pub record Sequence : Type 0 where
  pub name : Text
  pub data_type : Text
  pub start : Text
  pub min_value : Text
  pub max_value : Text
  pub increment : Text
  pub cycle : Bool
  pub cache : Text

pub record Column : Type 0 where
  pub name : Text
  pub data_type : Text
  pub is_nullable : Bool
  pub default : Option Text
  pub position : ℕ

pub record Index : Type 0 where
  pub name : Text
  pub unique : Bool
  pub primary : Bool
  pub columns : List Text
  pub definition : Text

pub record Constraint : Type 0 where
  pub name : Text
  pub kind : Text
  pub definition : Text

pub record Table : Type 0 where
  pub name : Text
  pub columns : List Column
  pub indexes : List Index
  pub constraints : List Constraint

pub record Snapshot : Type 0 where
  pub snapshot_version : ℕ
  pub captured_at : ℕ
  pub tables : Map Table
  pub enums : Map (List Text)
  pub sequences : List Sequence

-- `strings.HasPrefix`
unfoldable pub has_prefix : Text → Text → Bool
unfolding strip
has_prefix t p = elim (strip p t) [ some _ ↦ true | none ↦ false ]

unfoldable pub ignore_table : Text → Bool
unfolding has_prefix
ignore_table name =
    text_eq name (str "_devengine_migrations")
    || (has_prefix name (str "pg_") || has_prefix name (str "information_schema"))
