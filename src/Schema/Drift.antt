-- ===== src/Schema/Drift.antt =====
-- schema/schema.go: the entries of a drift report, their texts, and the maps by name that are
-- compared.
use devengine.Common.{
  join_with, Bool, true, false, not, ◌&&◌, ◌||◌, none, some, List, [], ◌∷◌, ◌++◌, Text, str,
  text_eq, Map, insert,
}
use devengine.Schema.{Sequence, Column, Index, Constraint}

pub data DriftKind : Type 0 where
  table_added table_removed : DriftKind
  column_added column_removed column_changed : DriftKind
  index_added index_removed index_changed : DriftKind
  constraint_added constraint_removed constraint_changed : DriftKind
  sequence_added sequence_removed sequence_changed : DriftKind
  enum_changed : DriftKind

unfoldable pub kind_text : DriftKind → Text
kind_text table_added = str "table_added"
kind_text table_removed = str "table_removed"
kind_text column_added = str "column_added"
kind_text column_removed = str "column_removed"
kind_text column_changed = str "column_changed"
kind_text index_added = str "index_added"
kind_text index_removed = str "index_removed"
kind_text index_changed = str "index_changed"
kind_text constraint_added = str "constraint_added"
kind_text constraint_removed = str "constraint_removed"
kind_text constraint_changed = str "constraint_changed"
kind_text sequence_added = str "sequence_added"
kind_text sequence_removed = str "sequence_removed"
kind_text sequence_changed = str "sequence_changed"
kind_text enum_changed = str "enum_changed"

pub record DriftEntry : Type 0 where
  pub kind : DriftKind
  pub table : Text
  pub object : Text
  pub detail : Text

pub record DriftResult : Type 0 where
  pub has_drift : Bool
  pub entries : List DriftEntry

abbrev pub entry : DriftKind → Text → Text → Text → DriftEntry
entry kind table object detail = record {
  kind = kind;
  table = table;
  object = object;
  detail = detail;
}

unfoldable pub bool_eq : Bool → Bool → Bool
bool_eq true b = b
bool_eq false b = not b

-- "→" in UTF-8
abbrev arrow : Text
arrow = 0xe2 ∷ 0x86 ∷ 0x92 ∷ []

-- `%v` of a bool
unfoldable pub bool_text : Bool → Text
bool_text true = str "true"
bool_text false = str "false"

unfoldable pub join : List Text → Text
unfolding join_with
join = join_with (str ",")

unfoldable pub index_columns : List Column → Map Column → Map Column
index_columns [] m = m
index_columns (c ∷ cs) m = index_columns cs (insert c.name c m)

unfoldable pub index_indexes : List Index → Map Index → Map Index
index_indexes [] m = m
index_indexes (i ∷ is) m = index_indexes is (insert i.name i m)

unfoldable pub index_constraints : List Constraint → Map Constraint → Map Constraint
index_constraints [] m = m
index_constraints (c ∷ cs) m = index_constraints cs (insert c.name c m)

unfoldable pub index_sequences : List Sequence → Map Sequence → Map Sequence
index_sequences [] m = m
index_sequences (s ∷ seqs) m = index_sequences seqs (insert s.name s m)

-- The default, or "" for nil.
unfoldable pub default_text : Column → Text
default_text c = elim c.default [ some t ↦ t | none ↦ [] ]

unfoldable pub column_differs : Column → Column → Bool
unfolding default_text
column_differs col live_col =
    not (text_eq col.data_type live_col.data_type)
    || (not (bool_eq col.is_nullable live_col.is_nullable)
        || not (text_eq (default_text col) (default_text live_col)))

unfoldable pub column_detail : Column → Column → Text
unfolding default_text bool_text
column_detail col live_col =
    str "type: "
    ++ (col.data_type
        ++ (arrow
            ++ (live_col.data_type
                ++ (str " nullable: "
                    ++ (bool_text col.is_nullable
                        ++ (arrow
                            ++ (bool_text live_col.is_nullable
                                ++ (str " default: "
                                    ++ (default_text col
                                        ++ (arrow ++ default_text live_col))))))))))

unfoldable pub definition_detail : Text → Text → Text
definition_detail definition live_definition =
    str "def: " ++ (definition ++ (arrow ++ live_definition))

-- `%v` of a slice of strings
unfoldable pub list_text : List Text → Text
unfolding join_with
list_text ss = str "[" ++ (join_with (str " ") ss ++ str "]")

unfoldable pub enum_detail : List Text → List Text → Text
unfolding list_text
enum_detail base_vals live_vals =
    str "base=" ++ (list_text base_vals ++ (str " live=" ++ list_text live_vals))

-- `%+v` of a sequence
unfoldable pub sequence_text : Sequence → Text
unfolding bool_text
sequence_text s =
    str "{Name:"
    ++ (s.name
        ++ (str " DataType:"
            ++ (s.data_type
                ++ (str " Start:"
                    ++ (s.start
                        ++ (str " MinValue:"
                            ++ (s.min_value
                                ++ (str " MaxValue:"
                                    ++ (s.max_value
                                        ++ (str " Increment:"
                                            ++ (s.increment
                                                ++ (str " Cycle:"
                                                    ++ (bool_text s.cycle
                                                        ++ (str " Cache:"
                                                            ++ (s.cache ++ str "}")))))))))))))))

unfoldable pub sequence_detail : Sequence → Sequence → Text
unfolding sequence_text
sequence_detail s live = str "base=" ++ (sequence_text s ++ (str " live=" ++ sequence_text live))

-- `reflect.DeepEqual` of two sequences
unfoldable pub sequence_eq : Sequence → Sequence → Bool
unfolding bool_eq
sequence_eq s t =
    text_eq s.name t.name
    && (text_eq s.data_type t.data_type
        && (text_eq s.start t.start
            && (text_eq s.min_value t.min_value
                && (text_eq s.max_value t.max_value
                    && (text_eq s.increment t.increment
                        && (bool_eq s.cycle t.cycle && text_eq s.cache t.cache))))))
