-- ===== src/Migrate/Load.antt =====
-- `loadSources` and `validateVersion` of migrate/migrate.go.
use devengine.Common.{
  ℕ, Bool, ◌||◌, Option, none, some, List, [], ◌∷◌, ◌++◌, Text, text_eq, str, trim_space, ltb, ◌==◌,
  if◌then◌else◌, any, Result, ok, err, ◌>>=◌,
}
use devengine.Migrate.Files.{match_migration, parse_version}

-- An entry of a directory; `body` is what reading the file returns.
pub record Entry : Type 0 where
  pub name : Text
  pub is_dir : Bool
  pub body : Result Text Text

-- `read_dir` is the file system, `none` when nil.
pub record Source : Type 0 where
  pub kind : Text
  pub read_dir : Option (Text → Result Text (List Entry))
  pub dir : Text

pub record Migration : Type 0 where
  pub version : ℕ
  pub name : Text
  pub sql : Text
  pub checksum : Text
  pub source : Text

pub data LoadError : Type 0 where
  read_source read_file : Text → Text → LoadError
  invalid_version : Text → LoadError
  engine_version app_version : LoadError
  unknown_kind : Text → LoadError
  duplicate_version : ℕ → Text → LoadError

unfoldable pub validate_version : Text → ℕ → Option LoadError
validate_version kind version =
    if text_eq kind (str "engine")
    then if ltb version 1 || ltb 999 version then some engine_version else none
    else if text_eq kind (str "app")
    then if ltb version 1000 then some app_version else none
    else some (unknown_kind kind)

abbrev pub dir_or_dot : Text → Text
dir_or_dot dir = if text_eq dir [] then str "." else dir

abbrev pub has_version : ℕ → Migration → Bool
has_version v m = m.version == v

unfoldable pub insert_version : Migration → List Migration → List Migration
insert_version m [] = m ∷ []
insert_version m (n ∷ ms) = if ltb m.version n.version then m ∷ n ∷ ms else n ∷ insert_version m ms

-- `sort.Slice` by version; no two are equal.
unfoldable pub sort_versions : List Migration → List Migration
unfolding insert_version
sort_versions [] = []
sort_versions (m ∷ ms) = insert_version m (sort_versions ms)

-- `checksum` is the hexadecimal SHA-256.
module _ (checksum : Text → Text) where
  -- A file whose name has matched, behind the migrations that were loaded before it. They are also
  -- the map `seen`, which has the version of each.
  unfoldable pub add_file :
      Text → Entry → Text → ℕ → List Migration → Result LoadError (List Migration)
  unfolding validate_version any
  add_file kind entry name version loaded = elim (validate_version kind version) [
    | some e ↦ err e
    | none ↦
        if any (has_version version) loaded
        then err (duplicate_version version entry.name)
        else elim entry.body [
          | err e ↦ err (read_file entry.name e)
          | ok body ↦ ok (
              loaded
              ++ record {
                version = version;
                name = name;
                sql = body;
                checksum = checksum body;
                source = kind;
              }
                ∷ [])
        ]
  ]

  unfoldable pub add_entry : Text → Entry → List Migration → Result LoadError (List Migration)
  unfolding match_migration parse_version add_file
  add_entry kind entry loaded =
      if entry.is_dir then ok loaded else elim (match_migration entry.name) [
        | none ↦ ok loaded
        | some (digits, name) ↦ elim (parse_version digits) [
          | none ↦ err (invalid_version entry.name)
          | some version ↦ add_file kind entry name version loaded
        ]
      ]

  unfoldable pub add_entries :
      Text → List Entry → List Migration → Result LoadError (List Migration)
  unfolding add_entry
  add_entries kind [] loaded = ok loaded
  add_entries kind (entry ∷ entries) loaded = do
    next ← add_entry kind entry loaded
    add_entries kind entries next

  unfoldable pub add_sources : List Source → List Migration → Result LoadError (List Migration)
  unfolding add_entries trim_space
  add_sources [] loaded = ok loaded
  add_sources (source ∷ sources) loaded = elim source.read_dir [
    | none ↦ add_sources sources loaded
    | some read ↦ elim (read (dir_or_dot (trim_space source.dir))) [
      | err e ↦ err (read_source source.kind e)
      | ok entries ↦ do next ← add_entries source.kind entries loaded; add_sources sources next
    ]
  ]

  unfoldable pub load_sources : List Source → Result LoadError (List Migration)
  unfolding add_sources sort_versions
  load_sources sources = do all ← add_sources sources []; ok (sort_versions all)
