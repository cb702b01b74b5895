-- ===== src/Schema.antt =====
-- The schema of the database: the catalog of Postgres as far as alembic's operations of
-- alembic/versions touch it. `none` is an error of the database. An index lists its keys as they are
-- written, `published_at DESC`, and its predicate as a text. New tables and indices stand first in
-- their lists; a new column is a table's last.
pub mod Metadata
pub mod Migrations
pub mod Upgrades
pub mod Values
pub mod Rows
use feedgate_fetcher.Prelude.{
  ℕ, String, Option, none, some, List, [], ◌∷◌, ◌++◌, Bool, true, false, not, ◌&&◌, ◌||◌,
  if◌then◌else◌, any, filter, map,
}
use feedgate_fetcher.Prelude.Find.{find}
use Prim.Native.String.{◌++◌ as ◌++ˢ◌}
use text.Mathlib.Text.{◌==◌ as str_eq}

pub data SqlType : Type 0 where
  integer : SqlType
  -- `Text`
  unbounded : SqlType
  -- `String(length)`
  varchar : ℕ → SqlType
  -- `DateTime(timezone=True)`
  timestamptz : SqlType

-- `server_default`
pub data Default : Type 0 where
  no_default : Default
  literal : String → Default
  -- `func.now()`
  current_time : Default

pub record Column : Type 0 where
  pub name : String
  pub sql_type : SqlType
  pub nullable : Bool
  pub server_default : Default
  pub autoincrement : Bool

pub data Constraint : Type 0 where
  primary_key : List String → Constraint
  -- with its name, if it has one
  unique : Option String → List String → Constraint
  -- columns, the table and the columns they refer to, and ON DELETE
  foreign_key : List String → String → List String → String → Constraint

pub record Table : Type 0 where
  pub name : String
  pub columns : List Column
  pub constraints : List Constraint

pub record Index : Type 0 where
  pub name : String
  pub table : String
  pub keys : List String
  pub predicate : Option String

pub record Catalog : Type 0 where
  pub tables : List Table
  pub indices : List Index

unfoldable pub has_table : String → Catalog → Bool
unfolding any
has_table name c = any (λ t. str_eq t.name name) c.tables

unfoldable pub has_index : String → Catalog → Bool
unfolding any
has_index name c = any (λ i. str_eq i.name name) c.indices

-- does a table have a foreign key to this one?
abbrev pub is_reference : String → Constraint → Bool
is_reference name (foreign_key columns table targets on_delete) = str_eq table name
is_reference name (primary_key columns) = false
is_reference name (unique key columns) = false

unfoldable pub refers_to : String → Table → Bool
unfolding any
refers_to name t = any (is_reference name) t.constraints

unfoldable pub create_table : Table → Catalog → Option Catalog
unfolding has_table
create_table t c = if has_table t.name c then none else some (record c { tables = t ∷ c.tables })

unfoldable pub remove_table : String → List Table → List Table
remove_table name [] = []
remove_table name (t ∷ ts) =
    let rest = remove_table name ts in if str_eq t.name name then ts else t ∷ rest

-- The indices of a table go with it; a foreign key of another table stands in the way.
unfoldable pub drop_table : String → Catalog → Option Catalog
unfolding has_table remove_table refers_to filter any
drop_table name c =
    let rest = remove_table name c.tables in
    if not (has_table name c) || any (refers_to name) rest
    then none
    else some
        (record { tables = rest; indices = filter (λ i. not (str_eq i.table name)) c.indices })

unfoldable pub create_index : Index → Catalog → Option Catalog
unfolding has_table has_index
create_index i c =
    if not (has_table i.table c) || has_index i.name c
    then none
    else some (record c { indices = i ∷ c.indices })

unfoldable pub remove_index : String → List Index → List Index
remove_index name [] = []
remove_index name (i ∷ is) =
    let rest = remove_index name is in if str_eq i.name name then is else i ∷ rest

unfoldable pub drop_index : String → Catalog → Option Catalog
unfolding has_index remove_index
drop_index name c =
    if has_index name c then some (record c { indices = remove_index name c.indices }) else none

unfoldable pub has_column : String → List Column → Bool
unfolding any
has_column name columns = any (λ column. str_eq column.name name) columns

unfoldable pub remove_column : String → List Column → List Column
remove_column name [] = []
remove_column name (column ∷ columns) =
    let rest = remove_column name columns in
    if str_eq column.name name then columns else column ∷ rest

-- the columns of one table are changed, or the change is refused
unfoldable pub alter_table :
    String → (List Column → Option (List Column)) → List Table → Option (List Table)
alter_table name change [] = none
alter_table name change (t ∷ ts) =
    let rest = alter_table name change ts in
    if str_eq t.name name
    then elim (change t.columns) [
      | none ↦ none
      | some columns ↦ some (record t { columns = columns } ∷ ts)
    ]
    else elim rest [ none ↦ none | some ts' ↦ some (t ∷ ts') ]

abbrev pub with_tables : Catalog → Option (List Table) → Option Catalog
with_tables c none = none
with_tables c (some tables) = some (record c { tables = tables })

unfoldable pub add_column : String → Column → Catalog → Option Catalog
unfolding has_column alter_table
add_column name column c = with_tables c (
    alter_table name
      (λ columns. if has_column column.name columns then none else some (columns ++ column ∷ []))
      c.tables)

-- No column that is dropped here stands in an index or a constraint.
unfoldable pub drop_column : String → String → Catalog → Option Catalog
unfolding has_column remove_column alter_table
drop_column name column c = with_tables c (
    alter_table name
      (λ columns. if has_column column columns then some (remove_column column columns) else none)
      c.tables)

-- operations one after the other
infixl 5 ◌>>=◌
abbrev pub ◌>>=◌ : Option Catalog → (Catalog → Option Catalog) → Option Catalog
none >>= f = none
some c >>= f = f c
