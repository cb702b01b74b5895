-- ===== src/Schema/Metadata.antt =====
-- models.py: the tables `feeds` and `entries` as the mapped classes declare them, `Base.metadata`.
use feedgate_fetcher.Prelude.{String, Option, none, some, List, [], ◌∷◌, Bool, true, false}
use feedgate_fetcher.Schema.{
  SqlType, integer, unbounded, varchar, timestamptz, Default, no_default, literal, current_time,
  Column, primary_key, unique, foreign_key, Table, Index, Catalog, create_table, create_index,
  ◌>>=◌,
}
use Prim.Native.String.{◌++◌ as ◌++ˢ◌}

-- `mapped_column(...)` without a default of the server
abbrev pub column : String → SqlType → Bool → Column
column name sql_type nullable = record {
  name = name;
  sql_type = sql_type;
  nullable = nullable;
  server_default = no_default;
  autoincrement = false;
}

abbrev pub with_default : Column → Default → Column
with_default c d = record c { server_default = d }

-- `mapped_column(Integer, primary_key=True, autoincrement=True)`
abbrev pub key_column : Column
key_column = record (column "id" integer false) { autoincrement = true }

abbrev pub feeds_table : Table
feeds_table = record {
  name = "feeds";
  columns =
      key_column
      ∷ column "url" unbounded false
      ∷ column "effective_url" unbounded false
      ∷ column "title" unbounded true
      ∷ with_default (column "status" (varchar 32) false) (literal "active")
      ∷ column "last_successful_fetch_at" timestamptz true
      ∷ column "last_attempt_at" timestamptz true
      ∷ column "last_error_code" (varchar 64) true
      ∷ with_default (column "created_at" timestamptz false) current_time
      ∷ with_default (column "next_fetch_at" timestamptz false) current_time
      ∷ with_default (column "consecutive_failures" integer false) (literal "0")
      ∷ column "etag" unbounded true
      ∷ column "last_modified" unbounded true
      ∷ [];
  constraints = primary_key ("id" ∷ []) ∷ unique none ("url" ∷ []) ∷ [];
}

abbrev pub entries_table : Table
entries_table = record {
  name = "entries";
  columns =
      key_column
      ∷ column "feed_id" integer false
      ∷ column "guid" unbounded false
      ∷ column "url" unbounded false
      ∷ column "title" unbounded true
      ∷ column "content" unbounded true
      ∷ column "author" unbounded true
      ∷ column "published_at" timestamptz true
      ∷ column "fetched_at" timestamptz false
      ∷ column "content_updated_at" timestamptz false
      ∷ [];
  constraints =
      foreign_key ("feed_id" ∷ []) "feeds" ("id" ∷ []) "CASCADE"
      ∷ primary_key ("id" ∷ [])
      ∷ unique (some "uq_entries_feed_guid") ("feed_id" ∷ "guid" ∷ [])
      ∷ [];
}

-- `.desc()` of a column
abbrev pub desc : String → String
desc name = name ++ˢ " DESC"

-- `Index(name, keys..., postgresql_where=...)`
abbrev pub index_on : String → String → List String → Option String → Index
index_on table name keys predicate = record {
  name = name;
  table = table;
  keys = keys;
  predicate = predicate;
}

abbrev pub feeds_indices : List Index
feeds_indices =
    index_on "feeds" "ix_feeds_status" ("status" ∷ []) none
    ∷ index_on "feeds" "ix_feeds_due_not_dead" ("next_fetch_at" ∷ []) (some "status <> 'dead'")
    ∷ index_on "feeds" "ix_feeds_dead_last_attempt" ("last_attempt_at" ∷ [])
        (some "status = 'dead'")
    ∷ []

abbrev pub entries_indices : List Index
entries_indices =
    index_on "entries" "ix_entries_fetched_at" ("fetched_at" ∷ []) none
    ∷ index_on "entries" "ix_entries_feed_pub_id" ("feed_id" ∷ desc "published_at" ∷ desc "id" ∷ [])
        none
    ∷ index_on "entries" "ix_entries_feed_fetched_id"
        ("feed_id" ∷ desc "fetched_at" ∷ desc "id" ∷ []) none
    ∷ []

unfoldable pub create_indices : List Index → Catalog → Option Catalog
unfolding create_index
create_indices [] c = some c
create_indices (i ∷ is) c = create_index i c >>= create_indices is

-- `Base.metadata.create_all`: each table with its indices, the one that is referred to first
unfoldable pub create_all : Catalog → Option Catalog
unfolding create_table create_indices
create_all c =
    create_table feeds_table c
    >>= create_indices feeds_indices
    >>= create_table entries_table
    >>= create_indices entries_indices
