-- ===== src/Schema/Migrations.antt =====
-- alembic/versions: the five revisions, each with the operations of its `upgrade` and its `downgrade`
-- in their order, and the way from base to head and back.
use feedgate_fetcher.Prelude.{Option, none, some, [], ◌∷◌, true, false}
use feedgate_fetcher.Schema.{
  integer, unbounded, varchar, timestamptz, literal, current_time, primary_key, unique, foreign_key,
  Table, Index, Catalog, create_table, drop_table, create_index, drop_index, add_column,
  drop_column, ◌>>=◌,
}
use feedgate_fetcher.Schema.Metadata.{column, with_default, key_column, index_on}

-- 0001_initial_schema.py
abbrev pub initial_feeds : Table
initial_feeds = record {
  name = "feeds";
  columns =
      key_column
      ∷ column "url" unbounded false
      ∷ column "effective_url" unbounded false
      ∷ column "title" unbounded true
      ∷ with_default (column "status" (varchar 32) false) (literal "active")
      ∷ column "last_successful_fetch_at" timestamptz true
      ∷ column "last_attempt_at" timestamptz true
      ∷ column "last_error_code" (varchar 64) true
      ∷ with_default (column "created_at" timestamptz false) current_time
      ∷ with_default (column "next_fetch_at" timestamptz false) current_time
      ∷ column "etag" unbounded true
      ∷ column "last_modified" unbounded true
      ∷ with_default (column "consecutive_failures" integer false) (literal "0")
      ∷ [];
  constraints = primary_key ("id" ∷ []) ∷ unique none ("url" ∷ []) ∷ [];
}

abbrev pub initial_entries : Table
initial_entries = record {
  name = "entries";
  columns =
      key_column
      ∷ column "feed_id" integer false
      ∷ column "guid" unbounded false
      ∷ column "url" unbounded false
      ∷ column "title" unbounded true
      ∷ column "content" unbounded true
      ∷ column "author" unbounded true
      ∷ column "published_at" timestamptz true
      ∷ column "fetched_at" timestamptz false
      ∷ column "content_updated_at" timestamptz false
      ∷ [];
  constraints =
      foreign_key ("feed_id" ∷ []) "feeds" ("id" ∷ []) "CASCADE"
      ∷ primary_key ("id" ∷ [])
      ∷ unique (some "uq_entries_feed_guid") ("feed_id" ∷ "guid" ∷ [])
      ∷ [];
}

abbrev pub next_fetch_at_active : Index
next_fetch_at_active =
    index_on "feeds" "ix_feeds_next_fetch_at_active" ("next_fetch_at" ∷ [])
      (some "status = 'active'")

unfoldable pub upgrade_0001 : Catalog → Option Catalog
unfolding create_table create_index
upgrade_0001 c =
    create_table initial_feeds c
    >>= create_index (index_on "feeds" "ix_feeds_status" ("status" ∷ []) none)
    >>= create_index next_fetch_at_active
    >>= create_table initial_entries
    >>= create_index (index_on "entries" "ix_entries_fetched_at" ("fetched_at" ∷ []) none)
    >>= create_index (
        index_on "entries" "ix_entries_feed_pub_id"
          ("feed_id" ∷ "published_at DESC" ∷ "id DESC" ∷ []) none)

unfoldable pub downgrade_0001 : Catalog → Option Catalog
unfolding drop_index drop_table
downgrade_0001 c =
    drop_index "ix_entries_feed_pub_id" c
    >>= drop_index "ix_entries_fetched_at"
    >>= drop_table "entries"
    >>= drop_index "ix_feeds_next_fetch_at_active"
    >>= drop_index "ix_feeds_status"
    >>= drop_table "feeds"

-- 0002_claim_index_coverage.py
unfoldable pub upgrade_0002 : Catalog → Option Catalog
unfolding drop_index create_index
upgrade_0002 c =
    drop_index "ix_feeds_next_fetch_at_active" c
    >>= create_index
        (index_on "feeds" "ix_feeds_due_not_dead" ("next_fetch_at" ∷ []) (some "status <> 'dead'"))
    >>= create_index (
        index_on "feeds" "ix_feeds_dead_last_attempt" ("last_attempt_at" ∷ [])
          (some "status = 'dead'"))

unfoldable pub downgrade_0002 : Catalog → Option Catalog
unfolding drop_index create_index
downgrade_0002 c =
    drop_index "ix_feeds_dead_last_attempt" c
    >>= drop_index "ix_feeds_due_not_dead"
    >>= create_index next_fetch_at_active

-- 0003_retention_index.py
unfoldable pub upgrade_0003 : Catalog → Option Catalog
unfolding create_index
upgrade_0003 = create_index (
    index_on "entries" "ix_entries_feed_fetched_id" ("feed_id" ∷ "fetched_at DESC" ∷ "id DESC" ∷ [])
      none)

unfoldable pub downgrade_0003 : Catalog → Option Catalog
unfolding drop_index
downgrade_0003 = drop_index "ix_entries_feed_fetched_id"

-- 0004_drop_dead_etag_columns.py
unfoldable pub upgrade_0004 : Catalog → Option Catalog
unfolding drop_column
upgrade_0004 c = drop_column "feeds" "etag" c >>= drop_column "feeds" "last_modified"

unfoldable pub downgrade_0004 : Catalog → Option Catalog
unfolding add_column
downgrade_0004 c =
    add_column "feeds" (column "etag" unbounded true) c
    >>= add_column "feeds" (column "last_modified" unbounded true)

-- 0005_etag_last_modified.py
unfoldable pub upgrade_0005 : Catalog → Option Catalog
unfolding add_column
upgrade_0005 c =
    add_column "feeds" (column "etag" unbounded true) c
    >>= add_column "feeds" (column "last_modified" unbounded true)

unfoldable pub downgrade_0005 : Catalog → Option Catalog
unfolding drop_column
downgrade_0005 c = drop_column "feeds" "last_modified" c >>= drop_column "feeds" "etag"

-- `alembic upgrade head` from base, along `down_revision`
unfoldable pub upgrade_head : Catalog → Option Catalog
unfolding upgrade_0001 upgrade_0002 upgrade_0003 upgrade_0004 upgrade_0005
upgrade_head c = upgrade_0001 c >>= upgrade_0002 >>= upgrade_0003 >>= upgrade_0004 >>= upgrade_0005

-- `alembic downgrade base` from head
unfoldable pub downgrade_base : Catalog → Option Catalog
unfolding downgrade_0001 downgrade_0002 downgrade_0003 downgrade_0004 downgrade_0005
downgrade_base c =
    downgrade_0005 c >>= downgrade_0004 >>= downgrade_0003 >>= downgrade_0002 >>= downgrade_0001
