-- ===== src/Schema/Upgrades.antt =====
-- About the way from base to head of alembic/versions and back, on a database that may hold other
-- tables, as alembic's own.
use feedgate_fetcher.Prelude.{
  ◌≡◌, refl, ap, String, none, some, List, [], ◌∷◌, Bool, false, not, any, filter, All, Bool-cases,
  inl, inr,
}
use feedgate_fetcher.Schema.{Index, Catalog, refers_to, ◌>>=◌}
use feedgate_fetcher.Schema.Metadata.{index_on, feeds_table, entries_table, create_all}
use feedgate_fetcher.Schema.Migrations.{
  initial_feeds, initial_entries, next_fetch_at_active, upgrade_0001, upgrade_0002, upgrade_0003,
  upgrade_0004, upgrade_0005, upgrade_head, downgrade_0001, downgrade_0002, downgrade_0003,
  downgrade_0004, downgrade_0005, downgrade_base,
}
use mathlib.Core.List.{Perm, perm_middle}
use mathlib.Core.List.Perm
use text.Mathlib.Text.{◌==◌ as str_eq}

abbrev pub table_names : List String
table_names = "feeds" ∷ "entries" ∷ []

abbrev pub index_names : List String
index_names =
    "ix_feeds_status" ∷ "ix_feeds_next_fetch_at_active" ∷ "ix_feeds_due_not_dead"
    ∷ "ix_feeds_dead_last_attempt" ∷ "ix_entries_fetched_at" ∷ "ix_entries_feed_pub_id"
    ∷ "ix_entries_feed_fetched_id" ∷ []

-- The database holds nothing of the service: no table or index with one of its names, and none that
-- refers to one of its tables.
pub record IsClear (c : Catalog) : Type 0 where
  pub tables : All (λ name. any (λ t. str_eq t.name name) c.tables ≡ false) table_names
  pub references : All (λ name. any (refers_to name) c.tables ≡ false) table_names
  pub indices : All (λ name. any (λ i. str_eq i.name name) c.indices ≡ false) index_names
  pub owners : All (λ name. any (λ i. str_eq i.table name) c.indices ≡ false) table_names

-- the catalog after each revision
abbrev after_0001 : Catalog → Catalog
after_0001 c = record {
  tables = initial_entries ∷ initial_feeds ∷ c.tables;
  indices =
      index_on "entries" "ix_entries_feed_pub_id" ("feed_id" ∷ "published_at DESC" ∷ "id DESC" ∷ [])
        none
      ∷ index_on "entries" "ix_entries_fetched_at" ("fetched_at" ∷ []) none
      ∷ next_fetch_at_active
      ∷ index_on "feeds" "ix_feeds_status" ("status" ∷ []) none
      ∷ c.indices;
}

upgrade_0001_lem : (c : Catalog) → IsClear c → upgrade_0001 c ≡ some (after_0001 c)
unfolding upgrade_0001 any
upgrade_0001_lem c h = rw (h.tables).0 (
    rw (h.indices).0 (
      rw (h.indices).1.0
        (rw (h.tables).1.0 (rw (h.indices).1.1.1.1.0 (rw (h.indices).1.1.1.1.1.0 refl)))))

abbrev due_not_dead : Index
due_not_dead =
    index_on "feeds" "ix_feeds_due_not_dead" ("next_fetch_at" ∷ []) (some "status <> 'dead'")

abbrev dead_last_attempt : Index
dead_last_attempt =
    index_on "feeds" "ix_feeds_dead_last_attempt" ("last_attempt_at" ∷ []) (some "status = 'dead'")

abbrev feed_pub_id : Index
feed_pub_id =
    index_on "entries" "ix_entries_feed_pub_id" ("feed_id" ∷ "published_at DESC" ∷ "id DESC" ∷ [])
      none

abbrev feed_fetched_id : Index
feed_fetched_id =
    index_on "entries" "ix_entries_feed_fetched_id" ("feed_id" ∷ "fetched_at DESC" ∷ "id DESC" ∷ [])
      none

abbrev fetched_at : Index
fetched_at = index_on "entries" "ix_entries_fetched_at" ("fetched_at" ∷ []) none

abbrev feeds_status : Index
feeds_status = index_on "feeds" "ix_feeds_status" ("status" ∷ []) none

abbrev after_0002 : Catalog → Catalog
after_0002 c = record {
  tables = initial_entries ∷ initial_feeds ∷ c.tables;
  indices = dead_last_attempt ∷ due_not_dead ∷ feed_pub_id ∷ fetched_at ∷ feeds_status ∷ c.indices;
}

abbrev after_0003 : Catalog → Catalog
after_0003 c = record (after_0002 c) { indices = feed_fetched_id ∷ (after_0002 c).indices }

-- head
abbrev migrated : Catalog → Catalog
migrated c = record (after_0003 c) { tables = entries_table ∷ feeds_table ∷ c.tables }

upgrade_0002_lem : (c : Catalog) → IsClear c → upgrade_0002 (after_0001 c) ≡ some (after_0002 c)
unfolding upgrade_0002 any
upgrade_0002_lem c h = rw (h.indices).1.1.0 (rw (h.indices).1.1.1.0 refl)

upgrade_0003_lem : (c : Catalog) → IsClear c → upgrade_0003 (after_0002 c) ≡ some (after_0003 c)
unfolding upgrade_0003 any
upgrade_0003_lem c h = rw (h.indices).1.1.1.1.1.1.0 refl

-- the two columns go, and come back as the last ones
columns_lem : (c : Catalog) → (upgrade_0004 (after_0003 c) >>= upgrade_0005) ≡ some (migrated c)
unfolding upgrade_0004 upgrade_0005 any
columns_lem c = refl

upgrade_head-migrated : (c : Catalog) → IsClear c → upgrade_head c ≡ some (migrated c)
unfolding upgrade_head
upgrade_head-migrated c h =
    rw (upgrade_0001_lem c h)
      (rw (upgrade_0002_lem c h) (rw (upgrade_0003_lem c h) (columns_lem c)))

created : Catalog → Catalog
created c = record (migrated c) {
  indices =
      feed_fetched_id ∷ feed_pub_id ∷ fetched_at ∷ dead_last_attempt ∷ due_not_dead ∷ feeds_status
      ∷ c.indices;
}

create_all-created : (c : Catalog) → IsClear c → create_all c ≡ some (created c)
unfolding create_all created any
create_all-created c h = rw (h.tables).0 (
    rw (h.indices).0 (
      rw (h.indices).1.1.0 (
        rw (h.indices).1.1.1.0 (
          rw (h.tables).1.0 (
            rw (h.indices).1.1.1.1.0
              (rw (h.indices).1.1.1.1.1.0 (rw (h.indices).1.1.1.1.1.1.0 refl)))))))

two_past_two {ℓ} :
    {A : Type ℓ} (a b c d : A) (xs : List A) → Perm (a ∷ b ∷ c ∷ d ∷ xs) (c ∷ d ∷ a ∷ b ∷ xs)
two_past_two a b c d xs =
    Perm.trans (perm_middle (a ∷ b ∷ []) (d ∷ xs)) (Perm.cons c (perm_middle (a ∷ b ∷ []) xs))

same_indices : (c : Catalog) → Perm (migrated c).indices (created c).indices
unfolding created
same_indices c =
    Perm.cons feed_fetched_id (
      two_past_two dead_last_attempt due_not_dead feed_pub_id fetched_at (feeds_status ∷ c.indices))

-- On a database that holds nothing of the service, the migrations from base to head succeed, and
-- so does the creation of the tables that models.py declares. Both give the same tables, with the
-- same columns in the same order and the same constraints, and the same indices.
pub upgrade_head-create_all :
    (c : Catalog)
    → IsClear c
    → (m a : Catalog) × (upgrade_head c ≡ some m)
      × (create_all c ≡ some a)
      × (m.tables ≡ a.tables)
      × Perm m.indices a.indices
upgrade_head-create_all c h = (
  migrated c,
  created c,
  upgrade_head-migrated c h,
  create_all-created c h,
  unfold created in refl,
  unfold created in same_indices c,
)

filter_absent {ℓ} :
    {A : Type ℓ} (p : A → Bool) (xs : List A) → any p xs ≡ false → filter (λ x. not (p x)) xs ≡ xs
unfolding filter any
filter_absent p [] e = refl
filter_absent p (x ∷ xs) e = elim (Bool-cases (p x)) [
  | inl k ↦ cc (rw k at e)
  | inr k ↦ rw k (ap (◌∷◌ x) (filter_absent p xs (rw k at e)))
]

-- back past the last four revisions
abbrev back_to_0001 : Catalog → Catalog
back_to_0001 c = record {
  tables = entries_table ∷ feeds_table ∷ c.tables;
  indices = next_fetch_at_active ∷ feed_pub_id ∷ fetched_at ∷ feeds_status ∷ c.indices;
}

downgrade_0002_lem :
    (c : Catalog)
    → IsClear c
    → (downgrade_0005 (migrated c) >>= downgrade_0004 >>= downgrade_0003 >>= downgrade_0002)
      ≡ some (back_to_0001 c)
unfolding downgrade_0005 downgrade_0004 downgrade_0003 downgrade_0002 any
downgrade_0002_lem c h = rw (h.indices).1.0 refl

downgrade_0001_lem : (c : Catalog) → IsClear c → downgrade_0001 (back_to_0001 c) ≡ some c
unfolding downgrade_0001 any filter
downgrade_0001_lem c h = rw (h.references).1.0 (
    rw (filter_absent (λ i. str_eq i.table "entries") c.indices (h.owners).1.0) (
      rw (h.references).0
        (rw (filter_absent (λ i. str_eq i.table "feeds") c.indices (h.owners).0) refl)))

downgrade_base-migrated : (c : Catalog) → IsClear c → downgrade_base (migrated c) ≡ some c
unfolding downgrade_base
downgrade_base-migrated c h = rw (downgrade_0002_lem c h) (downgrade_0001_lem c h)

-- On a database that holds nothing of the service, the migrations to head and back to base succeed
-- and leave it as it was.
pub downgrade_base-upgrade_head :
    (c : Catalog) → IsClear c → (upgrade_head c >>= downgrade_base) ≡ some c
downgrade_base-upgrade_head c h = rw (upgrade_head-migrated c h) (downgrade_base-migrated c h)
