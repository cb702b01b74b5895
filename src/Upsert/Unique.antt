-- ===== src/Upsert/Unique.antt =====
-- About the unique key and the primary key of the table `entries` under fetcher/upsert.py.
use feedgate_fetcher.Prelude.{
  ℕ, ◌+◌, ◌<◌, ◌≡◌, ◌≢◌, refl, none, List, [], ◌∷◌, arith, All, Bool-cases, inl, inr,
}
use feedgate_fetcher.Models.{Entry}
use feedgate_fetcher.Upsert.{
  ParsedEntry, Entries, has_key, new_row, upsert_entry, upsert_entries, find_entry,
}
use feedgate_fetcher.Upsert.Laws.{
  put_row, upsert_entry-put_row, find_entry-put_row, update_row_fixed,
}
use text.Mathlib.TextEquality.{eq_iff}

-- No two rows have the same (feed_id, guid).
abbrev pub UniqueKeys : List Entry → Type 0
UniqueKeys [] = Unit
UniqueKeys (row ∷ rows) = (find_entry row.feed_id row.guid rows ≡ none) × UniqueKeys rows

-- No two rows have the same id.
abbrev pub UniqueIds : List Entry → Type 0
UniqueIds [] = Unit
UniqueIds (row ∷ rows) = All (λ r. r.id ≢ row.id) rows × UniqueIds rows

pub record IsValidTable (t : Entries) : Type 0 where
  pub keys : UniqueKeys t.rows
  pub ids : UniqueIds t.rows
  -- the sequence is ahead of every id
  pub sequence : All (λ r. r.id < t.next_id) t.rows

module _ (id db_now f now : ℕ) (e : ParsedEntry) where
  put_row-All :
      (P : ℕ → Type 0) (rows : List Entry)
      → P id
      → All (λ r. P r.id) rows
      → All (λ r. P r.id) (put_row id db_now f now e rows)
  unfolding put_row new_row
  put_row-All P [] p h = (p, tt)
  put_row-All P (row ∷ rows) p h = elim (Bool-cases (has_key f e.guid row)) [
    | inl k ↦ rw k (rw (update_row_fixed db_now e row).0 h)
    | inr k ↦ rw k (h.0, put_row-All P rows p h.1)
  ]

  put_row-UniqueIds :
      (rows : List Entry)
      → All (λ r. r.id < id) rows
      → UniqueIds rows
      → UniqueIds (put_row id db_now f now e rows)
  unfolding put_row new_row
  put_row-UniqueIds [] b h = (tt, tt)
  put_row-UniqueIds (row ∷ rows) b h = elim (Bool-cases (has_key f e.guid row)) [
    | inl k ↦ rw k (rw (update_row_fixed db_now e row).0 h)
    | inr k ↦
        rw k (put_row-All (λ i. i ≢ row.id) rows (omega arith) h.0, put_row-UniqueIds rows b.1 h.1)
  ]

  put_row-UniqueKeys :
      (rows : List Entry) → UniqueKeys rows → UniqueKeys (put_row id db_now f now e rows)
  unfolding put_row find_entry
  put_row-UniqueKeys [] h = (refl, tt)
  put_row-UniqueKeys (row ∷ rows) h = elim (Bool-cases (has_key f e.guid row)) [
    | inl k ↦
        rw k (let (_, feed_id, guid, _) = update_row_fixed db_now e row in rw (feed_id, guid) h)
    | inr k ↦ rw k (
      rw (find_entry-put_row id db_now f now e rows row.feed_id row.guid)
          (ground (arith, eq_iff row.guid e.guid, eq_iff e.guid row.guid)),
      put_row-UniqueKeys rows h.1,
    )
  ]

All-id_suc : (n : ℕ) (rows : List Entry) → All (λ r. r.id < n) rows → All (λ r. r.id < n + 1) rows
All-id_suc n [] h = tt
All-id_suc n (row ∷ rows) h = (omega arith, All-id_suc n rows h.1)

upsert_entry-IsValidTable :
    (db_now f now : ℕ) (e : ParsedEntry) (t : Entries)
    → IsValidTable t
    → IsValidTable (upsert_entry db_now f now e t)
upsert_entry-IsValidTable db_now f now e t v = rw (upsert_entry-put_row db_now f now e t) (record {
  keys = put_row-UniqueKeys t.next_id db_now f now e t.rows v.keys;
  ids = put_row-UniqueIds t.next_id db_now f now e t.rows v.sequence v.ids;
  sequence =
      put_row-All t.next_id db_now f now e (λ i. i < t.next_id + 1) t.rows (omega arith)
        (All-id_suc t.next_id t.rows v.sequence);
})

-- Storing a batch keeps the table valid: no two rows have the same feed and guid, no two the same
-- id, and the sequence is ahead of every id.
pub upsert_entries-IsValidTable :
    (db_now f now : ℕ) (entries : List ParsedEntry) (t : Entries)
    → IsValidTable t
    → IsValidTable (upsert_entries db_now f now entries t)
unfolding upsert_entries
upsert_entries-IsValidTable db_now f now [] t v = v
upsert_entries-IsValidTable db_now f now (e ∷ entries) t v =
    upsert_entries-IsValidTable db_now f now entries (upsert_entry db_now f now e t)
      (upsert_entry-IsValidTable db_now f now e t v)
