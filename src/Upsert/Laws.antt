-- ===== src/Upsert/Laws.antt =====
-- About fetcher/upsert.py: the table read as a map from (feed_id, guid) to rows.
use feedgate_fetcher.Prelude.{
  ℕ, ◌+◌, String, ◌≡◌, refl, Option, none, some, List, [], ◌∷◌, ◌++◌, Bool, ◌&&◌, ◌==◌,
  if◌then◌else◌, arith, Bool-cases, inl, inr,
}
use feedgate_fetcher.Models.{Entry}
use feedgate_fetcher.Upsert.{
  ParsedEntry, Entries, has_key, update_row, new_row, update_conflict, upsert_entry, upsert_entries,
  find_entry,
}
use text.Mathlib.Text.{◌==◌ as str_eq}
use text.Mathlib.TextEquality.{eq_iff}

-- The row that an upsert leaves at its own key.
abbrev pub upserted : ℕ → ℕ → ℕ → ℕ → ParsedEntry → Option Entry → Entry
upserted id db_now feed_id now e none = new_row id feed_id now e
upserted id db_now feed_id now e (some row) = update_row db_now e row

-- whether two keys are one
abbrev pub same_key : ℕ → String → ℕ → String → Bool
same_key f g f' g' = (f == f') && str_eq g g'

update_row-key :
    (db_now : ℕ) (e : ParsedEntry) (row : Entry)
    → (f : ℕ) (g : String) → has_key f g (update_row db_now e row) ≡ has_key f g row
unfolding update_row
update_row-key db_now e row f g = ground arith

-- The same change in one pass over the rows.
unfoldable pub put_row : ℕ → ℕ → ℕ → ℕ → ParsedEntry → List Entry → List Entry
put_row id db_now f now e [] = new_row id f now e ∷ []
put_row id db_now f now e (row ∷ rows) =
    if has_key f e.guid row
    then update_row db_now e row ∷ rows
    else row ∷ put_row id db_now f now e rows

abbrev rows_or : Option (List Entry) → List Entry → List Entry
rows_or none other = other
rows_or (some rows) other = rows

update_conflict-put_row :
    (id db_now f now : ℕ) (e : ParsedEntry) (rows : List Entry)
    → rows_or (update_conflict db_now f e rows) (rows ++ new_row id f now e ∷ [])
      ≡ put_row id db_now f now e rows
unfolding update_conflict put_row
update_conflict-put_row id db_now f now e [] = refl
update_conflict-put_row id db_now f now e (row ∷ rows) =
    ground (arith, update_conflict-put_row id db_now f now e rows)

pub upsert_entry-put_row :
    (db_now f now : ℕ) (e : ParsedEntry) (t : Entries)
    → upsert_entry db_now f now e t
      ≡ record { rows = put_row t.next_id db_now f now e t.rows; next_id = t.next_id + 1 }
unfolding upsert_entry
upsert_entry-put_row db_now f now e t =
    ground (arith, update_conflict-put_row t.next_id db_now f now e t.rows)

pub find_entry-put_row :
    (id db_now f now : ℕ) (e : ParsedEntry) (rows : List Entry) (f' : ℕ) (g' : String)
    → find_entry f' g' (put_row id db_now f now e rows) ≡ (
        if same_key f e.guid f' g'
        then some (upserted id db_now f now e (find_entry f e.guid rows))
        else find_entry f' g' rows)
unfolding put_row find_entry new_row update_row
find_entry-put_row id db_now f now e [] f' g' = ground (arith, eq_iff e.guid g')
find_entry-put_row id db_now f now e (row ∷ rows) f' g' = ground (
  arith,
  eq_iff e.guid g',
  eq_iff row.guid e.guid,
  eq_iff row.guid g',
  find_entry-put_row id db_now f now e rows f' g',
)

-- Read through its unique key, an upsert is a write to a map at the entry's key: there is then the
-- old row as the conflict clause updates it, or a new row with the next id; the row at every other
-- key is unchanged.
pub find_entry-upsert_entry :
    (db_now f now : ℕ) (e : ParsedEntry) (t : Entries) (f' : ℕ) (g' : String)
    → find_entry f' g' (upsert_entry db_now f now e t).rows ≡ (
        if same_key f e.guid f' g'
        then some (upserted t.next_id db_now f now e (find_entry f e.guid t.rows))
        else find_entry f' g' t.rows)
find_entry-upsert_entry db_now f now e t f' g' =
    rw (upsert_entry-put_row db_now f now e t)
      (find_entry-put_row t.next_id db_now f now e t.rows f' g')

pub update_row_fixed :
    (db_now : ℕ) (e : ParsedEntry) (row : Entry)
    → ((update_row db_now e row).id ≡ row.id)
      × ((update_row db_now e row).feed_id ≡ row.feed_id)
      × ((update_row db_now e row).guid ≡ row.guid)
      × ((update_row db_now e row).fetched_at ≡ row.fetched_at)
unfolding update_row
update_row_fixed db_now e row = ground arith

-- What later upserts, of any batch, leave as it is.
pub record IsSameEntry (row row' : Entry) : Type 0 where
  pub id : row'.id ≡ row.id
  pub feed_id : row'.feed_id ≡ row.feed_id
  pub guid : row'.guid ≡ row.guid
  pub fetched_at : row'.fetched_at ≡ row.fetched_at

find_entry-upsert_entry_kept :
    (db_now f now : ℕ) (e : ParsedEntry) (t : Entries) (f' : ℕ) (g' : String) (row : Entry)
    → find_entry f' g' t.rows ≡ some row
    → (row' : Entry) × (find_entry f' g' (upsert_entry db_now f now e t).rows ≡ some row')
      × IsSameEntry row row'
find_entry-upsert_entry_kept db_now f now e t f' g' row h =
    elim (Bool-cases (same_key f e.guid f' g')) [
      | inl k ↦ (
        update_row db_now e row,
        rw (find_entry-upsert_entry, k) (ground (arith, eq_iff e.guid g')),
        ground (arith, update_row_fixed db_now e row),
      )
      | inr k ↦ (row, rw (find_entry-upsert_entry, k) h, ground arith)
    ]

-- A stored entry is still there after any batch, with its id, its key and its `fetched_at`, the
-- clock of retention.
pub find_entry-upsert_entries :
    (db_now f now : ℕ) (entries : List ParsedEntry) (t : Entries) (f' : ℕ) (g' : String)
    {row : Entry}
    → find_entry f' g' t.rows ≡ some row
    → (row' : Entry) × (find_entry f' g' (upsert_entries db_now f now entries t).rows ≡ some row')
      × IsSameEntry row row'
unfolding upsert_entries
find_entry-upsert_entries db_now f now [] t f' g' {row} h = (row, h, ground arith)
find_entry-upsert_entries db_now f now (e ∷ entries) t f' g' {row} h =
    let (mid, found, same) = find_entry-upsert_entry_kept db_now f now e t f' g' row h in
    let (last, found', same') =
      find_entry-upsert_entries db_now f now entries (upsert_entry db_now f now e t) f' g' found in
    (last, found', ground arith)
