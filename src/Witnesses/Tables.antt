-- ===== src/Witnesses/Tables.antt =====
-- The upsert and the sweep at concrete inputs.
use feedgate_fetcher.Prelude.{List, ◌≡◌, refl, some, [], ◌∷◌, arith}
use feedgate_fetcher.Models.{Entry}
use feedgate_fetcher.Upsert.{upsert_entry, upsert_entries, find_entry, update_row, is_unchanged}
use feedgate_fetcher.Upsert.Laws.{IsSameEntry, find_entry-upsert_entry, find_entry-upsert_entries}
use feedgate_fetcher.Upsert.Unique.{IsValidTable, UniqueIds}
use feedgate_fetcher.Upsert.Refetch.{upsert_entries_idem}
use feedgate_fetcher.Retention.{sweeps}
use feedgate_fetcher.Retention.Top.{IsSpared, sweeps-IsSpared}
use feedgate_fetcher.Witnesses.Data.{post, other_post, row, second_row, third_row, table}

-- the row that is updated keeps its id and the time it was first fetched
find_entry-upsert_entry_example :
    find_entry 1 "a" (upsert_entry 50 1 40 post table).rows
    ≡ some (record row {
      url = "http://blog/a";
      title = some "A";
      published_at = some 7;
      content_updated_at = 50;
    })
unfolding find_entry update_row is_unchanged
find_entry-upsert_entry_example = find_entry-upsert_entry 50 1 40 post table 1 "a"

stored : find_entry 1 "a" table.rows ≡ some row
unfolding find_entry
stored = refl

find_entry-upsert_entries_example :
    (row' : Entry) × (find_entry 1 "a" (upsert_entries 50 1 40 (post ∷ other_post ∷ []) table).rows
      ≡ some row')
    × IsSameEntry row row'
find_entry-upsert_entries_example =
    find_entry-upsert_entries 50 1 40 (post ∷ other_post ∷ []) table 1 "a" stored

table-IsValidTable : IsValidTable table
unfolding find_entry
table-IsValidTable = record { keys = (refl, tt); ids = (tt, tt); sequence = (omega arith, tt) }

upsert_entries_idem_example :
    (upsert_entries 90 1 80
      (post ∷ other_post ∷ [])
      (upsert_entries 50 1 40 (post ∷ other_post ∷ []) table)).rows
    ≡ (upsert_entries 50 1 40 (post ∷ other_post ∷ []) table).rows
upsert_entries_idem_example =
    upsert_entries_idem 1 50 40 90 80 (post ∷ other_post ∷ []) table ((refl, tt), (tt, tt))

-- the two newest of three rows of a feed, and rows older than the cutoff only
abbrev three_rows : List Entry
three_rows = row ∷ second_row ∷ third_row ∷ []

three_rows-UniqueIds : UniqueIds three_rows
three_rows-UniqueIds = (((λ e. cc), ((λ e. cc), tt)), (((λ e. cc), tt), (tt, tt)))

sweeps-IsSpared_example : IsSpared 2 three_rows (sweeps 2 ((10, 1) ∷ (20, 0) ∷ []) three_rows)
sweeps-IsSpared_example = sweeps-IsSpared 2 ((10, 1) ∷ (20, 0) ∷ []) three_rows three_rows-UniqueIds
