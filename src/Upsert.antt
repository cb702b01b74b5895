-- ===== src/Upsert.antt =====
-- fetcher/upsert.py, over the table `entries` as a list of rows with the next value of its id
-- sequence. The database's own clock, `func.now()`, is the argument `db_now`. The sequence moves on
-- at every INSERT, also where the row conflicts, as it does in Postgres.
pub mod Laws
pub mod Refetch
pub mod Unique
use feedgate_fetcher.Prelude.{
  ℕ, suc, ◌+◌, String, Option, none, some, List, [], ◌∷◌, ◌++◌, Bool, true, false, ◌&&◌, ◌==◌,
  if◌then◌else◌,
}
use feedgate_fetcher.Models.{Entry}
use mathlib.Core.Option
use text.Mathlib.Text.{◌==◌ as str_eq}

pub record ParsedEntry : Type 0 where
  pub guid : String
  pub url : String
  pub title : Option String
  pub content : Option String
  pub author : Option String
  pub published_at : Option ℕ

pub record Entries : Type 0 where
  pub rows : List Entry
  pub next_id : ℕ

-- `not a.is_distinct_from(b)`: NULL equals NULL
abbrev pub same_text : Option String → Option String → Bool
same_text none none = true
same_text (some a) (some b) = str_eq a b
same_text _ _ = false

abbrev pub same_time : Option ℕ → Option ℕ → Bool
same_time none none = true
same_time (some a) (some b) = a == b
same_time _ _ = false

-- the unique key of the table
abbrev pub has_key : ℕ → String → Entry → Bool
has_key feed_id guid row = (row.feed_id == feed_id) && str_eq row.guid guid

unfoldable pub is_unchanged : ParsedEntry → Entry → Bool
is_unchanged e row =
    str_eq row.url e.url
    && same_text row.title e.title
    && same_text row.content e.content
    && same_text row.author e.author
    && same_time row.published_at e.published_at

-- the SET clause, behind its WHERE
unfoldable pub update_row : ℕ → ParsedEntry → Entry → Entry
unfolding is_unchanged
update_row db_now e row = if is_unchanged e row then row else record row {
  url = e.url;
  title = e.title;
  content = e.content;
  author = e.author;
  published_at = e.published_at;
  content_updated_at = db_now;
}

unfoldable pub new_row : ℕ → ℕ → ℕ → ParsedEntry → Entry
new_row id feed_id now e = record {
  id = id;
  feed_id = feed_id;
  guid = e.guid;
  url = e.url;
  title = e.title;
  content = e.content;
  author = e.author;
  published_at = e.published_at;
  fetched_at = now;
  content_updated_at = now;
}

-- the conflict branch: `none` where no row has the key
unfoldable pub update_conflict : ℕ → ℕ → ParsedEntry → List Entry → Option (List Entry)
unfolding update_row
update_conflict db_now feed_id e [] = none
update_conflict db_now feed_id e (row ∷ rows) =
    if has_key feed_id e.guid row
    then some (update_row db_now e row ∷ rows)
    else Option.map (λ rest. row ∷ rest) (update_conflict db_now feed_id e rows)

-- INSERT ... ON CONFLICT DO UPDATE of one entry
unfoldable pub upsert_entry : ℕ → ℕ → ℕ → ParsedEntry → Entries → Entries
unfolding update_conflict new_row
upsert_entry db_now feed_id now e t = elim (update_conflict db_now feed_id e t.rows) [
  | some rows ↦ record { rows = rows; next_id = t.next_id + 1 }
  | none ↦ record { rows = t.rows ++ new_row t.next_id feed_id now e ∷ []; next_id = t.next_id + 1 }
]

-- the loop; with no entries it does nothing, as the early return says
unfoldable pub upsert_entries : ℕ → ℕ → ℕ → List ParsedEntry → Entries → Entries
unfolding upsert_entry
upsert_entries db_now feed_id now [] t = t
upsert_entries db_now feed_id now (e ∷ entries) t =
    upsert_entries db_now feed_id now entries (upsert_entry db_now feed_id now e t)

-- SELECT by the unique key
unfoldable pub find_entry : ℕ → String → List Entry → Option Entry
find_entry feed_id guid [] = none
find_entry feed_id guid (row ∷ rows) =
    if has_key feed_id guid row then some row else find_entry feed_id guid rows
