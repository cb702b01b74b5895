-- ===== src/Api/Entries.antt =====
-- api/entries.py: the listing of entries with keyset pagination. ORDER BY of Postgres puts NULL
-- first where it sorts downwards, and a comparison with NULL selects no row. A request names the
-- cursor by its text, as code points.
pub mod Pages
pub mod Order
use feedgate_fetcher.Prelude.{
  ℕ, zero, suc, ◌+◌, String, Option, none, some, List, [], ◌∷◌, Bool, true, false, ◌&&◌, ◌||◌, not,
  ltb, leb, ◌==◌, if◌then◌else◌, length, take, filter, any, get_last?,
}
use feedgate_fetcher.Prelude.Sort.{sort}
use feedgate_fetcher.Prelude.Texts.{codes, split}
use feedgate_fetcher.Prelude.Ints.{ℤ, pos, negsuc, int}
use feedgate_fetcher.Models.{Entry}
use mathlib.Core.Option
use feedgate_fetcher.Api.Keyset.{Page, page_of}
use feedgate_fetcher.Api.Cursor.{Codec, encode_cursor, decode_cursor}
use feedgate_fetcher.Api.Http.{Reply, respond, http_error, ◌>>=◌}

pub record EntryLimits : Type 0 where
  pub max_feed_ids : ℕ
  pub default_limit : ℕ
  pub max_limit : ℕ

-- what a cursor's text is read as
abbrev pub Cursor : Type 0
Cursor = Option ℕ × ℤ

-- published_at DESC, id DESC on the sort keys
abbrev pub key_before : Option ℕ → ℕ → Option ℕ → ℕ → Bool
key_before none i none j = ltb j i
key_before none i (some q) j = true
key_before (some p) i none j = false
key_before (some p) i (some q) j = ltb q p || ((p == q) && ltb j i)

-- ORDER BY: is the first row listed before the second?
unfoldable pub listed_before : Entry → Entry → Bool
listed_before a b = key_before a.published_at a.id b.published_at b.id

-- Entry.id < cur_id
abbrev pub below_id : ℕ → ℤ → Bool
below_id id (pos n) = ltb id n
below_id id (negsuc n) = false

-- the WHERE of a cursor
abbrev pub after_key : Cursor → Option ℕ → ℕ → Bool
after_key (none, cur_id) none id = below_id id cur_id
after_key (none, cur_id) (some p) id = true
after_key (some cur_pub, cur_id) none id = false
after_key (some cur_pub, cur_id) (some p) id =
    ltb p cur_pub || ((p == cur_pub) && below_id id cur_id)

unfoldable pub is_after : Cursor → Entry → Bool
is_after cursor row = after_key cursor row.published_at row.id

-- `[int(x) for x in parts if x]`; `none` is a ValueError
unfoldable pub int_list : List (List ℕ) → Option (List ℤ)
unfolding int
int_list [] = some []
int_list ([] ∷ parts) = int_list parts
int_list ((c ∷ x) ∷ parts) = elim (int (c ∷ x)) [
  | none ↦ none
  | some n ↦ Option.map (λ ns. n ∷ ns) (int_list parts)
]

abbrev pub is_id : ℕ → ℤ → Bool
is_id id (pos n) = n == id
is_id id (negsuc n) = false

-- Entry.feed_id.in_(feed_id_list)
unfoldable pub is_in_feeds : List ℤ → Entry → Bool
unfolding any
is_in_feeds feed_id_list row = any (is_id row.feed_id) feed_id_list

-- the checks on `limit`; the first is `Query(ge=1)`
unfoldable pub limit_of : EntryLimits → Option ℕ → Reply ℕ
limit_of c none =
    if ltb c.max_limit c.default_limit then http_error 422 else respond c.default_limit
limit_of c (some limit) =
    if ltb limit 1
    then http_error 422
    else if ltb c.max_limit limit
    then http_error 422
    else respond limit

unfoldable pub feed_ids_of : EntryLimits → String → Reply (List ℤ)
unfolding int_list split
feed_ids_of c feed_ids = elim (int_list (split b',' (codes feed_ids))) [
  | none ↦ http_error 400
  | some [] ↦ http_error 400
  | some (n ∷ ns) ↦
      if ltb c.max_feed_ids (length (n ∷ ns)) then http_error 400 else respond (n ∷ ns)
]

-- the query, without its LIMIT
unfoldable pub select_rows : List ℤ → Option Cursor → List Entry → List Entry
unfolding filter sort is_after is_in_feeds listed_before
select_rows feed_id_list none rows = sort listed_before (filter (is_in_feeds feed_id_list) rows)
select_rows feed_id_list (some cursor) rows =
    sort listed_before (filter (is_after cursor) (filter (is_in_feeds feed_id_list) rows))

module _ (codec : Codec) where
  unfoldable pub cursor_of : Option (List ℕ) → Reply (Option Cursor)
  unfolding decode_cursor
  cursor_of none = respond none
  cursor_of (some s) = decode_cursor codec s >>= λ cursor. respond (some cursor)

  unfoldable pub write_cursor : Entry → List ℕ
  unfolding encode_cursor
  write_cursor last = encode_cursor codec last.published_at last.id

  unfoldable pub list_entries :
      EntryLimits → List Entry → String → Option (List ℕ) → Option ℕ → Reply (Page Entry)
  unfolding page_of write_cursor
  list_entries c table feed_ids cursor limit = do
    limit_value ← limit_of c limit
    feed_id_list ← feed_ids_of c feed_ids
    cur ← cursor_of cursor
    respond (page_of write_cursor limit_value (select_rows feed_id_list cur table))
