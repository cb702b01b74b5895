-- ===== src/Witnesses/Listing.antt =====
-- The pages of the listing of a small table, one entry at a time.
use feedgate_fetcher.Prelude.{
  ℕ, ◌<◌, ◌≡◌, refl, none, some, List, [], ◌∷◌, length, All, if◌then◌else◌, arith,
}
use feedgate_fetcher.Prelude.Ints.{pos, decimal, nonneg_int}
use feedgate_fetcher.Prelude.Texts.{codes, codes_eq}
use feedgate_fetcher.Api.Cursor.{
  Codec, Json, null, decode_cursor, encode_cursor, decode_feed_cursor, load_payload, integer,
  object, field, end, Attempt, done, refused, entry_payload,
}
use feedgate_fetcher.Api.Cursor.Reading.{
  ReadsEntryCursor, published_json, decode_cursor-encode_cursor, decode_cursor-not_object,
}
use feedgate_fetcher.Models.{Entry}
use feedgate_fetcher.Upsert.Unique.{UniqueIds}
use feedgate_fetcher.Config.{default_settings}
use feedgate_fetcher.Config.Wiring.{entry_limits}
use feedgate_fetcher.Api.Http.{respond, http_error}
use feedgate_fetcher.Api.Entries.{EntryLimits, limit_of, feed_ids_of, select_rows, list_entries}
use feedgate_fetcher.Api.Keyset.Reading.{read_pages}
use feedgate_fetcher.Api.Entries.Pages.{read_pages_complete}
use feedgate_fetcher.Witnesses.Data.{row, second_row, third_row}

abbrev limits : EntryLimits
limits = entry_limits (default_settings "1")

abbrev rows : List Entry
rows = row ∷ second_row ∷ third_row ∷ []

rows-UniqueIds : UniqueIds rows
rows-UniqueIds = (((λ e. cc), ((λ e. cc), tt)), (((λ e. cc), tt), (tt, tt)))

-- Decimal instants, and the JSON texts of the cursors of these rows.
abbrev with_instants : Codec
with_instants = record { loads = λ raw. refused; isoformat = decimal; fromisoformat = nonneg_int }

abbrev payload : Entry → Json
payload e = object (
    field (codes "p") (published_json with_instants e.published_at)
      (field (codes "i") (integer (pos e.id)) end))

loads_of : List Entry → List ℕ → Attempt Json
unfolding entry_payload
loads_of [] raw = refused
loads_of (e ∷ es) raw =
    let rest = loads_of es raw in
    if codes_eq raw (entry_payload with_instants e.published_at e.id)
    then done (payload e)
    else rest

abbrev codec : Codec
codec = record with_instants { loads = loads_of rows }

rows-ReadsEntryCursor : All (λ e. ReadsEntryCursor codec e.published_at e.id) rows
unfolding entry_payload loads_of nonneg_int
rows-ReadsEntryCursor = (
  record { instant = (refl, (omega arith, tt), λ e. cc); loads = refl },
  (
    record { instant = (refl, (omega arith, tt), λ e. cc); loads = refl },
    (record { instant = (refl, (omega arith, tt), λ e. cc); loads = refl }, tt),
  ),
)

limit_is_one : limit_of limits (some 1) ≡ respond 1
unfolding limit_of
limit_is_one = refl

one_feed : feed_ids_of limits "1" ≡ respond (pos 1 ∷ [])
unfolding feed_ids_of
one_feed = refl

three_rows : length (select_rows (pos 1 ∷ []) none rows) < 5
unfolding select_rows
three_rows = omega arith

-- the latest first
read_pages_complete_example :
    read_pages 5 (λ cursor. list_entries codec limits rows "1" cursor (some 1)) none
    ≡ some (second_row ∷ third_row ∷ row ∷ [])
unfolding select_rows
read_pages_complete_example =
    read_pages_complete codec limits rows "1" 1 (pos 1 ∷ []) rows-UniqueIds rows-ReadsEntryCursor
      (omega arith) limit_is_one one_feed 5 three_rows

decode_cursor-encode_cursor_example :
    decode_cursor codec (encode_cursor codec (some 5) 1) ≡ respond (some 5, pos 1)
decode_cursor-encode_cursor_example =
    decode_cursor-encode_cursor codec (some 5) 1 rows-ReadsEntryCursor.0

-- `bnVsbA`, the JSON text `null`
abbrev null_cursor : List ℕ
null_cursor = codes "bnVsbA"

abbrev null_codec : Codec
null_codec = record with_instants { loads = λ raw. done null }

decode_cursor-not_object_example :
    (decode_cursor null_codec null_cursor ≡ http_error 500)
    × (decode_feed_cursor null_codec null_cursor ≡ http_error 400)
decode_cursor-not_object_example =
    decode_cursor-not_object null_codec null_cursor null (unfold load_payload in refl) refl

abbrev one_feed_codec : Codec
one_feed_codec = record with_instants {
  loads = λ raw. done (object (field (codes "i") (integer (pos 7)) end));
}
