-- ===== src/Api/Entries/Pages.antt =====
-- About `list_entries` of api/entries.py, page after page: the client that follows
-- `next_cursor`, and the rows that a cursor selects.
use feedgate_fetcher.Prelude.{
  ℕ, ◌<◌, String, Option, none, some, List, [], ◌++◌, ◌≡◌, refl, ap, ◌∙◌, sym, subst, take, drop,
  All, All-take, filter, get_last?, length, take-append-drop,
}
use feedgate_fetcher.Prelude.Every.{All-filter, All-suffix}
use feedgate_fetcher.Prelude.Sort.Laws.{
  IsSorted, sort-IsSorted, filter-sort, All-sort, All-get_last?,
}
use feedgate_fetcher.Prelude.Ints.{ℤ, pos}
use feedgate_fetcher.Models.{Entry}
use feedgate_fetcher.Api.Http.{respond}
use feedgate_fetcher.Api.Cursor.{Codec}
use feedgate_fetcher.Api.Cursor.Reading.{ReadsEntryCursor, decode_cursor-encode_cursor}
use feedgate_fetcher.Api.Keyset.{page_of}
use feedgate_fetcher.Api.Keyset.Order.{filter-after_page}
use feedgate_fetcher.Api.Keyset.Reading.{read_pages, read_pages-rest}
use feedgate_fetcher.Api.Entries.{
  write_cursor, EntryLimits, Cursor, listed_before, is_in_feeds, limit_of, feed_ids_of, cursor_of,
  select_rows, list_entries,
}
use feedgate_fetcher.Api.Entries.Order.{
  listed_before-IsTransitive, is_after-listed_before, filter-IsConnected,
  listed_before-IsAsymmetric,
}
use feedgate_fetcher.Upsert.Unique.{UniqueIds}
use mathlib.Core.Path.{fun_ext}
use mathlib.Core.List.{append_assoc}

module _ (ids : List ℤ) (table : List Entry) (u : UniqueIds table) where
  select_rows-IsSorted : IsSorted listed_before (select_rows ids none table)
  unfolding select_rows
  select_rows-IsSorted =
      sort-IsSorted listed_before listed_before-IsTransitive (filter (is_in_feeds ids) table)
        (filter-IsConnected (is_in_feeds ids) table u)

  select_rows-cursor :
      (x : Entry)
      → select_rows ids (some (x.published_at, pos x.id)) table
        ≡ filter (listed_before x) (select_rows ids none table)
  unfolding select_rows
  select_rows-cursor x = rw (fun_ext (is_after-listed_before x)) (
      sym (
        filter-sort listed_before listed_before-IsTransitive (listed_before x)
          (filter (is_in_feeds ids) table) (filter-IsConnected (is_in_feeds ids) table u)))

  -- What a page's cursor selects is the rest of the listing.
  pub select_rows-rest :
      (seen rest : List Entry) (m : ℕ) (x : Entry)
      → select_rows ids none table ≡ seen ++ rest
      → get_last? (take m rest) ≡ some x
      → select_rows ids (some (x.published_at, pos x.id)) table ≡ drop m rest
  select_rows-rest seen rest m x e last =
      select_rows-cursor x
      ∙ ap (filter (listed_before x)) e
      ∙ filter-after_page listed_before listed_before-IsAsymmetric seen rest m
          (subst (IsSorted listed_before) e select_rows-IsSorted) last

  -- What holds of every row holds of the last row of a page.
  pub select_rows-All {κ} :
      (P : Entry → Type κ) (seen rest : List Entry) (m : ℕ) (x : Entry)
      → All P table
      → select_rows ids none table ≡ seen ++ rest
      → get_last? (take m rest) ≡ some x
      → P x
  unfolding select_rows
  select_rows-All P seen rest m x h e last =
      All-get_last? listed_before P (take m rest)
        (All-take P m rest (
          All-suffix P seen rest (
            subst (All P) e (
              All-sort listed_before P (filter (is_in_feeds ids) table)
                (All-filter P (is_in_feeds ids) table h)))))
        last

module _ (codec : Codec) where
  cursor_of-write_cursor :
      (x : Entry)
      → ReadsEntryCursor codec x.published_at x.id
      → cursor_of codec (some (write_cursor codec x)) ≡ respond (some (x.published_at, pos x.id))
  unfolding cursor_of write_cursor
  cursor_of-write_cursor x h = rw (decode_cursor-encode_cursor codec x.published_at x.id h) refl

  module _ (c : EntryLimits) (table : List Entry) (feed_ids : String) (limit : ℕ)
      (ids : List ℤ) where
    list_entries-eq :
        (cursor : Option (List ℕ)) (cur : Option Cursor)
        → limit_of c (some limit) ≡ respond limit
        → feed_ids_of c feed_ids ≡ respond ids
        → cursor_of codec cursor ≡ respond cur
        → list_entries codec c table feed_ids cursor (some limit)
          ≡ respond (page_of (write_cursor codec) limit (select_rows ids cur table))
    unfolding list_entries
    list_entries-eq cursor cur l f k = rw (l, f, k) refl

    -- what is left to read at a cursor: the rows behind those that were read
    record LeavesRows (cursor : Option (List ℕ)) (rest : List Entry) : Type 0 where
      cur : Option Cursor
      seen : List Entry
      reads : cursor_of codec cursor ≡ respond cur
      splits : select_rows ids none table ≡ seen ++ rest
      selects : select_rows ids cur table ≡ rest

    module _ (u : UniqueIds table)
        (round : All (λ row. ReadsEntryCursor codec row.published_at row.id) table)
        (positive : 0 < limit) (l : limit_of c (some limit) ≡ respond limit)
        (f : feed_ids_of c feed_ids ≡ respond ids) where
      LeavesRows-moves :
          (cursor : Option (List ℕ)) (rest : List Entry) (x : Entry)
          → LeavesRows cursor rest
          → get_last? (take limit rest) ≡ some x
          → LeavesRows (some (write_cursor codec x)) (drop limit rest)
      LeavesRows-moves cursor rest x s last = record {
        cur = some (x.published_at, pos x.id);
        seen = s.seen ++ take limit rest;
        reads =
            cursor_of-write_cursor x
              (select_rows-All ids table u _ s.seen rest limit x round s.splits last);
        splits =
            s.splits
            ∙ ap (λ r. s.seen ++ r) (sym (take-append-drop limit rest))
            ∙ sym (append_assoc s.seen (take limit rest) (drop limit rest));
        selects = select_rows-rest ids table u s.seen rest limit x s.splits last;
      }

      -- A client that follows `next_cursor` from the first page to the last reads exactly the
      -- listing, every entry once and in order, for any positive limit: if the ids of the table
      -- are unique, JSON and ISO 8601 read back what was written for the table's entries, the
      -- limit and the feed ids are accepted, and the reader may ask for more pages than the
      -- listing has entries.
      pub read_pages_complete :
          (fuel : ℕ)
          → length (select_rows ids none table) < fuel
          → read_pages fuel (λ cursor. list_entries codec c table feed_ids cursor (some limit)) none
            ≡ some (select_rows ids none table)
      read_pages_complete fuel h =
          read_pages-rest (write_cursor codec) limit
            (λ cursor. list_entries codec c table feed_ids cursor (some limit)) LeavesRows positive
            (λ cursor rest s.
              list_entries-eq cursor s.cur l f s.reads
              ∙ ap (λ r. respond (page_of (write_cursor codec) limit r)) s.selects)
            LeavesRows-moves fuel none (select_rows ids none table)
            (record {
              cur = none;
              seen = [];
              reads = unfold cursor_of in refl;
              splits = refl;
              selects = refl;
            })
            h
