-- ===== src/Api/Keyset.antt =====
-- What `list_entries` of api/entries.py and `list_feeds` of api/feeds.py have in common: one row more
-- than the page is fetched, and the last row of a page that is not the last gives the cursor.
pub mod Order
pub mod Reading
use feedgate_fetcher.Prelude.{
  ℕ, ◌+◌, Option, none, List, Bool, ltb, if◌then◌else◌, length, take, get_last?,
}
use mathlib.Core.Option

pub record Page {ℓ} (Row : Type ℓ) : Type ℓ where
  pub items : List Row
  pub next_cursor : Option (List ℕ)

module _ {ℓ} {Row : Type ℓ} (write : Row → List ℕ) where
  -- `next_cursor`
  unfoldable pub cursor_after : Bool → List Row → Option (List ℕ)
  unfolding get_last?
  cursor_after has_more items = if has_more then Option.map write (get_last? items) else none

  unfoldable pub page_of : ℕ → List Row → Page Row
  unfolding take cursor_after
  page_of limit_value selected =
      let rows = take (limit_value + 1) selected in
      let items = take limit_value rows in
      record { items = items; next_cursor = cursor_after (ltb limit_value (length rows)) items }
