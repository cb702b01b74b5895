-- ===== src/Schema/Rows.antt =====
-- About models.py: the attributes of a row fit the columns that are declared for them.
use feedgate_fetcher.Prelude.{◌<◌, ◌^◌, ◌≡◌, refl, true, not, lt→ltb}
use feedgate_fetcher.Models.{Feed, Entry}
use feedgate_fetcher.Schema.Metadata.{feeds_table, entries_table}
use feedgate_fetcher.Schema.Values.{
  feed_values, entry_values, has_nul, is_storable, fits, Conforms, status_text-fits, text-Fits,
  instant-Fits, code-Fits,
}

-- The numbers of a row have 31 bits, and its texts no NUL character.
pub record IsStorableFeed (f : Feed) : Type 0 where
  pub id : f.id < 2 ^ 31
  pub consecutive_failures : f.consecutive_failures < 2 ^ 31
  pub url : not (has_nul f.url) ≡ true
  pub effective_url : not (has_nul f.effective_url) ≡ true
  pub title : is_storable f.title ≡ true
  pub etag : is_storable f.etag ≡ true
  pub last_modified : is_storable f.last_modified ≡ true

pub record IsStorableEntry (e : Entry) : Type 0 where
  pub id : e.id < 2 ^ 31
  pub feed_id : e.feed_id < 2 ^ 31
  pub guid : not (has_nul e.guid) ≡ true
  pub url : not (has_nul e.url) ≡ true
  pub title : is_storable e.title ≡ true
  pub content : is_storable e.content ≡ true
  pub author : is_storable e.author ≡ true

feed_values-Conforms : (f : Feed) → IsStorableFeed f → Conforms feeds_table.columns (feed_values f)
unfolding fits
feed_values-Conforms f h = (
  refl,
  lt→ltb f.id (2 ^ 31) h.id,
  (
    refl,
    h.url,
    (
      refl,
      h.effective_url,
      (
        refl,
        text-Fits "title" f.title h.title,
        (
          refl,
          status_text-fits f.status,
          (
            refl,
            instant-Fits "last_successful_fetch_at" f.last_successful_fetch_at,
            (
              refl,
              instant-Fits "last_attempt_at" f.last_attempt_at,
              (
                refl,
                code-Fits "last_error_code" f.last_error_code,
                (
                  refl,
                  refl,
                  (
                    refl,
                    refl,
                    (
                      refl,
                      lt→ltb f.consecutive_failures (2 ^ 31) h.consecutive_failures,
                      (
                        refl,
                        text-Fits "etag" f.etag h.etag,
                        (refl, text-Fits "last_modified" f.last_modified h.last_modified, tt),
                      ),
                    ),
                  ),
                ),
              ),
            ),
          ),
        ),
      ),
    ),
  ),
)

entry_values-Conforms :
    (e : Entry) → IsStorableEntry e → Conforms entries_table.columns (entry_values e)
unfolding fits
entry_values-Conforms e h = (
  refl,
  lt→ltb e.id (2 ^ 31) h.id,
  (
    refl,
    lt→ltb e.feed_id (2 ^ 31) h.feed_id,
    (
      refl,
      h.guid,
      (
        refl,
        h.url,
        (
          refl,
          text-Fits "title" e.title h.title,
          (
            refl,
            text-Fits "content" e.content h.content,
            (
              refl,
              text-Fits "author" e.author h.author,
              (refl, instant-Fits "published_at" e.published_at, (refl, refl, (refl, refl, tt))),
            ),
          ),
        ),
      ),
    ),
  ),
)

-- If the numbers of a feed and of an entry have at most 31 bits and their texts hold no NUL
-- character, then each of their attributes, the texts of status and error code included, fits the
-- column that is declared for it: it has the column's type and length, and is NULL only where the
-- column is nullable.
pub rows-Conform :
    (f : Feed) (e : Entry)
    → IsStorableFeed f
    → IsStorableEntry e
    → Conforms feeds_table.columns (feed_values f) × Conforms entries_table.columns (entry_values e)
rows-Conform f e hf he = (feed_values-Conforms f hf, entry_values-Conforms e he)
