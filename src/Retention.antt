-- ===== src/Retention.antt =====
-- fetcher/retention.py: the sweep over the table of entries. The `LIMIT` of a batch has no ORDER BY;
-- here it takes the victims in the table's order.
pub mod Kept
pub mod Top
pub mod Settled
pub mod Loop
use feedgate_fetcher.Prelude.{
  ℕ, suc, ◌+◌, ◌*◌, Option, none, some, true, false, List, [], ◌∷◌, map, Bool, ◌&&◌, ◌||◌, not, ltb,
  leb, ◌==◌, if◌then◌else◌, any, filter, take, length, count,
}
use feedgate_fetcher.Prelude.Time.{day, sub_delta}
use feedgate_fetcher.Exceptions.{Result, ok, raise, Exc, or_overflow}
use feedgate_fetcher.Models.{Entry}
use feedgate_fetcher.Scheduler.{next_errors, wait_timeout}

-- ORDER BY fetched_at DESC, id DESC: is the first row ranked before the second?
unfoldable pub ranked_before : Entry → Entry → Bool
ranked_before r row =
    ltb row.fetched_at r.fetched_at || ((r.fetched_at == row.fetched_at) && ltb row.id r.id)

-- `row_number()` of a row in the partition of its feed
unfoldable pub row_number : List Entry → Entry → ℕ
unfolding ranked_before
row_number rows row = suc (count (λ r. (r.feed_id == row.feed_id) && ranked_before r row) rows)

-- the union of the time window and the top rows of each feed
unfoldable pub is_kept : ℕ → ℕ → List Entry → Entry → Bool
unfolding row_number
is_kept cutoff min_per_feed rows row =
    leb cutoff row.fetched_at || leb (row_number rows row) min_per_feed

-- DELETE ... WHERE id IN (...)
unfoldable pub delete_ids : List ℕ → List Entry → List Entry
unfolding filter any
delete_ids ids rows = filter (λ row. not (any (λ id. id == row.id) ids)) rows

-- the number of rows that are deleted, and the table after it
unfoldable pub sweep : ℕ → ℕ → ℕ → List Entry → ℕ × List Entry
unfolding is_kept delete_ids filter take
sweep cutoff min_per_feed batch_size rows =
    let victims = filter (λ row. not (is_kept cutoff min_per_feed rows row)) rows in
    if ltb 0 batch_size
    then (let victim_ids = map (λ row. row.id) (take batch_size victims) in
        (count (λ row. any (λ id. id == row.id) victim_ids) rows, delete_ids victim_ids rows))
    else (length victims, filter (is_kept cutoff min_per_feed rows) rows)

-- sweeps one after the other, each with its cutoff and its batch size
unfoldable pub sweeps : ℕ → List (ℕ × ℕ) → List Entry → List Entry
unfolding sweep
sweeps min_per_feed [] rows = rows
sweeps min_per_feed ((cutoff, batch_size) ∷ more) rows =
    sweeps min_per_feed more (sweep cutoff min_per_feed batch_size rows).1

-- what a tick reads of the settings
pub record RetentionConfig : Type 0 where
  pub retention_days : ℕ
  pub retention_min_per_feed : ℕ
  pub retention_batch_size : ℕ

-- the table, and the counter `feedgate_retention_deleted_total`
pub record Swept : Type 0 where
  pub rows : List Entry
  pub deleted_total : ℕ

-- A tick. The database may raise: `trouble` is that exception, and the session is rolled back.
unfoldable pub tick_once : RetentionConfig → ℕ → Option Exc → Swept → Result ℕ × Swept
unfolding sweep
tick_once c now trouble s = elim (or_overflow (sub_delta now (c.retention_days * day))) [
  | raise e ↦ (raise e, s)
  | ok cutoff ↦ elim trouble [
    | some e ↦ (raise e, s)
    | none ↦
        let n = sweep cutoff c.retention_min_per_feed c.retention_batch_size s.rows in
        (ok n.0, record { rows = n.1; deleted_total = s.deleted_total + n.0 })
  ]
]

abbrev pub has_raised {ℓ} : {A : Type ℓ} → Result A → Bool
has_raised (ok a) = false
has_raised (raise e) = true

-- The loop of `run` over its ticks, each at its time and with what the database does: the waits, and the
-- table in the end.
unfoldable pub run : RetentionConfig → ℕ → ℕ → List (ℕ × Option Exc) → Swept → List ℕ × Swept
unfolding tick_once next_errors wait_timeout
run c interval consecutive_errors [] s = ([], s)
run c interval consecutive_errors ((now, trouble) ∷ ticks) s =
    let t = tick_once c now trouble s in
    let n = next_errors (has_raised t.0) consecutive_errors in
    let rest = run c interval n ticks t.1 in (wait_timeout interval n ∷ rest.0, rest.1)
