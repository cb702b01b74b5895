-- ===== src/Upsert/Refetch.antt =====
-- About fetcher/upsert.py: the same entries stored a second time.
use feedgate_fetcher.Prelude.{
  ℕ, String, ◌≡◌, refl, ap, ◌∙◌, Option, none, some, List, [], ◌∷◌, Bool, true, false, All, arith,
  Bool-cases, ==_iff, inl, inr,
}
use feedgate_fetcher.Models.{Entry}
use feedgate_fetcher.Upsert.{
  ParsedEntry, Entries, has_key, same_text, same_time, is_unchanged, new_row, update_row,
  upsert_entry, upsert_entries, find_entry,
}
use feedgate_fetcher.Upsert.Laws.{put_row, upserted, upsert_entry-put_row, find_entry-upsert_entry}
use text.Mathlib.Text.{◌==◌ as str_eq}
use text.Mathlib.TextPositions.{eq_refl}

-- The stored row, if there is one, says what the entry says.
abbrev settles : ParsedEntry → Option Entry → Bool
settles e none = false
settles e (some row) = is_unchanged e row

abbrev IsSettled : ℕ → List Entry → ParsedEntry → Type 0
IsSettled f rows e = settles e (find_entry f e.guid rows) ≡ true

abbrev pub DistinctGuids : List ParsedEntry → Type 0
DistinctGuids [] = Unit
DistinctGuids (e ∷ es) = All (λ e'. str_eq e'.guid e.guid ≡ false) es × DistinctGuids es

update_row-eq :
    (db_now : ℕ) (e : ParsedEntry) (row : Entry)
    → is_unchanged e row ≡ true
    → update_row db_now e row ≡ row
unfolding update_row
update_row-eq db_now e row h = rw h refl

put_row-eq :
    (id db_now f now : ℕ) (e : ParsedEntry) (rows : List Entry)
    → IsSettled f rows e
    → put_row id db_now f now e rows ≡ rows
unfolding put_row find_entry
put_row-eq id db_now f now e [] h = cc
put_row-eq id db_now f now e (row ∷ rows) h = elim (Bool-cases (has_key f e.guid row)) [
  | inl k ↦ rw k (ap (λ r. r ∷ rows) (update_row-eq db_now e row (rw k at h)))
  | inr k ↦ rw k (ap (λ rs. row ∷ rs) (put_row-eq id db_now f now e rows (rw k at h)))
]

same_text_refl : (a : Option String) → same_text a a ≡ true
same_text_refl none = refl
same_text_refl (some s) = rw eq_refl

same_time_refl : (a : Option ℕ) → same_time a a ≡ true
same_time_refl a = ground arith

is_unchanged-new_row : (id f now : ℕ) (e : ParsedEntry) → is_unchanged e (new_row id f now e) ≡ true
unfolding is_unchanged new_row
is_unchanged-new_row id f now e = simp (eq_refl, same_text_refl, same_time_refl)

is_unchanged-update_row :
    (db_now : ℕ) (e : ParsedEntry) (row : Entry) → is_unchanged e (update_row db_now e row) ≡ true
unfolding update_row
is_unchanged-update_row db_now e row = elim (Bool-cases (is_unchanged e row)) [
  | inl k ↦ rw k k
  | inr k ↦ rw k (unfold is_unchanged in simp (eq_refl, same_text_refl, same_time_refl))
]

settles-upserted :
    (id db_now f now : ℕ) (e : ParsedEntry) (old : Option Entry)
    → settles e (some (upserted id db_now f now e old)) ≡ true
settles-upserted id db_now f now e none = is_unchanged-new_row id f now e
settles-upserted id db_now f now e (some row) = is_unchanged-update_row db_now e row

module _ (db_now f now : ℕ) where
  upsert_entry-IsSettled_self :
      (e : ParsedEntry) (t : Entries) → IsSettled f (upsert_entry db_now f now e t).rows e
  upsert_entry-IsSettled_self e t =
      rw (find_entry-upsert_entry db_now f now e t f e.guid, eq_refl, (==_iff f f).1 refl)
        (settles-upserted t.next_id db_now f now e (find_entry f e.guid t.rows))

  upsert_entries-IsSettled :
      (entries : List ParsedEntry) (t : Entries) (e : ParsedEntry)
      → All (λ e'. str_eq e'.guid e.guid ≡ false) entries
      → IsSettled f t.rows e
      → IsSettled f (upsert_entries db_now f now entries t).rows e
  unfolding upsert_entries
  upsert_entries-IsSettled [] t e d h = h
  upsert_entries-IsSettled (e' ∷ entries) t e d h =
      upsert_entries-IsSettled entries (upsert_entry db_now f now e' t) e d.1
        (rw (find_entry-upsert_entry db_now f now e' t f e.guid, d.0, (==_iff f f).1 refl) h)

  upsert_entries-All-IsSettled :
      (entries : List ParsedEntry) (t : Entries)
      → DistinctGuids entries
      → All (IsSettled f (upsert_entries db_now f now entries t).rows) entries
  unfolding upsert_entries
  upsert_entries-All-IsSettled [] t d = tt
  upsert_entries-All-IsSettled (e ∷ entries) t d = (
    upsert_entries-IsSettled entries (upsert_entry db_now f now e t) e d.0
        (upsert_entry-IsSettled_self e t),
    upsert_entries-All-IsSettled entries (upsert_entry db_now f now e t) d.1,
  )

  rows-upsert_entry :
      (e : ParsedEntry) (t : Entries)
      → IsSettled f t.rows e
      → (upsert_entry db_now f now e t).rows ≡ t.rows
  rows-upsert_entry e t h =
      rw (upsert_entry-put_row db_now f now e t) (put_row-eq t.next_id db_now f now e t.rows h)

  rows-upsert_entries :
      (entries : List ParsedEntry) (t : Entries)
      → All (IsSettled f t.rows) entries
      → (upsert_entries db_now f now entries t).rows ≡ t.rows
  unfolding upsert_entries
  rows-upsert_entries [] t h = refl
  rows-upsert_entries (e ∷ entries) t h =
      let same = rows-upsert_entry e t h.0 in
      rows-upsert_entries entries (upsert_entry db_now f now e t) (rw same h.1) ∙ same

-- Storing the same batch of entries a second time, at any times of the two clocks, changes no row,
-- provided that no two entries of the batch share a guid.
pub upsert_entries_idem :
    (f db_now now db_now' now' : ℕ) (entries : List ParsedEntry) (t : Entries)
    → DistinctGuids entries
    → (upsert_entries db_now' f now' entries (upsert_entries db_now f now entries t)).rows
      ≡ (upsert_entries db_now f now entries t).rows
upsert_entries_idem f db_now now db_now' now' entries t d =
    rows-upsert_entries db_now' f now' entries (upsert_entries db_now f now entries t)
      (upsert_entries-All-IsSettled db_now f now entries t d)
