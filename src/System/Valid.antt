-- ===== src/System/Valid.antt =====
-- About the keys of the tables when the parts of the service interleave.
use feedgate_fetcher.Prelude.{
  ℕ, ◌+◌, ◌≡◌, ◌⊎◌, take, refl, ap, min, none, some, Option, List, [], ◌∷◌, map, Bool, true, not,
  ◌==◌, any, filter, arith, Bool-cases, Option-cases, inl, inr, ltb, ◌*◌,
}
use feedgate_fetcher.Prelude.Time.{day, sub_delta}
use feedgate_fetcher.Prelude.Ints.{pos}
use feedgate_fetcher.Models.{Feed, Entry}
use feedgate_fetcher.Exceptions.{Exc, Result, ok, raise, Result-split, or_overflow}
use feedgate_fetcher.Ssrf.{Network}
use feedgate_fetcher.Url.{UrlRules}
use feedgate_fetcher.Upsert.{ParsedEntry, Entries, upsert_entries}
use feedgate_fetcher.Http.{Upstream, FetchConfig, FetchState, fetch_one}
use feedgate_fetcher.Http.Stored.{fetch_one-Stored}
use feedgate_fetcher.Scheduler.{ClaimConfig, lease, claim_due_feeds, find_feed}
use feedgate_fetcher.Scheduler.Claims.{claim_due_feeds-feeds, lease-id}
use feedgate_fetcher.Retention.{RetentionConfig, Swept, is_kept, delete_ids}
use feedgate_fetcher.Retention
use feedgate_fetcher.Api.Feeds.{Database}
use feedgate_fetcher.Api.Feeds.Unique.{has_feed}
use feedgate_fetcher.Api.Feeds.Tables.{IsValidDatabase, handlers-IsValidDatabase}
use feedgate_fetcher.System.Keys.{
  map-IsValidDatabase, update_one-keys, lease-url, upsert_entries-next_id,
  later_ids-IsValidDatabase, stored-IsValidDatabase, filter-IsValidDatabase,
}
use feedgate_fetcher.System.{
  System, Job, Event, waiting, fetching, create, delete, reactivate, claim, proceed, crash, sweep,
  update_one, update_changed, settle, end_job, session, load, proceed_job, claimed, swept, step,
  run, get_elem?,
}

-- a claim leases some of the rows
claimed-IsValidDatabase :
    (c : ClaimConfig) (now : ℕ) (locked : ℕ → Bool) (s : System)
    → IsValidDatabase s.db
    → IsValidDatabase (claimed now (claim_due_feeds c now locked (s.db).feeds) s).db
unfolding claimed
claimed-IsValidDatabase c now locked s v =
    elim (Result-split (claim_due_feeds c now locked (s.db).feeds)) [
      | inr (e, f) ↦ rw (f, claimed) v
      | inl ((ids, feeds), f) ↦
          let (sel, until, l) = claim_due_feeds-feeds c now locked (s.db).feeds ids feeds f in
          rw (f, claimed)
            (rw l (
              map-IsValidDatabase (lease until now sel) (lease-id until now sel)
                (lease-url until now sel) s.db v))
    ]

-- the feed of a session is there
find_feed-has :
    (id : ℕ) (feeds : List Feed) (row : Feed)
    → find_feed id feeds ≡ some row
    → has_feed feeds id ≡ true
unfolding find_feed any
find_feed-has id [] row e = cc
find_feed-has id (f ∷ feeds) row e = ground (arith, find_feed-has id feeds row)

settle-IsValidDatabase :
    (up : Upstream) (c : FetchConfig) (now : ℕ) (loaded : Feed) (db : Database)
    (r : Result (Unit {0}) × FetchState) (entries : List ParsedEntry)
    → r.1.table ≡ upsert_entries up.db_now loaded.id now entries db.table
    → has_feed db.feeds loaded.id ≡ true
    → IsValidDatabase db
    → IsValidDatabase (settle loaded r db)
unfolding settle update_changed
settle-IsValidDatabase up c now loaded db (ok u, s) entries e h v = rw e (
    map-IsValidDatabase (update_one loaded s.feed) (λ f. (update_one-keys loaded s.feed f).0)
      (λ f. (update_one-keys loaded s.feed f).1)
      (record db { table = upsert_entries up.db_now loaded.id now entries db.table })
      (stored-IsValidDatabase db up.db_now loaded.id now entries h v))
settle-IsValidDatabase up c now loaded db (raise x, s) entries e h v =
    later_ids-IsValidDatabase db s.table.next_id
      (rw e (upsert_entries-next_id up.db_now loaded.id now entries db.table)) v

end_job-IsValidDatabase :
    (up : Upstream) (c : FetchConfig) (now : ℕ) (hosts : List (List ℕ)) (loaded : Feed)
    (db : Database)
    → IsValidDatabase db
    → IsValidDatabase (end_job loaded (fetch_one up c now (session hosts loaded db)) db)
unfolding end_job
end_job-IsValidDatabase up c now hosts loaded db v =
    let r = fetch_one up c now (session hosts loaded db) in
    let st = fetch_one-Stored up c now (session hosts loaded db) in
    elim (Option-cases (find_feed loaded.id db.feeds)) [
      | inl e ↦
          let later = upsert_entries-next_id up.db_now loaded.id now st.entries db.table in
          rw (e, end_job)
            (later_ids-IsValidDatabase db (min ((db.table).next_id + 1) r.1.table.next_id)
              (omega (arith, later, ap (λ (t : Entries). t.next_id) st.stored)) v)
      | inr (row, e) ↦
          rw (e, end_job)
            (settle-IsValidDatabase up c now loaded db r st.entries st.stored
              (find_feed-has loaded.id db.feeds row e) v)
    ]

proceed_job-IsValidDatabase :
    (i : ℕ) (up : Upstream) (c : FetchConfig) (hosts : List (List ℕ)) (job : Option Job)
    (s : System)
    → IsValidDatabase s.db
    → IsValidDatabase (proceed_job i up c hosts job s).db
unfolding proceed_job load
proceed_job-IsValidDatabase i up c hosts none s v = v
proceed_job-IsValidDatabase i up c hosts (some (waiting feed_id now)) s v =
    elim (Option-cases (find_feed feed_id (s.db).feeds)) [
      | inl e ↦ rw (e, load) v
      | inr (row, e) ↦ rw (e, load) v
    ]
proceed_job-IsValidDatabase i up c hosts (some (fetching feed now)) s v =
    end_job-IsValidDatabase up c now hosts feed s.db v

-- what a tick of retention leaves of the table: all of it, or what some test leaves
tick_rows :
    (c : RetentionConfig) (now : ℕ) (trouble : Option Exc) (s : Swept)
    → ((Retention.tick_once c now trouble s).1.rows ≡ s.rows)
      ⊎ ((q : Entry → Bool) × ((Retention.tick_once c now trouble s).1.rows ≡ filter q s.rows))
unfolding Retention.tick_once Retention.sweep delete_ids
tick_rows c now trouble s =
    elim (Result-split (or_overflow (sub_delta now (c.retention_days * day)))) [
      | inr (e, f) ↦ inl (rw (f, Retention.tick_once) refl)
      | inl (cutoff, f) ↦ elim (Option-cases trouble) [
        | inr (e, g) ↦ inl (rw (f, Retention.tick_once) (rw g refl))
        | inl g ↦ inr (elim (Bool-cases (ltb 0 c.retention_batch_size)) [
          | inl e ↦
              let victims =
                filter (λ row. not (is_kept cutoff c.retention_min_per_feed s.rows row)) s.rows in
              let ids = map (λ (row : Entry). row.id) (take c.retention_batch_size victims) in
              (
                λ row. not (any (λ id. id == row.id) ids),
                rw (f, Retention.tick_once) (rw g (rw e refl)),
              )
          | inr e ↦ (
            is_kept cutoff c.retention_min_per_feed s.rows,
            rw (f, Retention.tick_once) (rw g (rw e refl)),
          )
        ])
      ]
    ]

swept-IsValidDatabase :
    (c : RetentionConfig) (now : ℕ) (trouble : Option Exc) (db : Database)
    → IsValidDatabase db
    → IsValidDatabase (swept c now trouble db)
unfolding swept
swept-IsValidDatabase c now trouble db v =
    elim (tick_rows c now trouble (record { rows = (db.table).rows; deleted_total = 0 })) [
      | inl e ↦ rw e v
      | inr (q, e) ↦ rw e (filter-IsValidDatabase q db v)
    ]

module _ (rules : UrlRules) (net : Network) where
  step-IsValidDatabase :
      (e : Event) (s : System) → IsValidDatabase s.db → IsValidDatabase (step rules net e s).db
  unfolding step
  step-IsValidDatabase (create payload_url now db_now) s v =
      (handlers-IsValidDatabase rules net payload_url (pos 0) now db_now s.db v).0
  step-IsValidDatabase (delete feed_id) s v =
      (handlers-IsValidDatabase rules net "" feed_id 0 0 s.db v).1
  step-IsValidDatabase (reactivate feed_id now) s v =
      (handlers-IsValidDatabase rules net "" feed_id now 0 s.db v).2
  step-IsValidDatabase (claim c now locked) s v = claimed-IsValidDatabase c now locked s v
  step-IsValidDatabase (proceed i up c hosts) s v =
      proceed_job-IsValidDatabase i up c hosts (get_elem? s.jobs i) s v
  step-IsValidDatabase (crash i) s v = v
  step-IsValidDatabase (sweep c now trouble) s v = swept-IsValidDatabase c now trouble s.db v

  -- Through any run of the service, whichever requests, claims, jobs and sweeps follow one another
  -- and wherever a worker crashes, the tables stay valid: the URLs and the ids of feeds are
  -- unique, every entry belongs to a feed that is there, no two entries have the same feed and
  -- guid or the same id, and both sequences are ahead of the ids.
  pub run-IsValidDatabase :
      (events : List Event) (s : System)
      → IsValidDatabase s.db
      → IsValidDatabase (run rules net events s).db
  unfolding run
  run-IsValidDatabase [] s v = v
  run-IsValidDatabase (e ∷ events) s v =
      run-IsValidDatabase events (step rules net e s) (step-IsValidDatabase e s v)
