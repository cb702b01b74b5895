-- ===== src/System/Leases.antt =====
-- About the leases of fetcher/scheduler.py when the parts of the service interleave.
use feedgate_fetcher.Prelude.{
  ℕ, ◌+◌, ◌*◌, ◌<◌, ◌≤◌, ◌≡◌, refl, sym, ap, subst, none, some, String, Option, List, [], ◌∷◌, map,
  Bool, true, false, not, ◌&&◌, ◌==◌, ==_iff, any, ltb, leb, All, All-append, arith, Bool-cases,
  Option-cases, inl, inr, if◌then◌else◌,
}
use feedgate_fetcher.Prelude.Every.{All-implies, All-map, All-filter}
use feedgate_fetcher.Prelude.Ints.{ℤ, pos, negsuc}
use feedgate_fetcher.Prelude.Find.{find-holds}
use feedgate_fetcher.Prelude.Time.{second, day}
use feedgate_fetcher.Models.{Feed}
use feedgate_fetcher.Exceptions.{Result, ok, raise, Result-split}
use feedgate_fetcher.Ssrf.{Network}
use feedgate_fetcher.Url.{UrlRules}
use feedgate_fetcher.Http.{Upstream, FetchConfig, FetchState, fetch_one}
use feedgate_fetcher.Scheduler.{ClaimConfig, is_due, lease, select_due, claim_due_feeds, find_feed}
use feedgate_fetcher.Scheduler.Claims.{among, id_of, select_due-new, claim_due_feeds-Claim}
use feedgate_fetcher.Api.Http.{Reply-cases}
use feedgate_fetcher.Api.Entries.{is_id}
use feedgate_fetcher.Api.Feeds.{
  Database, new_feed, find_url, insert_feed, register, checked_url, create_feed, find_id,
  delete_feed, remove_feed, reactivated, update_feed, reactivate_feed,
}
use feedgate_fetcher.System.{
  System, Job, waiting, fetching, Event, create, delete, reactivate, claim, proceed, crash, sweep,
  write_changes, update_one, update_changed, settle, end_job, session, load, proceed_job, claimed,
  swept, step, run, get_elem?,
}

among-others :
    (id : ℕ) (ids : List ℕ) → All (λ x. among (id ∷ []) x ≡ false) ids → among ids id ≡ false
unfolding any
among-others id [] a = refl
among-others id (x ∷ ids) a = ground (arith, a.0, among-others id ids a.1)

-- The feed `id` was claimed at `since`, and its lease ends at `until`.
module _ (id since until : ℕ) where
  abbrev pub Leased : Feed → Type 0
  Leased f = (f.id == id) ≡ true → (until ≤ f.next_fetch_at) × (f.last_attempt_at ≡ some since)

  pub record IsLeased (db : Database) : Type 0 where
    pub rows : All Leased db.feeds
    -- a new feed is another one
    pub taken : id < db.next_feed_id

  -- Does the event leave the lease alone? The feed is not reactivated and its own job does not end;
  -- a claim comes before the lease ends, and not more than its probe interval after `since`.
  abbrev pub leaves_job : Option Job → Bool
  leaves_job none = true
  leaves_job (some (waiting feed_id now)) = true
  leaves_job (some (fetching feed now)) = not (feed.id == id)

  abbrev pub leaves_lease : Event → System → Bool
  leaves_lease (reactivate feed_id now) s = not (is_id id feed_id)
  leaves_lease (claim c now locked) s =
      ltb now until && leb now (since + c.dead_probe_interval_days * day)
  leaves_lease (proceed i up c hosts) s = leaves_job (get_elem? s.jobs i)
  leaves_lease (create payload_url now db_now) s = true
  leaves_lease (delete feed_id) s = true
  leaves_lease (crash i) s = true
  leaves_lease (sweep c now trouble) s = true

  -- a leased row is not due
  Leased-is_due :
      (now cutoff : ℕ) (f : Feed)
      → now < until
      → cutoff ≤ since
      → Leased f
      → is_due now cutoff f ≡ true
      → among (id ∷ []) f.id ≡ false
  unfolding is_due any
  Leased-is_due now cutoff f h k l e = elim (Bool-cases (f.id == id)) [
    | inl same ↦ let (late, last) = l same in ground (arith, late, last)
    | inr other ↦ ground (arith, other)
  ]

  lease-Leased :
      (t now : ℕ) (sel : List ℕ) (row : Feed)
      → among sel id ≡ false
      → Leased row
      → Leased (lease t now sel row)
  unfolding lease
  lease-Leased t now sel row free l = elim (Bool-cases (among sel row.id)) [
    | inl e ↦ rw (e, lease) (λ k. absurd (cc (e, free, ap (among sel) ((==_iff row.id id).0 k))))
    | inr e ↦ rw (e, lease) l
  ]

  -- a claim in time does not select the feed
  module _ (c : ClaimConfig) (now : ℕ) (locked : ℕ → Bool) where
    pub select_due-leased :
        (cutoff : ℕ) (feeds : List Feed)
        → now < until
        → cutoff ≤ since
        → All Leased feeds
        → among (map id_of (select_due c now locked cutoff feeds)) id ≡ false
    select_due-leased cutoff feeds h k l =
        among-others id (map id_of (select_due c now locked cutoff feeds)) (
          select_due-new c now locked cutoff (id ∷ []) feeds
            (All-implies (λ f. Leased-is_due now cutoff f h k) feeds l))

    claimed-IsLeased :
        (s : System)
        → now < until
        → now ≤ since + c.dead_probe_interval_days * day
        → IsLeased s.db
        → IsLeased (claimed now (claim_due_feeds c now locked (s.db).feeds) s).db
    unfolding claimed
    claimed-IsLeased s h k l = elim (Result-split (claim_due_feeds c now locked (s.db).feeds)) [
      | inr (e, f) ↦ rw (f, claimed) l
      | inl ((ids, feeds), f) ↦
          let p = claim_due_feeds-Claim c now locked (s.db).feeds ids feeds f in
          let sel = map id_of (select_due c now locked p.probe_cutoff (s.db).feeds) in
          let free =
            select_due-leased p.probe_cutoff (s.db).feeds h (omega (arith, p.cutoff, k)) l.rows in
          rw (f, claimed)
            (record {
              rows = subst (All Leased) (sym p.leased) (
                  All-map (lease (now + c.claim_ttl_seconds * second) now sel) Leased (s.db).feeds (
                    All-implies
                      (λ row. lease-Leased (now + c.claim_ttl_seconds * second) now sel row free)
                      (s.db).feeds l.rows));
              taken = l.taken;
            })
    ]

  insert_feed-IsLeased :
      (url : String) (now db_now : ℕ) (db : Database)
      → IsLeased db
      → IsLeased (insert_feed url now db_now db).1
  unfolding insert_feed
  insert_feed-IsLeased url now db_now db l = elim (Option-cases (find_url url db.feeds)) [
    | inl e ↦
        rw (insert_feed, e)
          (record {
            rows =
                All-append Leased db.feeds (new_feed db.next_feed_id url now db_now ∷ []) l.rows
                  (λ k. absurd (ground (arith, k, l.taken)), tt);
            taken = omega (arith, l.taken);
          })
    | inr (feed, e) ↦ rw (insert_feed, e) (record { rows = l.rows; taken = omega (arith, l.taken) })
  ]

  create_feed-IsLeased :
      (rules : UrlRules) (net : Network) (payload_url : String) (now db_now : ℕ) (db : Database)
      → IsLeased db
      → IsLeased (create_feed rules net payload_url now db_now db).1
  unfolding create_feed register
  create_feed-IsLeased rules net payload_url now db_now db l =
      elim (Reply-cases (checked_url rules net payload_url)) [
        | inl (status, e) ↦ rw (create_feed, e) l
        | inr (url, e) ↦ rw (create_feed, e) (insert_feed-IsLeased url now db_now db l)
      ]

  delete_feed-IsLeased :
      (feed_id : ℤ) (db : Database) → IsLeased db → IsLeased (delete_feed feed_id db).1
  unfolding delete_feed remove_feed
  delete_feed-IsLeased feed_id db l = elim (Option-cases (find_id feed_id db.feeds)) [
    | inl e ↦ rw (delete_feed, e) l
    | inr (feed, e) ↦
        rw (delete_feed, e)
          (record {
            rows = All-filter Leased (λ f. not (f.id == feed.id)) db.feeds l.rows;
            taken = l.taken;
          })
  ]

  -- an UPDATE of the rows of another feed
  update-Leased :
      (g : Feed → Feed) (other : ℕ) (feeds : List Feed)
      → ((f : Feed) → (f.id == other) ≡ true → ((g f).id == id) ≡ false)
      → All Leased feeds
      → All Leased (map (λ f. if f.id == other then g f else f) feeds)
  update-Leased g other [] n l = tt
  update-Leased g other (f ∷ feeds) n l = (
    elim (Bool-cases (f.id == other)) [
      | inl k ↦ rw k (λ same. absurd (cc (same, n f k)))
      | inr k ↦ rw k l.0
    ],
    update-Leased g other feeds n l.1,
  )

  named :
      (feed_id : ℤ) (feed : Feed)
      → not (is_id id feed_id) ≡ true
      → is_id feed.id feed_id ≡ true
      → (feed.id == id) ≡ false
  named (pos n) feed h k = ground (arith, h, k)
  named (negsuc n) feed h k = cc

  found-other :
      (feed_id : ℤ) (feed : Feed) (feeds : List Feed)
      → not (is_id id feed_id) ≡ true
      → find_id feed_id feeds ≡ some feed
      → (feed.id == id) ≡ false
  unfolding find_id
  found-other feed_id feed feeds n e =
      named feed_id feed n (find-holds (λ f. is_id f.id feed_id) feeds e)

  reactivate_feed-IsLeased :
      (feed_id : ℤ) (now : ℕ) (db : Database)
      → not (is_id id feed_id) ≡ true
      → IsLeased db
      → IsLeased (reactivate_feed feed_id now db).1
  unfolding reactivate_feed reactivated update_feed
  reactivate_feed-IsLeased feed_id now db n l = elim (Option-cases (find_id feed_id db.feeds)) [
    | inl e ↦ rw (reactivate_feed, e) l
    | inr (feed, e) ↦
        let other = found-other feed_id feed db.feeds n e in
        rw (reactivate_feed, e)
          (record {
            rows =
                update-Leased (λ f. (reactivated now feed).0) feed.id db.feeds (λ f k. other)
                  l.rows;
            taken = l.taken;
          })
  ]

  settle-IsLeased :
      (loaded : Feed) (r : Result (Unit {0}) × FetchState) (db : Database)
      → not (loaded.id == id) ≡ true
      → IsLeased db
      → IsLeased (settle loaded r db)
  unfolding settle update_changed update_one write_changes
  settle-IsLeased loaded (ok u, s) db n l = record {
    rows =
        update-Leased (write_changes loaded s.feed) loaded.id db.feeds (λ f k. ground (arith, k, n))
          l.rows;
    taken = l.taken;
  }
  settle-IsLeased loaded (raise x, s) db n l = record { rows = l.rows; taken = l.taken }

  -- the end of another feed's job
  end_job-IsLeased :
      (loaded : Feed) (r : Result (Unit {0}) × FetchState) (db : Database)
      → not (loaded.id == id) ≡ true
      → IsLeased db
      → IsLeased (end_job loaded r db)
  unfolding end_job
  end_job-IsLeased loaded r db n l = elim (Option-cases (find_feed loaded.id db.feeds)) [
    | inl e ↦ rw (e, end_job) (record { rows = l.rows; taken = l.taken })
    | inr (row, e) ↦ rw (e, end_job) (settle-IsLeased loaded r db n l)
  ]

  load-db : (i feed_id now : ℕ) (s : System) → (load i feed_id now s).db ≡ s.db
  unfolding load
  load-db i feed_id now s = elim (Option-cases (find_feed feed_id (s.db).feeds)) [
    | inl e ↦ rw (e, load) refl
    | inr (row, e) ↦ rw (e, load) refl
  ]

  proceed_job-IsLeased :
      (i : ℕ) (up : Upstream) (c : FetchConfig) (hosts : List (List ℕ)) (job : Option Job)
      (s : System)
      → leaves_job job ≡ true
      → IsLeased s.db
      → IsLeased (proceed_job i up c hosts job s).db
  unfolding proceed_job
  proceed_job-IsLeased i up c hosts none s q l = l
  proceed_job-IsLeased i up c hosts (some (waiting feed_id now)) s q l =
      subst IsLeased (sym (load-db i feed_id now s)) l
  proceed_job-IsLeased i up c hosts (some (fetching feed now)) s q l =
      end_job-IsLeased feed (fetch_one up c now (session hosts feed s.db)) s.db q l

  module _ (rules : UrlRules) (net : Network) where
    -- none of the events disturbs the lease
    abbrev pub LeavesLease : List Event → System → Type 0
    LeavesLease [] s = Unit
    LeavesLease (e ∷ events) s = (leaves_lease e s ≡ true) × LeavesLease events (step rules net e s)

    step-IsLeased :
        (e : Event) (s : System)
        → leaves_lease e s ≡ true
        → IsLeased s.db
        → IsLeased (step rules net e s).db
    unfolding step swept
    step-IsLeased (create payload_url now db_now) s q l =
        create_feed-IsLeased rules net payload_url now db_now s.db l
    step-IsLeased (delete feed_id) s q l = delete_feed-IsLeased feed_id s.db l
    step-IsLeased (reactivate feed_id now) s q l = reactivate_feed-IsLeased feed_id now s.db q l
    step-IsLeased (claim c now locked) s q l =
        claimed-IsLeased c now locked s (ground (arith, q)) (ground (arith, q)) l
    step-IsLeased (proceed i up c hosts) s q l =
        proceed_job-IsLeased i up c hosts (get_elem? s.jobs i) s q l
    step-IsLeased (crash i) s q l = l
    step-IsLeased (sweep c now trouble) s q l = record { rows = l.rows; taken = l.taken }

    pub run-IsLeased :
        (events : List Event) (s : System)
        → LeavesLease events s
        → IsLeased s.db
        → IsLeased (run rules net events s).db
    unfolding run
    run-IsLeased [] s q l = l
    run-IsLeased (e ∷ events) s q l =
        run-IsLeased events (step rules net e s) q.1 (step-IsLeased e s q.0 l)
