-- ===== src/System/Exclusive.antt =====
-- About two claims of fetcher/scheduler.py with anything but the feed's own events between them.
use feedgate_fetcher.Prelude.{
  ℕ, ◌+◌, ◌*◌, ◌<◌, ◌≤◌, ◌≡◌, refl, sym, ap, subst, List, [], ◌∷◌, map, Bool, true, false, ◌==◌,
  ==_iff, any, filter, All, arith, Bool-cases, inl, inr,
}
use feedgate_fetcher.Prelude.Every.{All-map, All-intro}
use feedgate_fetcher.Prelude.Time.{second, day}
use feedgate_fetcher.Models.{Feed}
use feedgate_fetcher.Exceptions.{ok}
use feedgate_fetcher.Ssrf.{Network}
use feedgate_fetcher.Url.{UrlRules}
use feedgate_fetcher.Scheduler.{ClaimConfig, lease, select_due, claim_due_feeds}
use feedgate_fetcher.Scheduler.Claims.{
  among, id_of, returned_ids, returned_ids-among, claim_due_feeds-Claim,
}
use feedgate_fetcher.Api.Feeds.Tables.{IsValidDatabase}
use feedgate_fetcher.System.{System, Event, claim, claimed, step, run}
use feedgate_fetcher.System.Leases.{Leased, IsLeased, LeavesLease, select_due-leased, run-IsLeased}

-- an id that a claim returns was selected, and is that of a feed
returned_ids-selected :
    (sel : List ℕ) (feeds : List Feed) (id : ℕ)
    → among (returned_ids sel feeds) id ≡ true
    → among sel id ≡ true
returned_ids-selected sel feeds id e = elim (Bool-cases (among sel id)) [
  | inl k ↦ k
  | inr k ↦ cc (e, returned_ids-among sel feeds id k)
]

returned_ids-lt :
    (sel : List ℕ) (feeds : List Feed) (id n : ℕ)
    → among (returned_ids sel feeds) id ≡ true
    → All (λ f. f.id < n) feeds
    → id < n
unfolding filter any
returned_ids-lt sel [] id n e b = cc
returned_ids-lt sel (f ∷ feeds) id n e b = elim (Bool-cases (among sel f.id)) [
  | inl k ↦ elim (Bool-cases (f.id == id)) [
    | inl same ↦ subst (λ x. x < n) ((==_iff f.id id).0 same) b.0
    | inr other ↦ returned_ids-lt sel feeds id n (rw other at (rw k at e)) b.1
  ]
  | inr k ↦ returned_ids-lt sel feeds id n (rw k at e) b.1
]

-- a row that a claim selects has its lease then
lease-Leased_self :
    (id until now : ℕ) (sel : List ℕ) (f : Feed)
    → among sel id ≡ true
    → Leased id now until (lease until now sel f)
unfolding lease
lease-Leased_self id until now sel f e = elim (Bool-cases (among sel f.id)) [
  | inl k ↦ rw (k, lease) (λ same. (omega arith, refl))
  | inr k ↦ rw (k, lease) (λ same. absurd (cc (e, k, ap (among sel) ((==_iff f.id id).0 same))))
]

module _ (c : ClaimConfig) (now : ℕ) (locked : ℕ → Bool) (id : ℕ) where
  claimed-IsLeased_self :
      (s : System) (ids : List ℕ) (feeds : List Feed)
      → IsValidDatabase s.db
      → claim_due_feeds c now locked (s.db).feeds ≡ ok (ids, feeds)
      → among ids id ≡ true
      → IsLeased id now
          (now + c.claim_ttl_seconds * second)
          (claimed now (claim_due_feeds c now locked (s.db).feeds) s).db
  unfolding claimed
  claimed-IsLeased_self s ids feeds v e a =
      let p = claim_due_feeds-Claim c now locked (s.db).feeds ids feeds e in
      let sel = map id_of (select_due c now locked p.probe_cutoff (s.db).feeds) in
      let until = now + c.claim_ttl_seconds * second in
      let returned = subst (λ l. among l id ≡ true) p.selected a in
      rw (e, claimed)
        (record {
          rows = subst (All (Leased id now until)) (sym p.leased) (
              All-map (lease until now sel) (Leased id now until) (s.db).feeds (
                All-intro
                  (λ f.
                    lease-Leased_self id until now sel f
                      (returned_ids-selected sel (s.db).feeds id returned))
                  (s.db).feeds));
          taken = returned_ids-lt sel (s.db).feeds id (s.db).next_feed_id returned v.sequence;
        })

  -- a claim in time does not return a leased feed
  claim_due_feeds-leased :
      (since until : ℕ) (s : System) (ids : List ℕ) (feeds : List Feed)
      → IsLeased id since until s.db
      → now < until
      → now ≤ since + c.dead_probe_interval_days * day
      → claim_due_feeds c now locked (s.db).feeds ≡ ok (ids, feeds)
      → among ids id ≡ false
  claim_due_feeds-leased since until s ids feeds l h k e =
      let p = claim_due_feeds-Claim c now locked (s.db).feeds ids feeds e in
      subst (λ x. among x id ≡ false) (sym p.selected)
        (returned_ids-among (map id_of (select_due c now locked p.probe_cutoff (s.db).feeds))
          (s.db).feeds id
          (select_due-leased id since until c now locked p.probe_cutoff (s.db).feeds h
            (omega (arith, p.cutoff, k)) l.rows))

module _ (rules : UrlRules) (net : Network) (c c' : ClaimConfig) (now now' : ℕ)
    (locked locked' : ℕ → Bool) (id : ℕ) where
  -- A feed that a claim returns is returned by no other claim before its lease has run out,
  -- whatever requests, claims, jobs, crashes and sweeps stand between the two, provided that the
  -- tables are valid, that the feed is not reactivated and no job that has loaded it ends in
  -- between, that every claim in between comes before the lease has run out, and that no claim
  -- comes more than its probe interval after the first.
  pub run-exclusive :
      (events : List Event) (s : System) (ids ids' : List ℕ) (feeds feeds' : List Feed)
      → IsValidDatabase s.db
      → claim_due_feeds c now locked (s.db).feeds ≡ ok (ids, feeds)
      → any (λ i. i == id) ids ≡ true
      → LeavesLease id now
          (now + c.claim_ttl_seconds * second)
          rules
          net
          events
          (step rules net (claim c now locked) s)
      → claim_due_feeds c' now' locked'
          (run rules net events (step rules net (claim c now locked) s)).db.feeds
        ≡ ok (ids', feeds')
      → now' < now + c.claim_ttl_seconds * second
      → now' ≤ now + c'.dead_probe_interval_days * day
      → any (λ i. i == id) ids' ≡ false
  unfolding step
  run-exclusive events s ids ids' feeds feeds' v e a q e' h k =
      let until = now + c.claim_ttl_seconds * second in
      let first = step rules net (claim c now locked) s in
      claim_due_feeds-leased c' now' locked' id now until (run rules net events first) ids' feeds'
        (run-IsLeased id now until rules net events first q
          (claimed-IsLeased_self c now locked id s ids feeds v e a))
        h k e'
