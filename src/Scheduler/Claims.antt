-- ===== src/Scheduler/Claims.antt =====
-- About `_claim_due_feeds` of fetcher/scheduler.py: what a claim has computed, and two claims in
-- a row.
pub mod Size
use feedgate_fetcher.Prelude.{
  ℕ, ◌+◌, ◌*◌, ◌≤◌, ◌<◌, ◌≡◌, ◌∙◌, refl, sym, subst, some, List, [], ◌∷◌, map, Bool, true, false,
  ◌&&◌, not, ◌==◌, any, filter, All, All-take, arith, Bool-cases, Option-cases, inl, inr,
}
use feedgate_fetcher.Prelude.Sort.{sort}
use feedgate_fetcher.Prelude.Every.{
  All-filter, All-holds, All-implies, All-both, All-map, All-intro,
}
use feedgate_fetcher.Prelude.Sort.Laws.{All-sort}
use feedgate_fetcher.Prelude.Time.{
  second, day, add_delta, sub_delta, sub_delta-back, add_delta-late,
}
use feedgate_fetcher.Models.{Feed}
use feedgate_fetcher.Exceptions.{ok}
use feedgate_fetcher.Scheduler.{ClaimConfig, is_due, earlier, lease, select_due, claim_due_feeds}

-- is the id among these?
abbrev pub among : List ℕ → ℕ → Bool
among ids x = any (λ id. id == x) ids

abbrev pub id_of : Feed → ℕ
id_of feed = feed.id

-- the ids that `RETURNING` gives
abbrev pub returned_ids : List ℕ → List Feed → List ℕ
returned_ids ids feeds = map id_of (filter (λ feed. among ids feed.id) feeds)

among-All {κ} : (P : ℕ → Type κ) (ids : List ℕ) (x : ℕ) → among ids x ≡ true → All P ids → P x
unfolding any
among-All P [] x e h = cc
among-All P (id ∷ ids) x e h = elim (Bool-cases (id == x)) [
  | inl k ↦ subst P (ground arith) h.0
  | inr k ↦ among-All P ids x (ground arith) h.1
]

returned_ids-All {κ} :
    (P : ℕ → Type κ) (ids : List ℕ) (feeds : List Feed) → All P ids → All P (returned_ids ids feeds)
unfolding filter any
returned_ids-All P ids [] h = tt
returned_ids-All P ids (feed ∷ feeds) h = elim (Bool-cases (among ids feed.id)) [
  | inl e ↦ rw e (among-All P ids feed.id e h, returned_ids-All P ids feeds h)
  | inr e ↦ rw e (returned_ids-All P ids feeds h)
]

pub returned_ids-among :
    (ids : List ℕ) (feeds : List Feed) (x : ℕ)
    → among ids x ≡ false
    → among (returned_ids ids feeds) x ≡ false
unfolding filter any
returned_ids-among ids [] x e = refl
returned_ids-among ids (feed ∷ feeds) x e = elim (Bool-cases (among ids feed.id)) [
  | inl k ↦ rw k (ground (arith, returned_ids-among ids feeds x e))
  | inr k ↦ rw k (returned_ids-among ids feeds x e)
]

-- a leased row is not due before its lease has run out
is_due-lease :
    (now now' lease_until probe_cutoff : ℕ) (ids : List ℕ) (feed : Feed)
    → now' < lease_until
    → probe_cutoff ≤ now
    → is_due now' probe_cutoff (lease lease_until now ids feed) ≡ true
    → among ids feed.id ≡ false
unfolding is_due lease
is_due-lease now now' lease_until probe_cutoff ids feed h k e = ground arith

-- the rows that a claim selects keep what all rows have, and are due
module _ (c : ClaimConfig) (now : ℕ) (locked : ℕ → Bool) where
  pub select_due-All {κ} :
      (P : Feed → Type κ) (probe_cutoff : ℕ) (feeds : List Feed)
      → All P feeds
      → All P (select_due c now locked probe_cutoff feeds)
  unfolding select_due
  select_due-All P probe_cutoff feeds h =
      let free = λ (feed : Feed). is_due now probe_cutoff feed && not (locked feed.id) in
      All-take P c.claim_batch_size (sort earlier (filter free feeds))
        (All-sort earlier P (filter free feeds) (All-filter P free feeds h))

  select_due-free :
      (probe_cutoff : ℕ) (feeds : List Feed)
      → All
          (λ feed. (is_due now probe_cutoff feed && not (locked feed.id)) ≡ true)
          (select_due c now locked probe_cutoff feeds)
  unfolding select_due
  select_due-free probe_cutoff feeds =
      let free = λ (feed : Feed). is_due now probe_cutoff feed && not (locked feed.id) in
      All-take (λ feed. free feed ≡ true) c.claim_batch_size (sort earlier (filter free feeds))
        (All-sort earlier (λ feed. free feed ≡ true) (filter free feeds) (All-holds free feeds))

  -- what a claim that does not raise has computed
  pub record Claim (feeds : List Feed) (ids : List ℕ) (feeds' : List Feed) : Type 0 where
    pub probe_cutoff : ℕ
    pub cutoff : probe_cutoff + c.dead_probe_interval_days * day ≡ now
    pub selected : ids ≡ returned_ids (map id_of (select_due c now locked probe_cutoff feeds)) feeds
    pub leased :
        feeds'
        ≡ map
            (lease
              (now + c.claim_ttl_seconds * second)
              now
              (map id_of (select_due c now locked probe_cutoff feeds)))
            feeds

  claim_due_feeds-opened :
      (feeds : List Feed) (cutoff until : ℕ)
      → sub_delta now (c.dead_probe_interval_days * day) ≡ some cutoff
      → add_delta now (c.claim_ttl_seconds * second) ≡ some until
      → claim_due_feeds c now locked feeds
        ≡ ok (
          returned_ids (map id_of (select_due c now locked cutoff feeds)) feeds,
          map (lease until now (map id_of (select_due c now locked cutoff feeds))) feeds,
        )
  unfolding claim_due_feeds
  claim_due_feeds-opened feeds cutoff until f g = rw (f, claim_due_feeds) (rw g refl)

  pub claim_due_feeds-Claim :
      (feeds : List Feed) (ids : List ℕ) (feeds' : List Feed)
      → claim_due_feeds c now locked feeds ≡ ok (ids, feeds')
      → Claim feeds ids feeds'
  unfolding claim_due_feeds
  claim_due_feeds-Claim feeds ids feeds' e =
      elim (Option-cases (sub_delta now (c.dead_probe_interval_days * day))) [
        | inl f ↦ cc
        | inr (cutoff, f) ↦ elim (Option-cases (add_delta now (c.claim_ttl_seconds * second))) [
          | inl g ↦ cc
          | inr (until, g) ↦
              let k = sym (claim_due_feeds-opened feeds cutoff until f g) ∙ e in
              record {
                probe_cutoff = cutoff;
                cutoff = sub_delta-back now (c.dead_probe_interval_days * day) cutoff f;
                selected = cc;
                leased = rw (sym (add_delta-late now (c.claim_ttl_seconds * second) until g)) cc;
              }
        ]
      ]

  -- if no row that is due has one of these ids, then no row that is selected has
  pub select_due-new :
      (cutoff : ℕ) (ids : List ℕ) (feeds : List Feed)
      → All (λ feed. is_due now cutoff feed ≡ true → among ids feed.id ≡ false) feeds
      → All (λ id. among ids id ≡ false) (map id_of (select_due c now locked cutoff feeds))
  select_due-new cutoff ids feeds h =
      All-map id_of (λ id. among ids id ≡ false) (select_due c now locked cutoff feeds)
        (All-both (λ feed k e. k (and-left (is_due now cutoff feed) (not (locked feed.id)) e))
          (select_due c now locked cutoff feeds)
          (select_due-All (λ feed. is_due now cutoff feed ≡ true → among ids feed.id ≡ false) cutoff
            feeds h)
          (select_due-free cutoff feeds))
    where
      and-left : (a b : Bool) → (a && b) ≡ true → a ≡ true
      and-left true b e = refl
      and-left false b e = e

pub lease-id :
    (until now : ℕ) (ids : List ℕ) (feed : Feed) → (lease until now ids feed).id ≡ feed.id
unfolding lease
lease-id until now ids feed = elim (Bool-cases (among ids feed.id)) [
  | inl e ↦ rw (e, lease) refl
  | inr e ↦ rw (e, lease) refl
]

leased_rows-due :
    (now now' until cutoff : ℕ) (ids : List ℕ) (feeds : List Feed)
    → now' < until
    → cutoff ≤ now
    → All
        (λ feed. is_due now' cutoff feed ≡ true → among ids feed.id ≡ false)
        (map (lease until now ids) feeds)
leased_rows-due now now' until cutoff ids feeds h k =
    All-map (lease until now ids)
      (λ feed. is_due now' cutoff feed ≡ true → among ids feed.id ≡ false) feeds
      (All-intro
        (λ feed e.
          subst (λ x. among ids x ≡ false) (sym (lease-id until now ids feed))
            (is_due-lease now now' until cutoff ids feed h k e))
        feeds)

-- a claim that does not raise leases some of the rows
pub claim_due_feeds-feeds :
    (c : ClaimConfig) (now : ℕ) (locked : ℕ → Bool) (feeds : List Feed) (ids : List ℕ)
    (feeds' : List Feed)
    → claim_due_feeds c now locked feeds ≡ ok (ids, feeds')
    → (sel : List ℕ) × (until : ℕ) × (feeds' ≡ map (lease until now sel) feeds)
claim_due_feeds-feeds c now locked feeds ids feeds' e =
    let p = claim_due_feeds-Claim c now locked feeds ids feeds' e in
    (
      map id_of (select_due c now locked p.probe_cutoff feeds),
      now + c.claim_ttl_seconds * second,
      p.leased,
    )

module _ (c c' : ClaimConfig) (now now' : ℕ) (locked locked' : ℕ → Bool) where
  -- Two claims in a row that do not raise have no feed in common, whichever workers make them and
  -- whichever rows are locked, if the second comes before the lease of the first has run out and
  -- not more than the second's probe interval after the first.
  pub claim_due_feeds-exclusive :
      (feeds feeds' feeds'' : List Feed) (ids ids' : List ℕ)
      → claim_due_feeds c now locked feeds ≡ ok (ids, feeds')
      → claim_due_feeds c' now' locked' feeds' ≡ ok (ids', feeds'')
      → now' < now + c.claim_ttl_seconds * second
      → now' ≤ now + c'.dead_probe_interval_days * day
      → All (λ id. any (λ i. i == id) ids ≡ false) ids'
  claim_due_feeds-exclusive feeds feeds' feeds'' ids ids' e e' h k =
      let p = claim_due_feeds-Claim c now locked feeds ids feeds' e in
      let q = claim_due_feeds-Claim c' now' locked' feeds' ids' feeds'' e' in
      let sel = map id_of (select_due c now locked p.probe_cutoff feeds) in
      let sel' = map id_of (select_due c' now' locked' q.probe_cutoff feeds') in
      let not_due =
        subst (All (λ feed. is_due now' q.probe_cutoff feed ≡ true → among sel feed.id ≡ false))
          (sym p.leased)
          (leased_rows-due now now' (now + c.claim_ttl_seconds * second) q.probe_cutoff sel feeds h
            (omega (arith, q.cutoff))) in
      rw (p.selected, q.selected)
        (returned_ids-All (λ id. among (returned_ids sel feeds) id ≡ false) sel' feeds'
          (All-implies (λ id. returned_ids-among sel feeds id) sel'
            (select_due-new c' now' locked' q.probe_cutoff sel feeds' not_due)))
