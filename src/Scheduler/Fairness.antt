-- ===== src/Scheduler/Fairness.antt =====
-- About `_claim_due_feeds` of fetcher/scheduler.py: which of the due feeds a claim leaves behind.
use feedgate_fetcher.Prelude.{
  ℕ, ◌+◌, ◌*◌, ◌≤◌, ◌≡◌, ◌∙◌, refl, sym, ap, subst, inl, inr, some, List, [], ◌∷◌, map, Bool, true,
  false, ◌&&◌, not, ◌==◌, any, filter, take, drop, length, length-filter-le, take-append-drop,
  take_eq_self, All, All-append, arith, Bool-cases, leb→le,
}
use feedgate_fetcher.Prelude.Sort.{sort}
use feedgate_fetcher.Prelude.Sort.Laws.{IsSorted, sort-IsSorted}
use feedgate_fetcher.Prelude.Every.{All-filter, All-implies, All-both, All-holds}
use feedgate_fetcher.Prelude.Time.{day}
use feedgate_fetcher.Models.{Feed}
use feedgate_fetcher.Exceptions.{ok}
use feedgate_fetcher.Scheduler.{
  ClaimConfig, is_due, earlier, select_due, claim_due_feeds, find_feed,
}
use feedgate_fetcher.Scheduler.Claims.{
  among, id_of, returned_ids, returned_ids-among, select_due-All, claim_due_feeds-Claim,
}
use feedgate_fetcher.Scheduler.Ticks.{find_feed-All}
use feedgate_fetcher.Api.Feeds.Unique.{UniqueFeeds}
use feedgate_fetcher.Scheduler.Selection.{
  earlier-IsTransitive, earlier-IsConnected, sorted-later, sort-back, filter-back, length-sort,
  not_among, among-All,
}

module _ (c : ClaimConfig) (now : ℕ) (locked : ℕ → Bool) (cutoff : ℕ) (feeds : List Feed) (id : ℕ)
    (feed : Feed) (found : find_feed id feeds ≡ some feed) (due : is_due now cutoff feed ≡ true)
    (free : locked feed.id ≡ false) where
  abbrev candidates : List Feed
  candidates = sort earlier (filter (λ f. is_due now cutoff f && not (locked f.id)) feeds)

  -- what holds of every candidate holds of the feed
  candidates-All {κ} : (P : Feed → Type κ) → All P candidates → P feed
  candidates-All P h =
      (find_feed-All _ id feeds feed found (
          filter-back P (λ f. is_due now cutoff f && not (locked f.id)) feeds
            (sort-back P (filter (λ f. is_due now cutoff f && not (locked f.id)) feeds) h))).1
        (rw (due, free) refl)

  left_behind :
      among (map id_of (select_due c now locked cutoff feeds)) feed.id ≡ false
      → All (λ f. f.next_fetch_at ≤ feed.next_fetch_at) (select_due c now locked cutoff feeds)
  unfolding select_due
  left_behind h =
      let n = c.claim_batch_size in
      let sorted =
        sort-IsSorted earlier earlier-IsTransitive
          (filter (λ f. is_due now cutoff f && not (locked f.id)) feeds)
          (earlier-IsConnected (filter (λ f. is_due now cutoff f && not (locked f.id)) feeds)) in
      let T = take n candidates in
      let D = drop n candidates in
      let P = λ (x : Feed). (x.id == feed.id) ≡ true → All (λ f. earlier f x ≡ true) T in
      let first : All P T =
        All-implies (λ x other same. absurd (cc (sym other ∙ same))) T (not_among T feed.id h) in
      let later : All P D =
        All-implies (λ x all same. all) D
          (sorted-later T D
            (subst (IsSorted earlier) (sym (take-append-drop n candidates)) sorted)) in
      let all = subst (All P) (take-append-drop n candidates) (All-append P T D first later) in
      All-implies (λ f e. leb→le f.next_fetch_at feed.next_fetch_at e) T
        (candidates-All P all (ground arith))

  -- a claim that is large enough takes the feed
  all_taken :
      length feeds ≤ c.claim_batch_size
      → among (map id_of (select_due c now locked cutoff feeds)) feed.id ≡ true
  unfolding select_due
  all_taken h =
      let n = c.claim_batch_size in
      elim (Bool-cases (among (map id_of (take n candidates)) feed.id)) [
        | inl e ↦ e
        | inr e ↦
            let fits : length candidates ≤ n = omega (
              arith,
              h,
              length-sort (filter (λ f. is_due now cutoff f && not (locked f.id)) feeds),
              length-filter-le (λ f. is_due now cutoff f && not (locked f.id)) feeds,
            ) in
            let whole = take_eq_self candidates n fits in
            let others =
              not_among candidates feed.id
                (subst (λ xs. among (map id_of xs) feed.id ≡ false) whole e) in
            let bad = candidates-All (λ x. (x.id == feed.id) ≡ false) others in
            absurd (ground (arith, bad))
      ]

returned_ids-own :
    (sel : List ℕ) (f : Feed) (feeds : List Feed)
    → among sel f.id ≡ true
    → among (returned_ids sel (f ∷ feeds)) f.id ≡ true
unfolding filter any
returned_ids-own sel f feeds e = rw e (ground arith)

returned_ids-later :
    (sel : List ℕ) (f : Feed) (feeds : List Feed) (x : ℕ)
    → among (returned_ids sel feeds) x ≡ true
    → among (returned_ids sel (f ∷ feeds)) x ≡ true
unfolding filter any
returned_ids-later sel f feeds x h = elim (Bool-cases (among sel f.id)) [
  | inl e ↦ rw e (ground (arith, h))
  | inr e ↦ rw e h
]

-- a selected row of the table is among the ids that are returned
returned_ids-has :
    (sel : List ℕ) (feeds : List Feed)
    → All (λ f. among sel f.id ≡ true → among (returned_ids sel feeds) f.id ≡ true) feeds
returned_ids-has sel [] = tt
returned_ids-has sel (f ∷ feeds) = (
  returned_ids-own sel f feeds,
  All-implies (λ g h k. returned_ids-later sel f feeds g.id (h k)) feeds
      (returned_ids-has sel feeds),
)

-- the only row of the table with its id
same_row :
    (feeds : List Feed) → UniqueFeeds feeds → All (λ f. All (λ h. h.id ≡ f.id → h ≡ f) feeds) feeds
same_row [] u = tt
same_row (f ∷ feeds) u = (
  ((λ e. refl), All-implies (λ h d e. absurd (ground (arith, d.id, e))) feeds u.0),
  All-both (λ g d rest. ((λ e. absurd (ground (arith, d.id, e))), rest)) feeds u.0
      (same_row feeds u.1),
)

module _ (c : ClaimConfig) (now : ℕ) (locked : ℕ → Bool) (cutoff : ℕ) (feeds feeds' : List Feed)
    (ids : List ℕ) (id : ℕ) (feed : Feed)
    (claimed : claim_due_feeds c now locked feeds ≡ ok (ids, feeds'))
    (found : find_feed id feeds ≡ some feed) (free : locked feed.id ≡ false)
    (probed : cutoff + c.dead_probe_interval_days * day ≡ now)
    (due : is_due now cutoff feed ≡ true) where
  abbrev selected_ids : List ℕ
  selected_ids = map id_of (select_due c now locked cutoff feeds)

  ids-selected : ids ≡ returned_ids selected_ids feeds
  ids-selected =
      let p = claim_due_feeds-Claim c now locked feeds ids feeds' claimed in
      subst (λ x. ids ≡ returned_ids (map id_of (select_due c now locked x feeds)) feeds)
        (omega (arith, p.cutoff, probed)) p.selected

  -- the ids that are returned, and those that are selected
  returned-selected : (x : ℕ) → among ids x ≡ true → among selected_ids x ≡ true
  returned-selected x e = elim (Bool-cases (among selected_ids x)) [
    | inl k ↦ k
    | inr k ↦ absurd (
        cc (sym (ap (λ i. among i x) ids-selected ∙ returned_ids-among selected_ids feeds x k) ∙ e))
  ]

  selected-returned : among selected_ids feed.id ≡ true → among ids feed.id ≡ true
  selected-returned e =
      ap (λ i. among i feed.id) ids-selected
      ∙ (find_feed-All _ id feeds feed found (returned_ids-has selected_ids feeds)).1 e

  -- A due feed that nobody has locked is claimed, if the batch is no smaller than the table.
  pub claim_due_feeds_complete :
      length feeds ≤ c.claim_batch_size → any (λ i. i == feed.id) ids ≡ true
  claim_due_feeds_complete h =
      selected-returned (all_taken c now locked cutoff feeds id feed found due free h)

  -- A claim that leaves a due feed behind, whose row is not locked, has claimed only feeds that
  -- were due no later, if the ids of feeds are unique.
  pub claim_due_feeds-earliest :
      UniqueFeeds feeds
      → any (λ i. i == feed.id) ids ≡ false
      → All
          (λ f. f.next_fetch_at ≤ feed.next_fetch_at)
          (filter (λ f. any (λ i. i == f.id) ids) feeds)
  claim_due_feeds-earliest u h =
      let L = select_due c now locked cutoff feeds in
      let least = left_behind c now locked cutoff feeds id feed found due free not_selected in
      let claimed_rows = filter (λ f. any (λ i. i == f.id) ids) feeds in
      All-both
        (λ f only e.
          among-All (f.next_fetch_at ≤ feed.next_fetch_at) L f.id
            (All-both (λ g same le k. subst (λ x. x.next_fetch_at ≤ feed.next_fetch_at) (same k) le)
              L (select_due-All c now locked _ cutoff feeds only) least)
            (returned-selected f.id e))
        claimed_rows (All-filter _ (λ f. any (λ i. i == f.id) ids) feeds (same_row feeds u))
        (All-holds (λ f. any (λ i. i == f.id) ids) feeds)
    where
      not_selected : among selected_ids feed.id ≡ false
      not_selected = elim (Bool-cases (among selected_ids feed.id)) [
        | inl e ↦ absurd (cc (sym (selected-returned e) ∙ h))
        | inr e ↦ e
      ]
