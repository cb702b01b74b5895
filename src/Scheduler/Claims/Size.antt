-- ===== src/Scheduler/Claims/Size.antt =====
-- About `_claim_due_feeds` of fetcher/scheduler.py: how many feeds a claim returns.
use feedgate_fetcher.Prelude.{
  ℕ, ◌≤◌, ◌<◌, ◌≡◌, refl, ap, subst, List, [], ◌∷◌, map, Bool, true, false, not, ◌&&◌, ◌==◌, any,
  filter, length, length-filter-le, length-map, length-take, All, arith, Bool-cases, inl, inr,
}
use feedgate_fetcher.Prelude.Sort.{sort}
use feedgate_fetcher.Models.{Feed}
use feedgate_fetcher.Exceptions.{ok}
use feedgate_fetcher.Scheduler.{ClaimConfig, select_due, earlier, is_due, claim_due_feeds}
use feedgate_fetcher.Scheduler.Claims.{among, id_of, returned_ids, claim_due_feeds-Claim}
use feedgate_fetcher.Api.Feeds.Unique.{UniqueFeeds, IsApart}

without : ℕ → List ℕ → List ℕ
unfolding filter
without x ids = filter (λ i. not (i == x)) ids

length-without : (x : ℕ) (ids : List ℕ) → among ids x ≡ true → length (without x ids) < length ids
unfolding without any
length-without x [] e = cc
length-without x (id ∷ ids) e = elim (Bool-cases (id == x)) [
  | inl k ↦ rw k (omega (arith, length-filter-le (λ i. not (i == x)) ids))
  | inr k ↦
      let e' : among ids x ≡ true = ground (arith, e, k) in
      rw k (omega (arith, length-without x ids e'))
]

among-without : (x y : ℕ) (ids : List ℕ) → (y == x) ≡ false → among (without x ids) y ≡ among ids y
unfolding without any
among-without x y [] e = refl
among-without x y (id ∷ ids) e = elim (Bool-cases (id == x)) [
  | inl k ↦
      let other : (id == y) ≡ false = ground (arith, e, k) in
      rw (k, other) (among-without x y ids e)
  | inr k ↦ rw (k, among-without x y ids e) refl
]

returned_ids-without :
    (feed : Feed) (ids : List ℕ) (feeds : List Feed)
    → All (IsApart feed) feeds
    → returned_ids (without feed.id ids) feeds ≡ returned_ids ids feeds
unfolding filter
returned_ids-without feed ids [] h = refl
returned_ids-without feed ids (f ∷ feeds) h = elim (Bool-cases (among ids f.id)) [
  | inl k ↦
      rw (among-without feed.id f.id ids h.0.id, k)
        (ap (◌∷◌ f.id) (returned_ids-without feed ids feeds h.1))
  | inr k ↦ rw (among-without feed.id f.id ids h.0.id, k) (returned_ids-without feed ids feeds h.1)
]

length-returned_ids :
    (ids : List ℕ) (feeds : List Feed)
    → UniqueFeeds feeds
    → length (returned_ids ids feeds) ≤ length ids
unfolding filter
length-returned_ids ids [] u = omega arith
length-returned_ids ids (feed ∷ feeds) u = elim (Bool-cases (among ids feed.id)) [
  | inl k ↦
      let rest = length-returned_ids (without feed.id ids) feeds u.1 in
      let rest' =
        subst (λ r. length r ≤ length (without feed.id ids))
          (returned_ids-without feed ids feeds u.0) rest in
      rw k (omega (arith, rest', length-without feed.id ids k))
  | inr k ↦ rw k (length-returned_ids ids feeds u.1)
]

-- A claim on a table with unique ids returns no more feeds than a batch has.
pub length-claim_due_feeds :
    (c : ClaimConfig) (now : ℕ) (locked : ℕ → Bool) (feeds feeds' : List Feed) (ids : List ℕ)
    → UniqueFeeds feeds
    → claim_due_feeds c now locked feeds ≡ ok (ids, feeds')
    → length ids ≤ c.claim_batch_size
unfolding select_due
length-claim_due_feeds c now locked feeds feeds' ids u e =
    let p = claim_due_feeds-Claim c now locked feeds ids feeds' e in
    let due = select_due c now locked p.probe_cutoff feeds in
    let returned = length-returned_ids (map id_of due) feeds u in
    let few = length-take c.claim_batch_size (
      sort earlier
        (filter (λ feed. is_due now p.probe_cutoff feed && not (locked feed.id)) feeds)) in
    omega (arith, returned, ap length p.selected, length-map id_of due, few)
