-- ===== src/Scheduler/Permits/Makespan.antt =====
-- About the time that the jobs of one tick take under the semaphore of fetcher/scheduler.py.
use feedgate_fetcher.Prelude.{
  ℕ, zero, suc, ◌+◌, ◌*◌, ◌≤◌, ◌<◌, ◌≡◌, refl, some, List, [], ◌∷◌, leb, leb→le, count, length, All,
  arith, Bool-cases, inl, inr,
}
use feedgate_fetcher.Prelude.Every.{All-implies}
use feedgate_fetcher.Prelude.Sort.{insert}
use feedgate_fetcher.Scheduler.Permits.{last_free, run_jobs, all_free, gather_time}

-- in the order of the times
abbrev Ordered : List ℕ → Type 0
Ordered [] = Unit
Ordered (t ∷ ts) = All (λ u. t ≤ u) ts × Ordered ts

insert-All : (P : ℕ → Type 0) (t : ℕ) (ts : List ℕ) → P t → All P ts → All P (insert leb t ts)
unfolding insert
insert-All P t [] p h = (p, tt)
insert-All P t (u ∷ ts) p h = elim (Bool-cases (leb t u)) [
  | inl e ↦ rw e (p, h)
  | inr e ↦ rw e (h.0, insert-All P t ts p h.1)
]

insert-Ordered : (t : ℕ) (ts : List ℕ) → Ordered ts → Ordered (insert leb t ts)
unfolding insert
insert-Ordered t [] o = (tt, tt)
insert-Ordered t (u ∷ ts) o = elim (Bool-cases (leb t u)) [
  | inl e ↦
      let below = leb→le t u e in
      rw e ((below, All-implies (λ v b. omega (arith, b, below)) ts o.0), o)
  | inr e ↦ rw e (insert-All (λ v. u ≤ v) t ts (ground (arith, e)) o.0, insert-Ordered t ts o.1)
]

count-insert :
    (q t : ℕ) (ts : List ℕ) → count (λ u. leb u q) ts ≤ count (λ u. leb u q) (insert leb t ts)
unfolding insert
count-insert q t [] = omega arith
count-insert q t (u ∷ ts) = ground (arith, count-insert q t ts)

length-insert : (t : ℕ) (ts : List ℕ) → length (insert leb t ts) ≡ suc (length ts)
unfolding insert
length-insert t [] = refl
length-insert t (u ∷ ts) = ground (arith, length-insert t ts)

count-all : (q : ℕ) (ts : List ℕ) → All (λ t. t ≤ q) ts → count (λ t. leb t q) ts ≡ length ts
count-all q [] h = refl
count-all q (t ∷ ts) h = ground (arith, h.0, count-all q ts h.1)

count-none : (q : ℕ) (ts : List ℕ) → All (λ t. q < t) ts → count (λ t. leb t q) ts ≡ 0
count-none q [] h = refl
count-none q (t ∷ ts) h = ground (arith, h.0, count-none q ts h.1)

-- if some permit is free at a time, the first one is
first-le : (q t : ℕ) (ts : List ℕ) → Ordered (t ∷ ts) → 0 < count (λ u. leb u q) (t ∷ ts) → t ≤ q
first-le q t ts o h = elim (Bool-cases (leb t q)) [
  | inl e ↦ leb→le t q e
  | inr e ↦
      let late = count-none q ts (All-implies (λ u b. ground (arith, b, e)) ts o.0) in
      absurd (ground (arith, e, late, h))
]

last_free-le : (m : ℕ) (ts : List ℕ) → All (λ t. t ≤ m) ts → last_free ts ≤ m
last_free-le m [] h = omega arith
last_free-le m (t ∷ ts) h = omega (arith, h.0, last_free-le m ts h.1)

suc-times : (r k : ℕ) → suc r * k ≡ k + r * k
suc-times r k = grind arith

one_round : (r k n : ℕ) → suc n ≤ suc r * suc k → n ≤ k + r * suc k
one_round r k n h = omega (arith, h, suc-times r (suc k))

module _ (longest : ℕ) where
  -- `a` permits are free at `q`, all of them one longest job later, and `r` rounds are still to come
  run_jobs-le :
      (q a r : ℕ) (permits durations : List ℕ)
      → Ordered permits
      → 0 < length permits
      → All (λ t. t ≤ q + longest) permits
      → a ≤ count (λ t. leb t q) permits
      → All (λ d. d ≤ longest) durations
      → length durations ≤ a + r * length permits
      → (end : ℕ) × (run_jobs permits durations ≡ some end) × (end ≤ q + longest + r * longest)
  unfolding run_jobs
  run_jobs-le q a r permits [] o k l f d n =
      (last_free permits, refl, grind (arith, last_free-le (q + longest) permits l))
  run_jobs-le q a r [] (d ∷ ds) o k l f h n = absurd (omega arith)
  run_jobs-le q (suc a) r (t ∷ ts) (d ∷ ds) o k l f h n =
      let first = first-le q t ts o (omega (arith, f)) in
      let size = length-insert (t + d) ts in
      run_jobs-le q a r (insert leb (t + d) ts) ds (insert-Ordered (t + d) ts o.1)
        (omega (arith, size))
        (insert-All (λ u. u ≤ q + longest) (t + d) ts (omega (arith, first, h.0)) l.1)
        (ground (arith, first, f, count-insert q (t + d) ts)) h.1 (rw size (omega (arith, n)))
  run_jobs-le q zero zero (t ∷ ts) (d ∷ ds) o k l f h n = absurd (omega (arith, n))
  run_jobs-le q zero (suc r) (t ∷ ts) (d ∷ ds) o k l f h n =
      let m = q + longest in
      let size = length-insert (t + d) ts in
      let (end, e, b) =
        run_jobs-le m (length ts) r (insert leb (t + d) ts) ds (insert-Ordered (t + d) ts o.1)
          (omega (arith, size))
          (insert-All (λ u. u ≤ m + longest) (t + d) ts (omega (arith, l.0, h.0))
            (All-implies (λ u x. omega (arith, x)) ts l.1))
          (omega (arith, count-insert m (t + d) ts, count-all m ts l.1)) h.1
          (rw size (one_round r (length ts) (length ds) (omega (arith, n)))) in
      (end, e, omega (arith, b, suc-times r longest))

all_free-Ordered : (k : ℕ) → Ordered (all_free k) × All (λ t. t ≤ 0) (all_free k)
unfolding all_free
all_free-Ordered zero = (tt, tt)
all_free-Ordered (suc k) =
    let (o, l) = all_free-Ordered k in
    ((All-implies (λ t b. omega arith) (all_free k) l, o), (omega arith, l))

length-all_free : (k : ℕ) → length (all_free k) ≡ k
unfolding all_free
length-all_free zero = refl
length-all_free (suc k) = omega (arith, length-all_free k)

-- Makespan
pub gather_time_le :
    (fetch_concurrency r longest : ℕ) (durations : List ℕ)
    → 0 < fetch_concurrency
    → All (λ d. d ≤ longest) durations
    → length durations ≤ r * fetch_concurrency
    → (end : ℕ) × (gather_time fetch_concurrency durations ≡ some end) × (end ≤ r * longest)
unfolding gather_time
gather_time_le k zero longest [] p d n =
    let idle = last_free-le 0 (all_free k) (all_free-Ordered k).1 in
    (last_free (all_free k), refl, omega (arith, idle))
gather_time_le k zero longest (x ∷ durations) p d n = absurd (omega (arith, n))
gather_time_le k (suc r) longest durations p d n =
    let (o, l) = all_free-Ordered k in
    let size = length-all_free k in
    let (end, e, b) =
      run_jobs-le longest 0 k r (all_free k) durations o (omega (arith, size))
        (All-implies (λ t x. omega (arith, x)) (all_free k) l)
        (omega (arith, count-all 0 (all_free k) l, size)) d
        (rw size (omega (arith, n, suc-times r k))) in
    (end, e, omega (arith, b, suc-times r longest))
