-- ===== src/App/Shutdown.antt =====
-- About the shutdown of main.py.
use feedgate_fetcher.Prelude.{
  ℕ, ◌+◌, ◌*◌, ◌≤◌, ◌≡◌, ◌≢◌, refl, Option, none, some, List, [], ◌∷◌, Bool, true, false, leb,
  if◌then◌else◌, arith, Bool-cases, inl, inr,
}
use feedgate_fetcher.Prelude.Time.{second}
use feedgate_fetcher.App.{
  Ending, returned, raised, cancelled, Task, ended, time_out, wait_for, Drained, skipped, clean,
  logged, force_cancelled, escaped, stuck, spent, drained_of, drain_background_task, drain_all,
  LifespanConfig, started, shutdown,
}

abbrev EndsByItself : Option (ℕ × Ending) → Type 0
EndsByItself none = Unit
EndsByItself (some (t, ending)) = ending ≢ cancelled

-- A task that ends when it is cancelled, and that nobody else cancels.
pub record IsCooperative (task : Task) : Type 0 where
  pub ends : task.on_cancel ≢ none
  pub uncancelled : EndsByItself task.finish

-- what a drain of such a task comes to: an end within its budget
abbrev Within : ℕ → Drained → Type 0
Within budget skipped = Unit
Within budget (clean t) = t ≤ budget
Within budget (logged t) = t ≤ budget
Within budget (force_cancelled t) = t ≤ budget
Within budget escaped = ⊥
Within budget stuck = ⊥

time_out-Within :
    (budget : ℕ) (on_cancel : Option Ending)
    → on_cancel ≢ none
    → Within budget (drained_of (time_out budget on_cancel))
unfolding drained_of time_out
time_out-Within budget none n = absurd (n refl)
time_out-Within budget (some returned) n = omega arith
time_out-Within budget (some raised) n = omega arith
time_out-Within budget (some cancelled) n = omega arith

ended-Within :
    (budget t : ℕ) (ending : Ending)
    → t ≤ budget
    → ending ≢ cancelled
    → Within budget (drained_of (ended t ending))
unfolding drained_of
ended-Within budget t returned h n = h
ended-Within budget t raised h n = h
ended-Within budget t cancelled h n = absurd (n refl)

drain-Within :
    (task : Task) (budget : ℕ)
    → IsCooperative task
    → Within budget (drain_background_task (some task) budget).1
unfolding drain_background_task wait_for
drain-Within task budget h = finished task.finish h.uncancelled
  where
    finished :
        (finish : Option (ℕ × Ending))
        → EndsByItself finish
        → Within budget (
            drained_of (elim finish [
              | none ↦ time_out budget task.on_cancel
              | some (t, ending) ↦
                  if leb t budget then ended t ending else time_out budget task.on_cancel
            ]))
    finished none u = time_out-Within budget task.on_cancel h.ends
    finished (some (t, ending)) u = elim (Bool-cases (leb t budget)) [
      | inl e ↦ rw e (ended-Within budget t ending (ground (arith, e)) u)
      | inr e ↦ rw e (time_out-Within budget task.on_cancel h.ends)
    ]

abbrev CooperativeTasks : List (Option Task × ℕ) → Type 0
CooperativeTasks [] = Unit
CooperativeTasks ((none, budget) ∷ tasks) = CooperativeTasks tasks
CooperativeTasks ((some task, budget) ∷ tasks) = IsCooperative task × CooperativeTasks tasks

abbrev budgets : List (Option Task × ℕ) → ℕ
budgets [] = 0
budgets ((task, budget) ∷ tasks) = budget + budgets tasks

spent-Within :
    (budget : ℕ) (d : Drained) → Within budget d → (t : ℕ) × (spent d ≡ some t) × (t ≤ budget)
spent-Within budget skipped h = (0, refl, omega arith)
spent-Within budget (clean t) h = (t, refl, h)
spent-Within budget (logged t) h = (t, refl, h)
spent-Within budget (force_cancelled t) h = (t, refl, h)
spent-Within budget escaped h = absurd h
spent-Within budget stuck h = absurd h

drain_all-step :
    (task : Option Task) (budget : ℕ) (tasks : List (Option Task × ℕ)) (time t : ℕ)
    → spent (drain_background_task task budget).1 ≡ some t
    → drain_all ((task, budget) ∷ tasks) time ≡ drain_all tasks (time + t)
unfolding drain_all
drain_all-step task budget tasks time t e = rw (drain_all, e) refl

drain_all-ends :
    (tasks : List (Option Task × ℕ)) (time : ℕ)
    → CooperativeTasks tasks
    → ((drain_all tasks time).1 ≡ true) × ((drain_all tasks time).0 ≤ time + budgets tasks)
unfolding drain_all
drain_all-ends [] time h = (refl, omega arith)
drain_all-ends ((none, budget) ∷ tasks) time h =
    let (e, l) = drain_all-ends tasks (time + 0) h in
    rw (drain_all-step none budget tasks time 0 (unfold drain_background_task in refl))
      (e, omega (arith, l))
drain_all-ends ((some task, budget) ∷ tasks) time h =
    let (t, e, l) = spent-Within budget _ (drain-Within task budget h.0) in
    let (f, m) = drain_all-ends tasks (time + t) h.1 in
    rw (drain_all-step (some task) budget tasks time t e) (f, omega (arith, l, m))

started-Cooperative :
    (enabled : Bool) (task : Task) (budget : ℕ) (tasks : List (Option Task × ℕ))
    → IsCooperative task
    → CooperativeTasks tasks
    → CooperativeTasks ((started enabled task, budget) ∷ tasks)
started-Cooperative true task budget tasks h k = (h, k)
started-Cooperative false task budget tasks h k = k

-- If each background task ends when it is cancelled and nobody else cancels it, a shutdown reaches
-- the closing of the HTTP client and the engine, within twice the drain budget and five seconds.
pub shutdown_ends :
    (c : LifespanConfig) (scheduler retention collector : Task)
    → IsCooperative scheduler
    → IsCooperative retention
    → IsCooperative collector
    → ((shutdown c scheduler retention collector).1 ≡ true)
      × ((shutdown c scheduler retention collector).0 ≤ 2 * c.shutdown_drain + 5 * second)
unfolding shutdown
shutdown_ends c scheduler retention collector s r m =
    let behind =
      (started c.retention_enabled retention, c.shutdown_drain)
      ∷ (some collector, 5 * second)
      ∷ [] in
    let (e, l) =
      drain_all-ends ((started c.scheduler_enabled scheduler, c.shutdown_drain) ∷ behind) 0 (
        started-Cooperative c.scheduler_enabled scheduler c.shutdown_drain behind s (
          started-Cooperative c.retention_enabled retention c.shutdown_drain
            ((some collector, 5 * second) ∷ []) r (m, tt))) in
    (e, omega (arith, l))
