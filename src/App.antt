-- ===== src/App.antt =====
-- main.py: the background tasks of the application, and how its lifespan stops them. What a task does
-- after it is told to stop, and when it is cancelled, is data of the model; times are microseconds. A task
-- that is cancelled takes no time to end.
pub mod Shutdown
pub mod Drains
use feedgate_fetcher.Prelude.{
  ℕ, ◌+◌, ◌*◌, Option, none, some, List, [], ◌∷◌, Bool, true, false, leb, if◌then◌else◌,
}
use feedgate_fetcher.Prelude.Time.{second}

-- how a task ends: it returns, raises an Exception, or with a CancelledError
pub data Ending : Type 0 where
  returned raised cancelled : Ending

pub record Task : Type 0 where
  -- when it ends after its stop event is set, and how, unless it is cancelled before
  pub finish : Option (ℕ × Ending)
  -- how it ends when it is cancelled; `none` is a task that goes on
  pub on_cancel : Option Ending

-- what `asyncio.wait_for(task, timeout)` does, and when
pub data Waited : Type 0 where
  ended : ℕ → Ending → Waited
  timeout_error : ℕ → Waited
  never : Waited

-- the timeout cancels the task and waits for its end; only a CancelledError becomes a TimeoutError
unfoldable pub time_out : ℕ → Option Ending → Waited
time_out timeout none = never
time_out timeout (some returned) = ended timeout returned
time_out timeout (some raised) = ended timeout raised
time_out timeout (some cancelled) = timeout_error timeout

unfoldable pub wait_for : Task → ℕ → Waited
unfolding time_out
wait_for task timeout = elim task.finish [
  | none ↦ time_out timeout task.on_cancel
  | some (t, ending) ↦ if leb t timeout then ended t ending else time_out timeout task.on_cancel
]

-- what a drain has come to
pub data Drained : Type 0 where
  -- there was no task
  skipped : Drained
  -- the task ended by itself; its exception was logged
  clean logged : ℕ → Drained
  -- the timeout: the task was cancelled
  force_cancelled : ℕ → Drained
  -- a CancelledError leaves the drain, or it does not end
  escaped stuck : Drained

unfoldable pub drained_of : Waited → Drained
drained_of (ended t returned) = clean t
drained_of (ended t raised) = logged t
drained_of (ended t cancelled) = escaped
drained_of (timeout_error t) = force_cancelled t
drained_of never = stuck

-- is the stop event set, and what came of the task
unfoldable pub drain_background_task : Option Task → ℕ → Bool × Drained
unfolding drained_of wait_for
drain_background_task none drain_seconds = (false, skipped)
drain_background_task (some task) drain_seconds = (true, drained_of (wait_for task drain_seconds))

-- how long a drain took, if the statement behind it is reached
abbrev pub spent : Drained → Option ℕ
spent skipped = some 0
spent (clean t) = some t
spent (logged t) = some t
spent (force_cancelled t) = some t
spent escaped = none
spent stuck = none

-- the drains of the lifespan, one after the other: the time they took, and whether the statement
-- behind them is reached
unfoldable pub drain_all : List (Option Task × ℕ) → ℕ → ℕ × Bool
unfolding drain_background_task
drain_all [] time = (time, true)
drain_all ((task, drain_seconds) ∷ tasks) time =
    elim (spent (drain_background_task task drain_seconds).1) [
      | none ↦ (time, false)
      | some t ↦ drain_all tasks (time + t)
    ]

pub record LifespanConfig : Type 0 where
  pub scheduler_enabled : Bool
  pub retention_enabled : Bool
  -- microseconds
  pub shutdown_drain : ℕ

-- the tasks that the lifespan starts
abbrev pub started : Bool → Task → Option Task
started enabled task = if enabled then some task else none

-- The `finally` of the lifespan: how long its drains take, and whether the HTTP client and the engine
-- are closed after them.
unfoldable pub shutdown : LifespanConfig → Task → Task → Task → ℕ × Bool
unfolding drain_all
shutdown c scheduler retention collector =
    drain_all
      ((started c.scheduler_enabled scheduler, c.shutdown_drain)
        ∷ (started c.retention_enabled retention, c.shutdown_drain)
        ∷ (some collector, 5 * second)
        ∷ [])
      0
