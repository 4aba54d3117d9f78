-- ===== src/Gui/Threads.antt =====
-- The threads that call LVGL: `RunTaskThread`, `RunTickThread`, and those that use the widgets, as
-- steps of one system. A step is one call; a call that a thread makes for the lock waits while
-- another thread has it. A thread for which pthread_cancel was called may end at its next call that
-- is a cancellation point, with the lock if it has it. The two threads of gui.cpp have the numbers 0
-- and 1.
pub mod Invariant
pub mod Exclusion
pub mod Cancel
use battery_info.Prelude.{
  ℕ, zero, suc, ◌≡◌, Bool, true, false, ◌==◌, List, [], ◌∷◌, Option, none, some, if◌then◌else◌,
}
use battery_info.Gui.Calls.{
  Call, mutex_lock, mutex_unlock, usleep, thread_cancel, task_handler, LvglThread, lvgl_task,
  lvgl_tick,
}
use battery_info.Gui.Use.{Use, perform, IsLocked}
use battery_info.Gui.Widgets.{Screen}
use battery_info.Gui.Start.{run_task_round, run_tick_round}

-- What the threads do: how many rounds the two of gui.cpp make (a round of the first is given by the
-- time that `lv_task_handler` returns), and the rows of uses of the others.
pub record Jobs : Type 0 where
  pub task_rounds : List ℕ
  pub tick_rounds : ℕ
  pub uses : ℕ → List Use

abbrev pub task_calls : List ℕ → List Call → List Call
task_calls [] log = log
task_calls (t ∷ ts) log = task_calls ts (run_task_round t log).1

abbrev pub tick_calls : ℕ → List Call → List Call
tick_calls zero log = log
tick_calls (suc n) log = tick_calls n (run_tick_round log).1

-- A thread whose use reads outside the rows of a table makes no more calls.
abbrev pub use_calls : Screen → List Use → List Call → List Call
use_calls s [] log = log
use_calls s (u ∷ us) log = elim (perform s u log) [ none ↦ log | some done ↦ use_calls s us done ]

abbrev pub AreLocked : List Use → Type 0
AreLocked [] = Unit
AreLocked (u ∷ us) = IsLocked u × AreLocked us

-- The calls that a thread makes, the newest first.
unfoldable pub calls_of : Screen → Jobs → ℕ → List Call
calls_of s j zero = task_calls j.task_rounds []
calls_of s j (suc zero) = tick_calls j.tick_rounds []
calls_of s j (suc (suc i)) = use_calls s (j.uses i) []

abbrev pub backwards : List Call → List Call → List Call
backwards [] cs = cs
backwards (c ∷ log) cs = backwards log (c ∷ cs)

-- The calls each thread still has to make, the thread that has the lock, the threads that were
-- cancelled, and the calls made by all of them, the newest first.
pub record Threads : Type 0 where
  pub left : ℕ → List Call
  pub owner : Option ℕ
  pub cancelled : ℕ → Bool
  pub log : List Call

abbrev pub put {ℓ} : {A : Type ℓ} → (ℕ → A) → ℕ → A → ℕ → A
put f i x j = if i == j then x else f j

-- The lock behind a call of the thread; `none` while the thread waits for it.
abbrev pub owner_after : ℕ → Call → Option ℕ → Option (Option ℕ)
owner_after i mutex_lock none = some (some i)
owner_after i mutex_lock (some j) = none
owner_after i mutex_unlock o = some none
owner_after i c o = some o

abbrev number : LvglThread → ℕ
number lvgl_task = 0
number lvgl_tick = 1

abbrev pub cancelled_after : Call → (ℕ → Bool) → ℕ → Bool
cancelled_after (thread_cancel t) f = put f (number t) true
cancelled_after c f = f

-- Where a cancelled thread may end: in usleep, and in `lv_task_handler`, which reads the touch screen.
-- pthread_mutex_lock is no such call.
abbrev pub is_cancellation_point : Call → Bool
is_cancellation_point (usleep n) = true
is_cancellation_point task_handler = true
is_cancellation_point c = false

pub data Step (s : Threads) : Threads → Type 0 where
  step :
      (i : ℕ) (c : Call) (cs : List Call) (o : Option ℕ)
      → s.left i ≡ c ∷ cs
      → owner_after i c s.owner ≡ some o
      → Step s (record {
        left = put s.left i cs;
        owner = o;
        cancelled = cancelled_after c s.cancelled;
        log = c ∷ s.log;
      })
  end :
      (i : ℕ) (c : Call) (cs : List Call)
      → s.left i ≡ c ∷ cs
      → s.cancelled i ≡ true
      → is_cancellation_point c ≡ true
      → Step s (record s { left = put s.left i []; log = c ∷ s.log })

pub data Reach (s : Threads) : Threads → Type 0 where
  here : Reach s s
  next : {t u : Threads} → Reach s t → Step t u → Reach s u

-- Each thread at the beginning of its job, the lock free.
abbrev pub start : Screen → Jobs → Threads
start s j = record {
  left = λ i. backwards (calls_of s j i) [];
  owner = none;
  cancelled = λ i. false;
  log = [];
}
