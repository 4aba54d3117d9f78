-- ===== src/Gui/Tests.antt =====
-- Buttons, tables and threads on a small screen.
use battery_info.Prelude.{
  ℕ, arith, Bool, true, List, ◌∷◌, ◌==◌, ◌≡◌, ◌⊎◌, refl, false, [], Option, none, some, length,
  if◌then◌else◌,
}
use battery_info.Prelude.Text.{Text, codes}
use battery_info.Gui.Calls.{
  lasting_chars, mutex_lock, mutex_unlock, task_handler, tick_inc, usleep, thread_cancel, lvgl_task,
  lvgl_tick, Call, opa_100, green, bg_opa, checked, default, touch_button_style, button_style,
  screen_style, Gui, black, align_left, statstrip_bold_40, GuiObj, pass_button_style,
  regular_button_style,
}
use battery_info.Gui.Start.{gui_init, gui_clean_up, run_task_round, run_tick_round}
use battery_info.Gui.Styles.{declare_styles}
use battery_info.Gui.Grid.{draw_quad_grid_display}
use battery_info.Gui.Canvas.{pixel, draw_quad_grid_display-pixel}
use battery_info.Gui.Look.{setting, LooksLike, gui_init_lem, declare_styles-touch}
use battery_info.Gui.Locking.{held, IsGuarded}
use battery_info.Gui.Use.{change_use, clean_up_use, table_use, perform, perform-IsGuarded}
use battery_info.Gui.Threads.{
  Jobs, AreLocked, calls_of, cancelled_after, Threads, Step, step, end, Reach, here, next, start,
  put,
}
use battery_info.Gui.Threads.Exclusion.{IsProper, HasGone, Reach-owner, Reach-Step}
use battery_info.Gui.Threads.Cancel.{clean_up-HasGone, Reach-HasGone}
use battery_info.Gui.Widgets.{Screen, chosen_style}

-- New widgets are numbered by the calls made before.
abbrev pub screen : Screen
screen = record {
  lvgl = record { create = λ w log. some (length log) };
  canvas_width = 480;
  canvas_height = 800;
}

abbrev pub blank : GuiObj
blank = record {
  obj = none;
  label = none;
  font = statstrip_bold_40;
  text_align = align_left;
  hidden = false;
  set_color = false;
  color = black;
  btn_toggle = false;
  cb = 0;
  text = codes "-";
  obj_id = 0;
  x = 0;
  y = 0;
  w = 0;
  h = 0;
}

passed : chosen_style (codes "1 PASSED") ≡ pass_button_style
passed = refl

plain : chosen_style (codes "-") ≡ regular_button_style
plain = refl

abbrev results : List (List Text)
results = (codes "Test" ∷ codes "Result" ∷ []) ∷ (codes "Speaker" ∷ codes "PASSED" ∷ []) ∷ []

-- A table of two rows.
perform-IsGuarded_example :
    (done : List Call) × (perform screen (table_use (record { r = 2; c = 2 }) results true true) []
      ≡ some done)
    × IsGuarded done
perform-IsGuarded_example =
    perform-IsGuarded screen (table_use (record { r = 2; c = 2 }) results true true) []
      (omega arith, tt) refl

gui_init_lem_example :
    let done = (gui_init screen.lvgl (some 1) []).1 in
    IsGuarded done
    × LooksLike pass_button_style green done
    × (setting screen_style bg_opa default done ≡ none)
gui_init_lem_example = gui_init_lem screen.lvgl (some 1) (codes "1 PASSED") default [] refl

declare_styles-touch_example :
    (setting touch_button_style bg_opa checked (declare_styles []).1 ≡ none)
    × (setting button_style bg_opa checked (declare_styles []).1 ≡ some opa_100)
    × (setting pass_button_style bg_opa checked (declare_styles []).1 ≡ none)
declare_styles-touch_example = declare_styles-touch (codes "1 PASSED") checked []

draw_quad_grid_display-pixel_example :
    pixel (some 1) 479 399 (draw_quad_grid_display screen []).1 ≡ some green
draw_quad_grid_display-pixel_example =
    draw_quad_grid_display-pixel screen 479 399 [] (omega arith) (omega arith)

-- The two threads of gui.cpp, one that ends them, and others that change a label and show a table.
abbrev jobs : Jobs
jobs = record {
  task_rounds = 5 ∷ [];
  tick_rounds = 1;
  uses = λ i.
      if i == 0
      then clean_up_use ∷ []
      else change_use blank (lasting_chars (codes "1"))
        ∷ table_use (record { r = 2; c = 2 }) results true true
        ∷ [];
}

jobs-IsProper : IsProper jobs
jobs-IsProper i = proper (i == 0)
  where
    proper :
        (b : Bool)
        → AreLocked (
            if b
            then clean_up_use ∷ []
            else change_use blank (lasting_chars (codes "1"))
              ∷ table_use (record { r = 2; c = 2 }) results true true
              ∷ [])
    proper true = (tt, tt)
    proper false = (tt, ((omega arith, tt), tt))

-- A call of one thread.
abbrev called : Threads → ℕ → Call → List Call → Option ℕ → Threads
called t i c cs o = record {
  left = put t.left i cs;
  owner = o;
  cancelled = cancelled_after c t.cancelled;
  log = c ∷ t.log;
}

abbrev locked_by_task : Threads
locked_by_task =
    called (start screen jobs) 0 mutex_lock (task_handler ∷ mutex_unlock ∷ usleep 5 ∷ []) (some 0)

task-Reach : Reach (start screen jobs) locked_by_task
unfolding calls_of run_task_round
task-Reach = next here (step 0 _ _ (some 0) refl refl)

Reach-owner_example : (locked_by_task.owner ≡ some 0) × (held locked_by_task.log ≡ some true)
Reach-owner_example =
    Reach-owner screen jobs locked_by_task 0 task_handler (mutex_unlock ∷ usleep 5 ∷ [])
      jobs-IsProper task-Reach refl refl

Reach-Step_example : ((u : Threads) × Step locked_by_task u) ⊎ ((k : ℕ) × HasGone locked_by_task k)
Reach-Step_example = Reach-Step screen jobs locked_by_task 0 jobs-IsProper task-Reach (λ e. cc)

clean_up-HasGone_example : (u : Threads) × Reach (start screen jobs) u × HasGone u 0
unfolding calls_of run_task_round gui_clean_up perform
clean_up-HasGone_example =
    clean_up-HasGone (start screen jobs) 2 5 [] [] refl (λ e. absurd (omega arith)) refl refl

-- `GuiCleanUp` has run, the task has the lock again, ends with it, and the other thread waits.
abbrev cleaned : Threads
cleaned =
    called
      (called
        (called
          (called
            (called (start screen jobs) 2 mutex_lock
              (thread_cancel lvgl_task ∷ thread_cancel lvgl_tick ∷ mutex_unlock ∷ []) (some 2))
            2 (thread_cancel lvgl_task) (thread_cancel lvgl_tick ∷ mutex_unlock ∷ []) (some 2))
          2 (thread_cancel lvgl_tick) (mutex_unlock ∷ []) (some 2))
        2 mutex_unlock [] none)
      0 mutex_lock (task_handler ∷ mutex_unlock ∷ usleep 5 ∷ []) (some 0)

abbrev gone : Threads
gone = record cleaned { left = put cleaned.left 0 []; log = task_handler ∷ cleaned.log }

gone-Reach : Reach (start screen jobs) gone
unfolding calls_of run_task_round gui_clean_up perform
gone-Reach =
    next
      (next
        (next
          (next (next (next here (step 2 _ _ (some 2) refl refl)) (step 2 _ _ (some 2) refl refl))
            (step 2 _ _ (some 2) refl refl))
          (step 2 _ _ none refl refl))
        (step 0 _ _ (some 0) refl refl))
      (end 0 _ _ refl refl refl)

abbrev slept : Threads
slept = called gone 1 (usleep 5000) (mutex_lock ∷ tick_inc 5 ∷ mutex_unlock ∷ []) (some 0)

slept-Reach : Reach gone slept
unfolding calls_of run_tick_round
slept-Reach = next here (step 1 _ _ (some 0) refl refl)

Reach-HasGone_example : HasGone slept 0
Reach-HasGone_example =
    Reach-HasGone screen jobs gone slept 0 jobs-IsProper gone-Reach (refl, refl, refl) slept-Reach
