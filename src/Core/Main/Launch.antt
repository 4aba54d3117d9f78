-- ===== src/Core/Main/Launch.antt =====
-- What holds of core.cpp from the start of `main_menu` on.
use mathlib.Core.Option
use mathlib.Core.Path.{subst}
use battery_info.Prelude.{
  ℕ, ◌≡◌, ◌⊎◌, inl, inr, refl, ap, sym, ◌∙◌, Bool, true, false, ◌==◌, ◌||◌, List, [], ◌∷◌, some,
  if◌then◌else◌, arith,
}
use battery_info.Gui.Widgets.{Screen}
use battery_info.Battery.State.{Battery, Gpiod}
use battery_info.Audio.Control.{Audio, may_play}
use battery_info.Gui.Locking.{IsGuarded, usleep-IsGuarded}
use battery_info.Battery.Locking.{battery_init_returns}
use battery_info.Gui.Calls.{Handle}
use battery_info.Gui.Start.{gui_init}
use battery_info.Gui.Look.{gui_init-IsGuarded}
use battery_info.Core.Program.{Happening, happen, Later}
use battery_info.Core.Program.Kept.{IsWell}
use battery_info.Core.Program.Leaves.{Leaves, happen-Leaves}
use battery_info.Core.Brightness.{IsShown}
use battery_info.Core.Setup.{
  add_adjust_brightness-IsGuarded, Keeps, title_row-Keeps, current_row-Keeps, voltage_row-Keeps,
  battery_health_row-Keeps, battery_temp_row-Keeps, battery_level_row-Keeps, in_dock_row-Keeps,
  charging_row-Keeps, brightness_row-Keeps,
}
use battery_info.Core.App.{App, Monitor, set_screen_brightness}
use battery_info.Core.Menu.{
  title_row, current_row, voltage_row, battery_health_row, battery_temp_row, battery_level_row,
  in_dock_row, charging_row, brightness_row, name_label, value_label, add_adjust_brightness,
  create_thread, battery_ready,
}
use battery_info.Core.Program.Strings.{
  Reading, of_current, of_voltage, of_temp, of_health, of_level, of_dock, of_charging, label_of,
}
use battery_info.Core.Main.{
  Row, title, current, voltage, battery_health, battery_temp, battery_level, in_dock, charging,
  brightness, Part, show_row, init_battery, create, row, run_part, Session, Turn, Reach, main,
  main_start, menu_parts, is_finished,
}

-- The program behind a row of the menu.
abbrev behind : Screen → Row → App → App
behind s r a = let (made, log) = row r s a a.calls in record made { calls = log }

abbrev row_of : Reading → Row
row_of of_current = current
row_of of_voltage = voltage
row_of of_temp = battery_temp
row_of of_health = battery_health
row_of of_level = battery_level
row_of of_dock = in_dock
row_of of_charging = charging

abbrev number : Row → ℕ
number title = 0
number current = 1
number voltage = 2
number battery_health = 3
number battery_temp = 4
number battery_level = 5
number in_dock = 6
number charging = 7
number brightness = 8

row-set_color :
    (s : Screen) (r : Row) (x : Reading) (a : App)
    → (label_of x (behind s r a)).set_color
      ≡ (if number (row_of x) == number r then true else (label_of x a).set_color)
unfolding row title_row current_row voltage_row battery_health_row battery_temp_row
    battery_level_row in_dock_row charging_row brightness_row name_label value_label
row-set_color s r x a = ground arith

row-rest :
    (s : Screen) (r : Row) (a : App)
    → let b = behind s r a in
      (b.audio ≡ a.audio) × (b.battery ≡ a.battery) × (IsShown a → IsShown b)
unfolding row title_row current_row voltage_row battery_health_row battery_temp_row
    battery_level_row in_dock_row charging_row brightness_row name_label value_label
row-rest s title a = (refl, refl, λ h. h)
row-rest s current a = (refl, refl, λ h. h)
row-rest s voltage a = (refl, refl, λ h. h)
row-rest s battery_health a = (refl, refl, λ h. h)
row-rest s battery_temp a = (refl, refl, λ h. h)
row-rest s battery_level a = (refl, refl, λ h. h)
row-rest s in_dock a = (refl, refl, λ h. h)
row-rest s charging a = (refl, refl, λ h. h)
row-rest s brightness a = (refl, refl, λ h. h)

row-IsGuarded :
    (s : Screen) (r : Row) (a : App) → IsGuarded a.calls → IsGuarded (behind s r a).calls
unfolding row Keeps
row-IsGuarded s title a h = title_row-Keeps s a a.calls h
row-IsGuarded s current a h = current_row-Keeps s a a.calls h
row-IsGuarded s voltage a h = voltage_row-Keeps s a a.calls h
row-IsGuarded s battery_health a h = battery_health_row-Keeps s a a.calls h
row-IsGuarded s battery_temp a h = battery_temp_row-Keeps s a a.calls h
row-IsGuarded s battery_level a h = battery_level_row-Keeps s a a.calls h
row-IsGuarded s in_dock a h = in_dock_row-Keeps s a a.calls h
row-IsGuarded s charging a h = charging_row-Keeps s a a.calls h
row-IsGuarded s brightness a h = brightness_row-Keeps s a a.calls h

-- The row, or `Battery_Init`, is still to come.
abbrev awaits_row : ℕ → List Part → Bool
awaits_row n [] = false
awaits_row n (show_row r ∷ ps) = n == number r || awaits_row n ps
awaits_row n (p ∷ ps) = awaits_row n ps

abbrev awaits_battery : List Part → Bool
awaits_battery [] = false
awaits_battery (init_battery ∷ ps) = true
awaits_battery (p ∷ ps) = awaits_battery ps

abbrev InitsOnce : List Part → Type 0
InitsOnce [] = Unit
InitsOnce (init_battery ∷ ps) = (awaits_battery ps ≡ false) × InitsOnce ps
InitsOnce (p ∷ ps) = InitsOnce ps

-- The program with some parts of `main_menu` to come, from a start with this audio.
record IsGoing (audio : Audio) (ps : List Part) (a : App) : Type 0 where
  once : InitsOnce ps
  guarded : IsGuarded a.calls
  shown : IsShown a
  silent : may_play audio ≡ false → a.audio ≡ audio
  free : awaits_battery ps ≡ true → a.battery.locked ≡ false
  colored :
      (x : Reading) → (awaits_row (number (row_of x)) ps ≡ true) ⊎ ((label_of x a).set_color ≡ true)

row-IsGoing :
    {audio : Audio} (s : Screen) (r : Row) (ps : List Part) (a : App)
    → IsGoing audio (show_row r ∷ ps) a
    → IsGoing audio ps (behind s r a)
row-IsGoing s r ps a v =
    let (audio, battery, shown) = row-rest s r a in
    record {
      once = v.once;
      guarded = row-IsGuarded s r a v.guarded;
      shown = shown v.shown;
      silent = λ h. audio ∙ v.silent h;
      free = λ h. ap (λ b. b.locked) battery ∙ v.free h;
      colored = λ x. rw (row-set_color s r x a) (colors x (v.colored x));
    }
  where
    colors :
        (x : Reading)
        → (number (row_of x) == number r || awaits_row (number (row_of x)) ps ≡ true)
          ⊎ ((label_of x a).set_color ≡ true)
        → (awaits_row (number (row_of x)) ps ≡ true)
          ⊎ ((if number (row_of x) == number r then true else (label_of x a).set_color) ≡ true)
    colors x h = ground arith

ready-set_color :
    (x : Reading) (b : Battery) (a : App)
    → (label_of x (battery_ready b a)).set_color ≡ (label_of x a).set_color
ready-set_color x b a = ground arith

created-set_color :
    (x : Reading) (w : Monitor → Bool) (m : Monitor) (a : App)
    → (label_of x (create_thread w m a)).set_color ≡ (label_of x a).set_color
created-set_color x w m a = ground arith

run_part-IsGoing :
    {audio : Audio} (s : Screen) (g : Gpiod) (w : Monitor → Bool) (p : Part) (ps : List Part)
    (a : App)
    → IsGoing audio (p ∷ ps) a
    → (b : App) × (run_part s g w p a ≡ some b) × IsGoing audio ps b
unfolding run_part
run_part-IsGoing s g w (show_row r) ps a v = (_, refl, row-IsGoing s r ps a v)
run_part-IsGoing s g w init_battery ps a v =
    let (r, e, o) = battery_init_returns g a.battery (v.free refl) in
    let (last, once) = v.once in
    (
      battery_ready r.1 a,
      rw e refl,
      record {
        once = once;
        guarded = usleep-IsGuarded 1000000 a.calls v.guarded;
        shown = v.shown;
        silent = v.silent;
        free = λ h. (let bad = sym last ∙ h in cc);
        colored = λ x. rw (ready-set_color x r.1 a) (v.colored x);
      },
    )
run_part-IsGoing s g w (create m) ps a v = (
  create_thread w m a,
  refl,
  record {
    once = v.once;
    guarded = v.guarded;
    shown = v.shown;
    silent = v.silent;
    free = v.free;
    colored = λ x. rw (created-set_color x w m a) (v.colored x);
  },
)

happen-IsGoing :
    {audio : Audio} (h : Happening) (ps : List Part) (a b : App)
    → IsGoing audio ps a
    → happen h a ≡ some b
    → IsGoing audio ps b
happen-IsGoing h ps a b v ran =
    let left = subst (Later (Leaves a)) (ran) (happen-Leaves h a) in
    record {
      once = v.once;
      guarded = left.guarded v.guarded;
      shown = left.shown v.shown;
      silent = λ q. left.silent (ap may_play (v.silent q) ∙ q) ∙ v.silent q;
      free = λ k. ap (λ b. b.locked) left.battery ∙ v.free k;
      colored = λ x. rw (left.set_color x) (v.colored x);
    }

Turn-IsGoing :
    {audio : Audio} {w : Monitor → Bool} {s : Screen} {l m : Session}
    → Turn w s l m
    → IsGoing audio l.menu l.app
    → IsGoing audio m.menu m.app
Turn-IsGoing {w} {s} {l} (Turn.menu_turn g p ps b live e ran) v =
    let (b', ran', v') = run_part-IsGoing s g w p ps l.app (rw e at v) in
    let same = Option.some-injective _ _ (sym ran ∙ ran') in rw same v'
Turn-IsGoing {l} (Turn.other_turn h b live can ran) v = happen-IsGoing h l.menu l.app b v ran
Turn-IsGoing (Turn.wake e) v = v
Turn-IsGoing (Turn.join e done) v = v

Reach-IsGoing :
    {audio : Audio} {w : Monitor → Bool} {s : Screen} {l m : Session}
    → Reach w s l m
    → IsGoing audio l.menu l.app
    → IsGoing audio m.menu m.app
Reach-IsGoing Reach.here v = v
Reach-IsGoing (Reach.next r t) v = Turn-IsGoing t (Reach-IsGoing r v)

main_start-IsGuarded :
    (s : Screen) (active : Handle) (a : App)
    → IsGuarded a.calls
    → IsGuarded (main_start s active a).calls
unfolding main_start set_screen_brightness
main_start-IsGuarded s active a h =
    let bright = set_screen_brightness a.brightness a in
    add_adjust_brightness-IsGuarded s
      (record bright { calls = (gui_init s.lvgl active bright.calls).1 })
      (gui_init-IsGuarded s.lvgl active a.calls h)

awaits_all : (x : Reading) → awaits_row (number (row_of x)) menu_parts ≡ true
awaits_all x = ground arith

main-IsGoing :
    (s : Screen) (active : Handle) (a : App)
    → a.battery.locked ≡ false
    → IsGuarded a.calls
    → let l = main s active a in IsGoing a.audio l.menu l.app
unfolding main main_start set_screen_brightness add_adjust_brightness
main-IsGoing s active a free h = record {
  once = (refl, tt);
  guarded = main_start-IsGuarded s active a h;
  shown = (a.commands, refl, refl);
  silent = λ q. refl;
  free = λ k. free;
  colored = λ x. inl (awaits_all x);
}

-- Whatever happens from the start of `main_menu` on (its parts, clicks, rounds of the threads that it
-- has created, and the wake-up of `main`, in any order, whatever libgpiod and pthread_create answer), and
-- wherever it stops: LVGL has been called under the lock only, the text and the last command to
-- the backlight hold the brightness, and the audio, its queue of messages and the speaker are as they
-- were, so that no click makes a sound. At the start of the program the audio does not run, the locks
-- of LVGL and of the battery are free, and each call so far was made under the lock.
pub main-silent :
    (w : Monitor → Bool) (s : Screen) (active : Handle) (a : App) (l : Session)
    → a.battery.locked ≡ false
    → IsGuarded a.calls
    → may_play a.audio ≡ false
    → Reach w s (main s active a) l
    → IsGuarded l.app.calls × IsShown l.app × (l.app.audio ≡ a.audio)
main-silent w s active a l free h q r =
    let v = Reach-IsGoing r (main-IsGoing s active a free h) in (v.guarded, v.shown, v.silent q)

-- With no row to come the labels take a colour.
no_rows :
    {audio : Audio} {a : App} (x : Reading) → IsGoing audio [] a → (label_of x a).set_color ≡ true
no_rows {a} x v = elim (v.colored x) [ inl bad ↦ (let no = bad in cc) | inr e ↦ e ]

done-IsWell : {audio : Audio} {a : App} → IsGoing audio [] a → IsWell a
done-IsWell v = record {
  guarded = v.guarded;
  colored = record {
    current_ok = no_rows of_current v;
    voltage_ok = no_rows of_voltage v;
    health_ok = no_rows of_health v;
    temp_ok = no_rows of_temp v;
    level_ok = no_rows of_level v;
    in_dock_ok = no_rows of_dock v;
    charging_ok = no_rows of_charging v;
  };
  shown = v.shown;
}

completes :
    {audio : Audio} (w : Monitor → Bool) (s : Screen) (g : Gpiod) (k l : Session) (ps : List Part)
    → is_finished l.main ≡ false
    → l.menu ≡ ps
    → IsGoing audio ps l.app
    → Reach w s k l
    → (m : Session) × Reach w s k m × (m.menu ≡ []) × IsWell m.app
completes w s g k l [] live e v r = (l, r, e, done-IsWell v)
completes w s g k l (p ∷ ps) live e v r =
    let (b, ran, v') = run_part-IsGoing s g w p ps l.app v in
    completes w s g k (record l { app = b; menu = ps }) ps live refl v'
      (Reach.next r (Turn.menu_turn g p ps b live e ran))

-- In every state that the program reaches from the start of `main_menu` on, while `main` has not
-- finished, `main_menu` can come to its end, whatever libgpiod answers to it and pthread_create for
-- the eight threads; nothing that happened before holds it up. There the labels of values take a
-- colour, LVGL has been called under the lock only, and the text and the last command to the backlight
-- hold the brightness. At the start the locks of LVGL and of the battery are free, and each call so far
-- was made under the lock.
pub main_lem :
    (w : Monitor → Bool) (s : Screen) (g : Gpiod) (active : Handle) (a : App) (l : Session)
    → a.battery.locked ≡ false
    → IsGuarded a.calls
    → Reach w s (main s active a) l
    → is_finished l.main ≡ false
    → (m : Session) × Reach w s l m × (m.menu ≡ []) × IsWell m.app
main_lem w s g active a l free h r live =
    completes w s g l l l.menu live refl (Reach-IsGoing r (main-IsGoing s active a free h))
      Reach.here
