-- ===== src/Core/Program/Stale.antt =====
-- The labels of core.cpp that point to strings that are gone.
use mathlib.Core.Path.{subst}
use battery_info.Prelude.{◌≡◌, List, [], ◌∷◌, Option, none, some}
use battery_info.Prelude.Text.{Text}
use battery_info.Gui.Calls.{Buffer, Color}
use battery_info.Core.Monitors.{
  show, shown_text, battery_current_round, battery_voltage_round, battery_health_round,
  battery_temp_round, battery_level_round, in_dock_round, battery_charging_round,
}
use battery_info.Core.App.{App}
use battery_info.Core.Shown.Display.{show-dangling}
use battery_info.Core.Program.{
  Happening, current_read, voltage_read, temp_read, health_read, level_read, dock_read,
  charging_read, brightness_read, pressed, set_voltage, set_temp, happen, happenings, Later,
  Later-then, Later-Unit,
}
use battery_info.Core.Program.Strings.{
  Reading, of_current, of_voltage, of_temp, of_health, of_level, of_dock, of_charging, label_of,
  Dangling, handles, pick, pick-handles, show-obj, happen-Follows, Follows,
}

-- The reading whose thread makes the round.
abbrev pub reading_of : Happening → Option Reading
reading_of (current_read f) = some of_current
reading_of (voltage_read f) = some of_voltage
reading_of (temp_read f) = some of_temp
reading_of (health_read f) = some of_health
reading_of (level_read f b) = some of_level
reading_of (dock_read g) = some of_dock
reading_of (charging_read g) = some of_charging
reading_of brightness_read = none
reading_of (pressed w p) = none

-- A round of the thread of the reading is in the row.
pub data IsRead (r : Reading) : List Happening → Type 0 where
  read_now : {h : Happening} {hs : List Happening} → reading_of h ≡ some r → IsRead r (h ∷ hs)
  read_later : {h : Happening} {hs : List Happening} → IsRead r hs → IsRead r (h ∷ hs)

-- The label of the reading dangles.
IsStale : Reading → App → Type 0
IsStale r a = Dangling (pick r (handles a)) a.calls

happen-IsStale :
    (r : Reading) (h : Happening) (a : App) → IsStale r a → Later (IsStale r) (happen h a)
unfolding IsStale
happen-IsStale r h a d = kept (happen h a) (happen-Follows h a)
  where
    kept : (o : Option App) → Later (Follows a) o → Later (IsStale r) o
    kept none f = tt
    kept (some b) f = rw f.same (f.still _ d)

happenings-IsStale :
    (r : Reading) (hs : List Happening) (a : App)
    → IsStale r a
    → Later (IsStale r) (happenings hs a)
unfolding happenings
happenings-IsStale r [] a d = d
happenings-IsStale r (h ∷ hs) a d =
    Later-then (IsStale r) (happen h a) hs (happen-IsStale r h a d)
      (λ b e. happenings-IsStale r hs b e)

StaleOf : Option Reading → App → Type 0
StaleOf none a = Unit
StaleOf (some r) a = IsStale r a

set_voltage-IsStale :
    (a : App) (b : Buffer) (c : Color) (text : Option Text)
    → Later (IsStale of_voltage) (set_voltage a (shown_text b c a.voltage text))
unfolding IsStale pick handles
set_voltage-IsStale a b c none = tt
set_voltage-IsStale a b c (some t) =
    rw (show-obj b c t a.voltage a.calls) (_, show-dangling b c t a.voltage a.calls)

set_temp-IsStale :
    (a : App) (b : Buffer) (c : Color) (text : Option Text)
    → Later (IsStale of_temp) (set_temp a (shown_text b c a.battery_temp text))
unfolding IsStale pick handles
set_temp-IsStale a b c none = tt
set_temp-IsStale a b c (some t) =
    rw (show-obj b c t a.battery_temp a.calls) (_, show-dangling b c t a.battery_temp a.calls)

-- A round leaves its own label with a string that ends with it.
happen-StaleOf : (h : Happening) (a : App) → Later (StaleOf (reading_of h)) (happen h a)
unfolding happen battery_current_round battery_level_round battery_health_round in_dock_round
    battery_charging_round battery_voltage_round battery_temp_round StaleOf IsStale pick handles
    show
happen-StaleOf (current_read f) a = (_, show-dangling _ _ _ a.current _)
happen-StaleOf (voltage_read f) a = set_voltage-IsStale a _ _ _
happen-StaleOf (temp_read f) a = set_temp-IsStale a _ _ _
happen-StaleOf (health_read f) a = (_, show-dangling _ _ _ a.battery_health _)
happen-StaleOf (level_read f b) a = (_, show-dangling _ _ _ a.battery_level _)
happen-StaleOf (dock_read g) a = (_, show-dangling _ _ _ a.in_dock _)
happen-StaleOf (charging_read g) a = (_, show-dangling _ _ _ a.charging _)
happen-StaleOf brightness_read a = tt
happen-StaleOf (pressed w p) a = tt

happenings-pick :
    (r : Reading) (hs : List Happening) (a : App)
    → IsRead r hs
    → Later (IsStale r) (happenings hs a)
unfolding happenings StaleOf
happenings-pick r [] a x = elim x [ ]
happenings-pick r (h ∷ hs) a (read_now e) =
    let own : Later (StaleOf (some r)) (happen h a) = rw e at (happen-StaleOf h a) in
    Later-then (IsStale r) (happen h a) hs own (λ b d. happenings-IsStale r hs b d)
happenings-pick r (h ∷ hs) a (read_later e) =
    Later-then (IsStale r) (happen h a) hs (Later-Unit (happen h a))
      (λ b d. happenings-pick r hs b e)

-- Once a thread that watches a reading has made a round, its label never again has a text between
-- two rounds: what it has is the place of a string of the thread that no longer exists, for the
-- thread passes its local string as a static text. This is so after every row of rounds and events
-- that the program survives and that has such a round.
pub happenings-Dangling :
    (r : Reading) (hs : List Happening) (a b : App)
    → IsRead r hs
    → happenings hs a ≡ some b
    → Dangling (label_of r b).obj b.calls
unfolding IsStale
happenings-Dangling r hs a b read e =
    let stale = subst (Later (IsStale r)) (e) (happenings-pick r hs a read) in
    rw (← pick-handles r b) stale
