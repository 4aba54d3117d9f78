-- ===== src/Core/Shown/Colors.antt =====
-- The colours of the labels, by what the files hold.
use battery_info.Prelude.{
  ℕ, ◌+◌, ◌-◌, ◌^◌, ◌<◌, ◌≡◌, false, ltb, leb, some, if◌then◌else◌, arith, ◌++◌,
}
use battery_info.Prelude.Int.{ℤ, pos, pos_part, ◌+ℤ◌}
use battery_info.Prelude.Text.{codes}
use battery_info.Prelude.Decimal.{decimal, to_string}
use battery_info.Gui.Calls.{red, green, orange, GuiObj}
use battery_info.Battery.Gauge.{
  value, get_battery_current, get_battery_voltage, get_battery_percentage,
}
use battery_info.Core.Monitors.{
  show, current_color, voltage_color, level_color, shown_level, battery_level_formatted,
  battery_level_round,
}

-- The colour of the current, by the microamperes of the file: red below 1 mA (so for every
-- negative number), orange from there, green from 50 mA to 700 mA and the fraction above, orange
-- from 701 mA, red from 850 mA.
current_color-band :
    (v : ℤ)
    → current_color (get_battery_current (some (value v))) ≡ (
        let n = pos_part v in
        if ltb n 1000
        then red
        else if ltb n 50000
        then orange
        else if ltb n 701000
        then green
        else if ltb n 850000
        then orange
        else red)
unfolding get_battery_current
current_color-band v = ground arith

-- The colour of the voltage, by the microvolts of the file: red below 3.5 V, green below 5.51 V, red
-- again below 5.61 V, and orange from there.
voltage_color-band :
    (v : ℤ)
    → voltage_color (get_battery_voltage (some (value v))) ≡ (
        let n = pos_part v in
        if ltb n 3500000
        then red
        else if ltb n 5510000
        then green
        else if ltb n 5610000
        then red
        else orange)
unfolding get_battery_voltage
voltage_color-band v = ground arith

shown_level-percent :
    (n : ℕ) → n < 2 ^ 31 - 1 → shown_level (some (value (pos n))) false ≡ pos (n + 1)
unfolding shown_level get_battery_percentage ◌+ℤ◌
shown_level-percent n h = ground arith

level_color-percent :
    (n : ℕ)
    → level_color (pos (n + 1)) ≡ (if leb 74 n then green else if leb 24 n then orange else red)
level_color-percent n = ground arith

-- A capacity of `n` per cent that is read and closed is shown as `n + 1` per cent, green from 74,
-- orange from 24, red below; it is below the greatest `int`.
battery_level_round-percent :
    (n : ℕ) (obj : GuiObj)
    → n < 2 ^ 31 - 1
    → battery_level_round (some (value (pos n))) false obj
      ≡ show battery_level_formatted
          (if leb 74 n then green else if leb 24 n then orange else red)
          (decimal (n + 1) ++ codes "%")
          obj
unfolding battery_level_round to_string
battery_level_round-percent n obj h = rw (shown_level-percent n h, level_color-percent n)
