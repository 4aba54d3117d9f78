-- ===== src/Battery/State.antt =====
-- The static variables of Battery.cpp, and what libgpiod answers.
use battery_info.Prelude.{ℕ, Bool, true, false, List, [], ◌∷◌, Option, none}
use battery_info.Prelude.Int.{ℤ, negsuc}
use battery_info.Prelude.Text.{Text}

abbrev pub in_dock_pin : ℕ
in_dock_pin = 5

abbrev pub charging_pin : ℕ
charging_pin = 15

-- `line_id`, without the end marker.
pub data LineId : Type 0 where
  line_in_base line_charging : LineId

-- What the code gives back to libgpiod.
pub data Effect : Type 0 where
  released : Option ℕ → Effect
  closed : Option ℕ → Effect

-- Pointers to chips and lines are numbers, and null is `none`. `power_lines` is its two lines; their
-- pins do not change. `locked` tells whether battery_lock is held. `effects` is the newest first.
pub record Battery : Type 0 where
  pub in_base_power_line : Option ℕ
  pub charging_power_line : Option ℕ
  pub in_dock_chip : Option ℕ
  pub in_dock_line : Option ℕ
  pub charging_chip : Option ℕ
  pub charging_line : Option ℕ
  pub is_in_dock : ℤ
  pub is_charging : ℤ
  pub locked : Bool
  pub effects : List Effect

abbrev pub initial : Battery
initial = record {
  in_base_power_line = none;
  charging_power_line = none;
  in_dock_chip = none;
  in_dock_line = none;
  charging_chip = none;
  charging_line = none;
  is_in_dock = negsuc 0;
  is_charging = negsuc 0;
  locked = false;
  effects = [];
}

-- The answers of libgpiod. A null pointer that the code passes is `none`.
pub record Gpiod : Type 0 where
  pub chip_open_by_name : Text → Option ℕ
  pub chip_get_line : Option ℕ → ℕ → Option ℕ
  pub line_request_falling_edge_events_fails : ℕ → Bool
  pub line_get_value : Option ℕ → ℤ
  pub line_event_wait_bulk : List ℕ → Option (List ℕ)  -- the lines with an event; none: a result ≤ 0
  pub line_offset : ℕ → ℕ

abbrev pub pin : LineId → ℕ
pin LineId.line_in_base = in_dock_pin
pin LineId.line_charging = charging_pin

-- `power_lines[id].line`
abbrev pub power_line : LineId → Battery → Option ℕ
power_line LineId.line_in_base b = b.in_base_power_line
power_line LineId.line_charging b = b.charging_power_line

abbrev pub set_power_line : LineId → Option ℕ → Battery → Battery
set_power_line LineId.line_in_base l b = record b { in_base_power_line = l }
set_power_line LineId.line_charging l b = record b { charging_power_line = l }

abbrev pub is_null : Option ℕ → Bool
is_null none = true
is_null (Option.some _) = false

-- The result -1.
abbrev pub failed : ℤ
failed = negsuc 0

abbrev pub emit : Effect → Battery → Battery
emit e b = record b { effects = e ∷ b.effects }
