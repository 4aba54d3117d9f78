-- ===== src/Battery/Gauge.antt =====
-- The gauges: the files of the battery's driver.
use battery_info.Prelude.{ℕ, zero, suc, ◌/◌, Bool, Option, none, some, if◌then◌else◌}
use battery_info.Prelude.Int.{ℤ, pos, negsuc}
use battery_info.Prelude.Text.{Text, codes}
use battery_info.Battery.State.{failed}

-- What `fscanf` with "%d" finds in a file.
pub data Scan : Type 0 where
  eof mismatch : Scan
  value : ℤ → Scan

-- A file that cannot be opened is `none`.
abbrev pub GaugeFile : Type 0
GaugeFile = Option Scan

-- The variable, -1 before the call, after `fscanf` and the test for EOF.
abbrev pub scanned : Scan → ℤ
scanned eof = failed
scanned mismatch = failed
scanned (value v) = v

-- -n
abbrev neg : ℕ → ℤ
neg zero = pos 0
neg (suc n) = negsuc n

-- The quotient, cut towards zero. The code multiplies an `int` by 0.001 or 0.0001 in double
-- precision and cuts the product: both constants lie above the true fraction by less than half a
-- unit in the last place, so for every `int` the result is this quotient.
abbrev pub trunc_div : ℤ → ℕ → ℤ
trunc_div (pos n) k = pos (n / k)
trunc_div (negsuc n) k = neg (suc n / k)

-- `GetBatteryPercentage`; the last argument tells whether `fclose` fails.
unfoldable pub get_battery_percentage : GaugeFile → Bool → ℤ
get_battery_percentage none close_fails = failed
get_battery_percentage (some s) close_fails = if close_fails then failed else scanned s

-- `GetBatteryTemp`
unfoldable pub get_battery_temp : GaugeFile → ℤ
get_battery_temp none = failed
get_battery_temp (some s) = scanned s

-- `GetBatteryCurrent`: microamperes to milliamperes
unfoldable pub get_battery_current : GaugeFile → ℤ
get_battery_current none = failed
get_battery_current (some s) = trunc_div (scanned s) 1000

-- `GetBatteryVoltage`: microvolts to hundredths of a volt
unfoldable pub get_battery_voltage : GaugeFile → ℤ
get_battery_voltage none = failed
get_battery_voltage (some s) = trunc_div (scanned s) 10000

-- `GetBatteryHealth`: the first word of the file. `>>` leaves the text as it was where it finds none.
unfoldable pub get_battery_health : Option (Option Text) → Text
get_battery_health none = codes "Error"
get_battery_health (some none) = codes "N/A"
get_battery_health (some (some word)) = word
