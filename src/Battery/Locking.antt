-- ===== src/Battery/Locking.antt =====
-- battery_lock, and the pointers after an initialisation.
use battery_info.Prelude.{
  ◌≡◌, refl, ◌≢◌, ◌⊎◌, inl, inr, true, false, none, some, Option-cases, arith,
}
use battery_info.Prelude.Int.{ℤ, pos}
use battery_info.Battery.State.{Battery, Gpiod, failed}
use battery_info.Battery.Gpio.{initialize_battery_gpios, battery_init, run_battery_monitor_cleanup}

-- The four pointers are not null.
pub record IsOpen (b : Battery) : Type 0 where
  pub dock_chip : b.in_dock_chip ≢ none
  pub dock_line : b.in_dock_line ≢ none
  pub charger_chip : b.charging_chip ≢ none
  pub charger_line : b.charging_line ≢ none

-- The result of `Battery_Init` on a lock that is free: 0 with the lines open and the lock free
-- again, or -1 with the lock held.
abbrev pub Outcome : ℤ × Battery → Type 0
Outcome (r, b) = ((r ≡ pos 0) × IsOpen b × (b.locked ≡ false)) ⊎ ((r ≡ failed) × (b.locked ≡ true))

init-Outcome : (g : Gpiod) (b : Battery) (r : ℤ × Battery) → battery_init g b ≡ some r → Outcome r
unfolding battery_init initialize_battery_gpios
init-Outcome g b r h = ground arith

battery_init-ne-none : (g : Gpiod) (b : Battery) → b.locked ≡ false → battery_init g b ≢ none
unfolding battery_init
battery_init-ne-none g b free = ground arith

-- `Battery_Init` on a free lock returns: 0 with the four pointers set and the lock free again, or
-- -1 with the lock still held.
pub battery_init_returns :
    (g : Gpiod) (b : Battery)
    → b.locked ≡ false
    → (r : ℤ × Battery) × (battery_init g b ≡ some r) × Outcome r
battery_init_returns g b free = elim (Option-cases (battery_init g b)) [
  | inl e ↦ absurd (battery_init-ne-none g b free e)
  | inr (r, e) ↦ (r, e, init-Outcome g b r e)
]

-- After a `Battery_Init` that returned -1, neither a further `Battery_Init` nor
-- `RunBatteryMonitorCleanup` ever returns, whatever the GPIO library answers.
pub battery_init-stuck :
    (g g' : Gpiod) (b b1 : Battery)
    → battery_init g b ≡ some (failed, b1)
    → (battery_init g' b1 ≡ none) × (run_battery_monitor_cleanup b1 ≡ none)
unfolding battery_init run_battery_monitor_cleanup
battery_init-stuck g g' b b1 h = elim (init-Outcome g b (failed, b1) h) [
  | inl (e, o, f) ↦ cc
  | inr (e, held) ↦ simp held (refl, refl)
]
