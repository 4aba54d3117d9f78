-- ===== src/Gui/Start.antt =====
-- `GuiInit`, `GuiCleanUp` and one round of each of the two threads of gui.cpp.
use battery_info.Prelude.{ℕ}
use battery_info.Gui.Calls.{
  lv_init, fbdev_init, evdev_init, disp_buf_init, disp_drv_init, disp_drv_register, indev_drv_init,
  indev_drv_register, lvgl_task, lvgl_tick, Handle, mutex_lock, mutex_unlock, driver, thread_create,
  thread_cancel, task_handler, tick_inc, usleep, Lvgl, Gui, ◌>>◌, call,
}
use battery_info.Gui.Styles.{declare_styles, create_screen}

-- The start of LVGL and of its drivers in `GuiInit`; the fields of the two drivers are set in between.
unfoldable pub start_drivers : Gui (Unit {0})
start_drivers = do
  call (driver lv_init)
  call (driver fbdev_init)
  call (driver evdev_init)
  call (driver disp_buf_init)
  call (driver disp_drv_init)
  call (driver disp_drv_register)
  call (driver indev_drv_init)
  call (driver indev_drv_register)

-- `GuiInit`, whose result is always 0. The second argument is the active screen.
unfoldable pub gui_init : Lvgl → Handle → Gui (Unit {0})
unfolding start_drivers
gui_init lvgl active = do
  start_drivers
  call (thread_create lvgl_task)
  call (thread_create lvgl_tick)
  create_screen lvgl active
  declare_styles

-- `GuiCleanUp`
unfoldable pub gui_clean_up : Gui (Unit {0})
gui_clean_up = do
  call mutex_lock
  call (thread_cancel lvgl_task)
  call (thread_cancel lvgl_tick)
  call mutex_unlock

-- A round of `RunTaskThread`; the argument is what `lv_task_handler` returns.
unfoldable pub run_task_round : ℕ → Gui (Unit {0})
run_task_round time_till_next = do
  call mutex_lock
  call task_handler
  call mutex_unlock
  call (usleep time_till_next)

-- A round of `RunTickThread`
unfoldable pub run_tick_round : Gui (Unit {0})
run_tick_round = do call (usleep 5000); call mutex_lock; call (tick_inc 5); call mutex_unlock
