-- ===== src/Gui/Grid.antt =====
-- `DrawQuadGridDisplay` of gui.cpp: four coloured rectangles with their names, for a second.
use battery_info.Prelude.{ℕ, true, none}
use battery_info.Prelude.Text.{Text, codes}
use battery_info.Gui.Calls.{
  Color, red, green, blue, yellow, black, white, background, canvas, Handle, mutex_lock,
  mutex_unlock, usleep, set_canvas_buffer, canvas_fill_bg, draw_rect, draw_text, set_hidden, delete,
  ◌>>=◌, ◌>>◌, Gui, call, create,
}
use battery_info.Gui.Widgets.{Screen}

-- A quarter of the screen: where its rectangle begins, its colour, and its text with its line and its
-- colour. The rectangle is 240 wide and 400 high, and the text is centred over its width.
unfoldable pub draw_quarter : Handle → ℕ → ℕ → Color → ℕ → Color → Text → Gui (Unit {0})
draw_quarter h x y color text_y text_color text = do
  call mutex_lock
  call (draw_rect h x y 240 400 color)
  call (draw_text h x text_y 240 text_color text)
  call mutex_unlock

-- `DrawQuadGridDisplay`
unfoldable pub draw_quad_grid_display : Screen → Gui (Unit {0})
unfolding draw_quarter
draw_quad_grid_display s = do
  call mutex_lock
  h ← create s.lvgl canvas none
  call (set_canvas_buffer h)
  call (canvas_fill_bg h background)
  call mutex_unlock
  draw_quarter h 0 0 red 180 white (codes "RED")
  call (usleep 250000)
  draw_quarter h 240 0 green 180 white (codes "GREEN")
  call (usleep 250000)
  draw_quarter h 0 400 blue 575 white (codes "BLUE")
  call (usleep 250000)
  draw_quarter h 240 400 yellow 575 black (codes "YELLOW")
  call (usleep 1000000)
  call mutex_lock
  call (set_hidden h true)
  call (delete h)
  call mutex_unlock
