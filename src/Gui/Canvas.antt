-- ===== src/Gui/Canvas.antt =====
-- The colours of a canvas behind the calls of gui.cpp.
use battery_info.Prelude.{
  ℕ, ◌+◌, ◌<◌, ◌≡◌, ◌&&◌, ltb, leb, List, [], ◌∷◌, Option, none, some, if◌then◌else◌, arith,
}
use battery_info.Gui.Calls.{
  Color, red, green, blue, yellow, Handle, handle_eq, handle_eq_refl, Call, draw_rect, mutex_lock,
  canvas, canvas_fill_bg,
}
use battery_info.Gui.Widgets.{Screen}
use battery_info.Gui.Grid.{draw_quad_grid_display}

-- The colour of a canvas at a point, under its texts: the last rectangle over the point, or the
-- background.
abbrev pub pixel : Handle → ℕ → ℕ → List Call → Option Color
pixel k x y [] = none
pixel k x y (draw_rect h x0 y0 w t c ∷ cs) =
    let rest = pixel k x y cs in
    if handle_eq k h && leb x0 x && ltb x (x0 + w) && leb y0 y && ltb y (y0 + t)
    then some c
    else rest
pixel k x y (canvas_fill_bg h c ∷ cs) =
    let rest = pixel k x y cs in if handle_eq k h then some c else rest
pixel k x y (c ∷ cs) = pixel k x y cs

-- The rectangles of `DrawQuadGridDisplay` colour every point of a screen of 480 by 800 points, by its
-- quarter: red and green above, and blue and yellow below.
pub draw_quad_grid_display-pixel :
    (s : Screen) (x y : ℕ) (log : List Call)
    → x < 480
    → y < 800
    → pixel (s.lvgl.create canvas (mutex_lock ∷ log)) x y (draw_quad_grid_display s log).1
      ≡ some (
          if ltb y 400
          then (if ltb x 240 then red else green)
          else (if ltb x 240 then blue else yellow))
unfolding draw_quad_grid_display
draw_quad_grid_display-pixel s x y log hx hy =
    ground (arith, handle_eq_refl (s.lvgl.create canvas (mutex_lock ∷ log)))
