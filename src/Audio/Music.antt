-- ===== src/Audio/Music.antt =====
-- `GetTrack` of Audio.c, over the tables of Source/Libs/Audio/Music.h.
pub mod Notes
pub mod Tables
pub mod Shape
pub mod Scale
use battery_info.Prelude.{ℕ, List, Option, none, some, length}
use battery_info.Audio.Track.{
  AudioTrackId, scale, alarm1, alarm2, alert1, alert2, bad_input, boot_tune, docked, key_press,
  long, quick, quick_three, scan, nova, max_tracks,
}
use Tables.{
  scale_melody, scale_rhythm, alarm1_melody, alarm1_rhythm, alarm2_melody, alarm2_rhythm,
  alert1_melody, alert1_rhythm, alert2_melody, alert2_rhythm, bad_input_melody, bad_input_rhythm,
  ode_to_joy_melody, ode_to_joy_rhythm, docked_melody, docked_rhythm, key_press_melody,
  key_press_rhythm, long_melody, long_rhythm, quick_melody, quick_rhythm, quick_three_melody,
  quick_three_rhythm, scan_melody, scan_rhythm, nova_melody, nova_rhythm,
}

-- What `GetTrack` writes through its three pointers.
pub record Track : Type 0 where
  pub melody : List ℕ
  pub rhythm : List ℕ
  pub len : ℕ

-- The length is that of the melody's array.
abbrev pub track : List ℕ → List ℕ → Track
track m r = record { melody = m; rhythm = r; len = length m }

-- `none` is the result -1, by which nothing is written. BootTune is another name of OdeToJoy.
unfoldable pub get_track : AudioTrackId → Option Track
get_track scale = some (track scale_melody scale_rhythm)
get_track alarm1 = some (track alarm1_melody alarm1_rhythm)
get_track alarm2 = some (track alarm2_melody alarm2_rhythm)
get_track alert1 = some (track alert1_melody alert1_rhythm)
get_track alert2 = some (track alert2_melody alert2_rhythm)
get_track bad_input = some (track bad_input_melody bad_input_rhythm)
get_track boot_tune = some (track ode_to_joy_melody ode_to_joy_rhythm)
get_track docked = some (track docked_melody docked_rhythm)
get_track key_press = some (track key_press_melody key_press_rhythm)
get_track long = some (track long_melody long_rhythm)
get_track quick = some (track quick_melody quick_rhythm)
get_track quick_three = some (track quick_three_melody quick_three_rhythm)
get_track scan = some (track scan_melody scan_rhythm)
get_track nova = some (track nova_melody nova_rhythm)
get_track max_tracks = none
