-- ===== src/Audio/Music/Tables.antt =====
-- The tables of Source/Libs/Audio/Music.h: for each track the notes, and how long each is held.
use battery_info.Prelude.{ℕ, List, [], ◌∷◌}
use battery_info.Audio.Music.Notes.{
  note_c3, note_e3, note_g3, note_a3, note_c4, note_d4, note_e4, note_f4, note_g4, note_a4, note_b4,
  note_c5, note_d5, note_g5, note_a5, note_b5, rest_note, note_separation, note_980_hz,
  note_1120_hz, note_1800_hz, note_2000_hz, note_2500_hz, note_3200_hz, sixteenth_note,
}

-- `Alarm1_Melody`
abbrev pub alarm1_melody : List ℕ
alarm1_melody = note_g4 ∷ rest_note ∷ note_e4 ∷ rest_note ∷ note_c4 ∷ rest_note ∷ []

-- `Alarm1_Rhythm`
abbrev pub alarm1_rhythm : List ℕ
alarm1_rhythm =
    sixteenth_note ∷ note_separation ∷ sixteenth_note ∷ note_separation ∷ sixteenth_note
    ∷ note_separation ∷ []

-- `Alarm2_Melody`
abbrev pub alarm2_melody : List ℕ
alarm2_melody =
    note_2500_hz ∷ note_3200_hz ∷ rest_note ∷ note_2500_hz ∷ note_3200_hz ∷ rest_note ∷ note_2500_hz
    ∷ note_3200_hz ∷ []

-- `Alarm2_Rhythm`
abbrev pub alarm2_rhythm : List ℕ
alarm2_rhythm = 300 ∷ 300 ∷ 100 ∷ 300 ∷ 300 ∷ 100 ∷ 300 ∷ 300 ∷ []

-- `Alert1_Melody`
abbrev pub alert1_melody : List ℕ
alert1_melody = note_c3 ∷ rest_note ∷ note_e3 ∷ rest_note ∷ []

-- `Alert1_Rhythm`
abbrev pub alert1_rhythm : List ℕ
alert1_rhythm = sixteenth_note ∷ note_separation ∷ sixteenth_note ∷ note_separation ∷ []

-- `Alert2_Melody`
abbrev pub alert2_melody : List ℕ
alert2_melody = note_c4 ∷ rest_note ∷ note_e4 ∷ rest_note ∷ note_g4 ∷ rest_note ∷ []

-- `Alert2_Rhythm`
abbrev pub alert2_rhythm : List ℕ
alert2_rhythm =
    sixteenth_note ∷ note_separation ∷ sixteenth_note ∷ note_separation ∷ sixteenth_note
    ∷ note_separation ∷ []

-- `BadInput_Melody`
abbrev pub bad_input_melody : List ℕ
bad_input_melody = note_c3 ∷ []

-- `BadInput_Rhythm`
abbrev pub bad_input_rhythm : List ℕ
bad_input_rhythm = 500 ∷ []

-- `OdeToJoy_Melody`
abbrev pub ode_to_joy_melody : List ℕ
ode_to_joy_melody =
    note_b5 ∷ rest_note ∷ note_b5 ∷ rest_note ∷ note_c5 ∷ rest_note ∷ note_d5 ∷ rest_note ∷ note_d5
    ∷ rest_note ∷ note_c5 ∷ rest_note ∷ note_b5 ∷ rest_note ∷ note_a5 ∷ rest_note ∷ note_g5
    ∷ rest_note ∷ note_g5 ∷ rest_note ∷ note_a5 ∷ rest_note ∷ note_b5 ∷ rest_note ∷ note_b5
    ∷ rest_note ∷ note_a5 ∷ rest_note ∷ note_a5 ∷ []

-- `OdeToJoy_Rhythm`
abbrev pub ode_to_joy_rhythm : List ℕ
ode_to_joy_rhythm =
    250 ∷ 250 ∷ 250 ∷ 250 ∷ 250 ∷ 250 ∷ 250 ∷ 250 ∷ 250 ∷ 250 ∷ 250 ∷ 250 ∷ 250 ∷ 250 ∷ 250 ∷ 250
    ∷ 250 ∷ 250 ∷ 250 ∷ 250 ∷ 250 ∷ 250 ∷ 250 ∷ 250 ∷ 500 ∷ 250 ∷ 250 ∷ 250 ∷ 250 ∷ []

-- `Docked_Melody`
abbrev pub docked_melody : List ℕ
docked_melody = note_980_hz ∷ note_1120_hz ∷ note_980_hz ∷ []

-- `Docked_Rhythm`
abbrev pub docked_rhythm : List ℕ
docked_rhythm = 40 ∷ 40 ∷ 40 ∷ []

-- `KeyPress_Melody`
abbrev pub key_press_melody : List ℕ
key_press_melody = note_1800_hz ∷ []

-- `KeyPress_Rhythm`
abbrev pub key_press_rhythm : List ℕ
key_press_rhythm = 40 ∷ []

-- `Long_Melody`
abbrev pub long_melody : List ℕ
long_melody = note_2000_hz ∷ []

-- `Long_Rhythm`
abbrev pub long_rhythm : List ℕ
long_rhythm = 900 ∷ []

-- `Quick_Melody`
abbrev pub quick_melody : List ℕ
quick_melody = note_2000_hz ∷ []

-- `Quick_Rhythm`
abbrev pub quick_rhythm : List ℕ
quick_rhythm = 150 ∷ []

-- `QuickThree_Melody`
abbrev pub quick_three_melody : List ℕ
quick_three_melody = note_2000_hz ∷ rest_note ∷ note_2000_hz ∷ rest_note ∷ note_2000_hz ∷ []

-- `QuickThree_Rhythm`
abbrev pub quick_three_rhythm : List ℕ
quick_three_rhythm = 150 ∷ 600 ∷ 150 ∷ 600 ∷ 150 ∷ []

-- `Scan_Melody`
abbrev pub scan_melody : List ℕ
scan_melody = note_2500_hz ∷ []

-- `Scan_Rhythm`
abbrev pub scan_rhythm : List ℕ
scan_rhythm = 100 ∷ []

-- `Scale_Melody`
abbrev pub scale_melody : List ℕ
scale_melody = note_c4 ∷ note_d4 ∷ note_e4 ∷ note_f4 ∷ note_g4 ∷ note_a4 ∷ note_b4 ∷ note_c5 ∷ []

-- `Scale_Rhythm`
abbrev pub scale_rhythm : List ℕ
scale_rhythm = 300 ∷ 300 ∷ 300 ∷ 300 ∷ 300 ∷ 300 ∷ 300 ∷ 300 ∷ []

-- `Nova_Melody`
abbrev pub nova_melody : List ℕ
nova_melody =
    note_a3 ∷ rest_note ∷ note_c3 ∷ rest_note ∷ note_e3 ∷ rest_note ∷ note_g3 ∷ rest_note ∷ []

-- `Nova_Rhythm`
abbrev pub nova_rhythm : List ℕ
nova_rhythm =
    sixteenth_note ∷ note_separation ∷ sixteenth_note ∷ note_separation ∷ sixteenth_note
    ∷ note_separation ∷ sixteenth_note ∷ note_separation ∷ []
