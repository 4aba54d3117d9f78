-- ===== src/Audio/Music/Notes.antt =====
-- The notes and durations of Source/Libs/Audio/Music.h that its tables name, in the build where
-- neither NOTE_EQUIVALENT nor REAL_ODE_TO_JOY is defined. Notes are in hertz, durations in ticks.
use battery_info.Prelude.{ℕ, ◌-◌, ◌/◌}

abbrev pub rest_note : ℕ
rest_note = 0

abbrev pub note_separation : ℕ
note_separation = 10

abbrev beat_time : ℕ
beat_time = 300

abbrev pub sixteenth_note : ℕ
sixteenth_note = beat_time / 4 - note_separation

abbrev pub note_c3 : ℕ
note_c3 = 131

abbrev pub note_e3 : ℕ
note_e3 = 165

abbrev pub note_g3 : ℕ
note_g3 = 196

abbrev pub note_a3 : ℕ
note_a3 = 220

abbrev pub note_c4 : ℕ
note_c4 = 262

abbrev pub note_d4 : ℕ
note_d4 = 294

abbrev pub note_e4 : ℕ
note_e4 = 330

abbrev pub note_f4 : ℕ
note_f4 = 349

abbrev pub note_g4 : ℕ
note_g4 = 392

abbrev pub note_a4 : ℕ
note_a4 = 440

abbrev pub note_b4 : ℕ
note_b4 = 494

abbrev pub note_c5 : ℕ
note_c5 = 523

abbrev pub note_d5 : ℕ
note_d5 = 587

abbrev pub note_g5 : ℕ
note_g5 = 784

abbrev pub note_a5 : ℕ
note_a5 = 880

abbrev pub note_b5 : ℕ
note_b5 = 988

abbrev pub note_980_hz : ℕ
note_980_hz = 980

abbrev pub note_1120_hz : ℕ
note_1120_hz = 1120

abbrev pub note_1800_hz : ℕ
note_1800_hz = 1800

abbrev pub note_2000_hz : ℕ
note_2000_hz = 2500

abbrev pub note_2500_hz : ℕ
note_2500_hz = 2000

abbrev pub note_3200_hz : ℕ
note_3200_hz = 3200
