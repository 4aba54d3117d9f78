-- ===== src/Speaker/Tests.antt =====
-- A working speaker, and the theorems of the speaker on it.
use battery_info.Prelude.{
  ◌/◌, ◌≡◌, refl, true, false, List, [], ◌∷◌, none, some, if◌then◌else◌, leb, ◌+◌,
}
use battery_info.Prelude.Int.{pos}
use battery_info.Prelude.Text.{codes}
use battery_info.Speaker.Env.{Env, Speaker, speaker_inited, speaker_ended, set_line, enable}
use battery_info.Speaker.Pwm.{pwm_write}
use battery_info.Speaker.Device.{write_pitch, init, play_pitch, de_init}
use battery_info.Speaker.Volume.{set_volume, close_volume_pins}
use battery_info.Speaker.Pins.{
  Call, step, HasPins, init_call, de_init_call, play_pitch_call, set_volume_call, run, run-HasPins,
  set_volume_lem,
}
use battery_info.Speaker.Pitch.{Works, Sounding, last_value, play_pitch-Sounding}
use battery_info.Speaker.Tone.{Succeeds, Represents, tone_step}
use battery_info.Speaker.Refine.{results, tone_results, tone_run, run_refines}
use battery_info.Speaker.Failure.{play_pitch-restart}

abbrev pub working : Env
working = record {
  speaker_lock_fails = false;
  volume_lock_fails = false;
  pwm_dev_dir = some (codes "." ∷ codes "pwmchip0" ∷ []);
  fopen_fails = λ p. false;
  fprintf_fails = λ p. false;
  errno_is_ebusy = false;
  chip_open_by_name = λ name. some 70;
  chip_get_line = λ c offset. some (c + offset);
  line_request_fails = λ l. false;
  line_set_value_fails = λ l v. false;
  period_ns = λ f. 1000000000 / f;
}

pub working-Works : Works working
working-Works = record {
  speaker_lock = refl;
  volume_lock = refl;
  fopen = λ p. refl;
  fprintf = λ p. refl;
}

-- The second line is not there.
abbrev broken : Env
broken = record working { chip_get_line = λ c offset. if leb offset 8 then some 8 else none }

abbrev pub unused : Speaker
unused = record {
  state = speaker_ended;
  speaker_dir = [];
  en1_line = none;
  en2_line = none;
  chip = none;
  current_freq = 0;
  effects = [];
}

-- Initialised, silent.
abbrev pub ready : Speaker
ready = record {
  state = speaker_inited;
  speaker_dir = codes "/sys/class/pwm/pwmchip0";
  en1_line = some 78;
  en2_line = some 79;
  chip = some 70;
  current_freq = 0;
  effects = [];
}

abbrev sounding : Speaker
sounding = (play_pitch working 2500 ready).1

init_opens : (init working unused).0 ≡ 0
unfolding init
init_opens = refl

play_pitch-Sounding_example :
    let (error, s') = play_pitch working 2500 ready in
    (error ≡ 0) × (s'.current_freq ≡ 2500) × Sounding working.period_ns 2500 s'.effects
play_pitch-Sounding_example = play_pitch-Sounding working 2500 ready working-Works refl (λ e. cc)

abbrev calls : List Call
calls =
    init_call broken
    ∷ init_call working
    ∷ play_pitch_call working 440
    ∷ set_volume_call working 9
    ∷ []

run-HasPins_example : HasPins (run calls unused)
unfolding run step init play_pitch set_volume write_pitch pwm_write
run-HasPins_example = run-HasPins calls unused (λ e. cc) refl

set_volume_lem_example :
    set_volume working 2 ready ≡ (0, record ready { effects = set_line 78 1 ∷ set_line 79 0 ∷ [] })
set_volume_lem_example = set_volume_lem working 2 78 79 ready refl (λ l v. refl) refl refl

play_pitch-restart_example :
    let s1 = (de_init working sounding).1 in
    let s2 = (init working s1).1 in
    (play_pitch working 2500 s2 ≡ (0, s2)) × (last_value enable s2.effects ≡ some (pos 0))
unfolding play_pitch de_init init write_pitch pwm_write close_volume_pins
play_pitch-restart_example = play_pitch-restart working 2500 sounding working-Works refl refl refl

working-Succeeds : Succeeds (λ f. 1000000000 / f) working
working-Succeeds = record {
  works = working-Works;
  dir = (_, refl);
  chip = λ name. (_, refl);
  line = λ c offset. (_, refl);
  request = λ l. refl;
  set = λ l v. refl;
  same_period = refl;
}

-- A frequency, an end, and the same frequency after the next start.
abbrev restart : List Call
restart =
    init_call working
    ∷ play_pitch_call working 440
    ∷ de_init_call working
    ∷ init_call working
    ∷ play_pitch_call working 440
    ∷ []

unused-Represents :
    Represents (λ f. 1000000000 / f) unused (record { active = false; sounds = 0; asked = 0 })
unused-Represents = record { active = refl; pins = refl; asked = refl; sounding = λ e. cc }

run_refines_example :
    (results restart unused ≡ 0 ∷ 0 ∷ 0 ∷ 0 ∷ 0 ∷ [])
    × Represents
        (λ f. 1000000000 / f)
        (run restart unused)
        (record { active = true; sounds = 0; asked = 440 })
unfolding tone_results tone_run tone_step
run_refines_example =
    run_refines restart unused (record { active = false; sounds = 0; asked = 0 })
      (
        working-Succeeds,
        (working-Succeeds, (working-Succeeds, (working-Succeeds, (working-Succeeds, tt)))),
      )
      unused-Represents
