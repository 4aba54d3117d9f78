-- ===== src/Speaker/Pwm.antt =====
-- The PWM files: `PWMFileWriteInt`, `PWMWrite`, `Export`, and the search for the channel's folder.
use Prim.Native.Nat.{min}
use battery_info.Prelude.{
  ℕ, ◌+◌, ◌-◌, ◌%◌, ◌^◌, Bool, false, not, ◌&&◌, List, [], ◌∷◌, ◌++◌, ltb, ◌==◌, length, take,
  if◌then◌else◌,
}
use battery_info.Prelude.Int.{ℤ, pos, negsuc}
use battery_info.Prelude.Text.{Text, codes}
use battery_info.Speaker.Env.{
  PwmFile, export, period, duty_cycle, enable, wrote, Speaker, emit, Env, speaker_error_none,
  speaker_error_sysfs,
}

abbrev pwm_dir : Text
pwm_dir = codes "/sys/class/pwm/"

-- SPEAKER_PWM_DIR_LEN, the bytes of `SpeakerDir`
abbrev speaker_pwm_dir_len : ℕ
speaker_pwm_dir_len = 25

-- An `unsigned long long` that is passed as an `int`.
abbrev pub to_int : ℕ → ℤ
to_int n = let w = n % 2 ^ 32 in if ltb w (2 ^ 31) then pos w else negsuc (2 ^ 32 - w - 1)

-- `snprintf` into `SpeakerDir` keeps one byte for the end.
abbrev folder : Text → Text
folder name = take (speaker_pwm_dir_len - 1) (pwm_dir ++ name)

abbrev is_hidden : Text → Bool
is_hidden [] = false
is_hidden (c ∷ cs) = c == b'.'

-- The loop over the folder: the last name that begins with no dot stays.
pub find_dir : List Text → Text → Text
find_dir [] dir = dir
find_dir (name ∷ names) dir = find_dir names (if is_hidden name then dir else folder name)

-- The argument `SubDir`: `PWMWrite` puts the channel before it, in a buffer of 64 bytes.
abbrev sub_dir : PwmFile → Text
sub_dir export = codes "export"
sub_dir period = take 63 (codes "pwm0/" ++ codes "period")
sub_dir duty_cycle = take 63 (codes "pwm0/" ++ codes "duty_cycle")
sub_dir enable = take 63 (codes "pwm0/" ++ codes "enable")

-- The name of the file, in a buffer of the two lengths and two bytes; malloc is taken to succeed.
unfoldable pub subdir_file : Text → PwmFile → Text
subdir_file dir f =
    take (length dir + min 255 (length (sub_dir f)) + 1) (dir ++ codes "/" ++ sub_dir f)

-- `PWMFileWriteInt`, called by `Export` or through `PWMWrite`.
pwm_file_write_int : Env → PwmFile → ℤ → Speaker → ℕ × Speaker
pwm_file_write_int env f v s =
    let path = subdir_file s.speaker_dir f in
    if env.fopen_fails path
    then (speaker_error_sysfs, s)
    else if env.fprintf_fails path
    then (speaker_error_sysfs, s)
    else (speaker_error_none, emit (wrote f path v) s)

-- `PWMWrite`, whose callers drop its result.
unfoldable pub pwm_write : Env → PwmFile → ℤ → Speaker → Speaker
unfolding pwm_file_write_int
pwm_write env f v s = (pwm_file_write_int env f v s).1

-- `Export`: a channel that is busy counts as exported.
unfoldable pub export_channel : Env → Speaker → ℕ × Speaker
unfolding pwm_file_write_int
export_channel env s =
    let (error, s') = pwm_file_write_int env export (pos 0) s in
    if not (error == speaker_error_none) && env.errno_is_ebusy
    then (speaker_error_none, s')
    else (error, s')
