-- ===== src/Audio/Control.antt =====
-- The interface of Audio.c: `Audio_init`, `Audio_start`, `Audio_end`, `Audio_PlayTrack`,
-- `Audio_SetVolume`, each as the sections between which other threads may run.
pub mod Ready
use battery_info.Prelude.{Bool, true, false, ◌&&◌, ◌||◌, not, ◌==◌, if◌then◌else◌, ℕ}
use battery_info.Audio.Track.{AudioTrackId}
use battery_info.Audio.Error.{
  ErrorCode, error_none, error_task_running, error_task_stopped, error_task_create,
  error_null_msg_queue, error_set_volume, error_mutex, error_mutex_destroy, error_cond_destroy,
  error_hardware_init, error_hardware_deinit, ComponentState, ended, inited, running, ending,
  Message, msg_id_end, msg_id_play_track, ProcessCode, code_ok, code_kill,
}
use battery_info.Audio.Queue.{MsgQueue, init_messaging, send_message}
use battery_info.Speaker.Env.{Speaker, speaker_error_none, speaker_error_state}
use battery_info.Speaker.Env
use battery_info.Speaker.Device
use battery_info.Speaker.Volume.{set_volume, get_max_volume}

-- The static variables of Audio.c, and the speaker's.
pub record Audio : Type 0 where
  pub my_state : ComponentState
  pub player_state : ComponentState
  pub next_track_id : AudioTrackId
  pub queue : MsgQueue
  pub speaker : Speaker

-- What pthread answers during a call, and what the system answers to the speaker.
pub record Answers : Type 0 where
  pub audio_lock_fails : Bool
  pub msg_lock_fails : Bool
  pub mutex_init_fails : Bool
  pub cond_init_fails : Bool
  pub thread_create_fails : Bool
  pub mutex_destroy_fails : Bool
  pub cond_destroy_fails : Bool
  pub system : Env.Env

abbrev pub is_state : ComponentState → ComponentState → Bool
is_state ended ended = true
is_state inited inited = true
is_state running running = true
is_state ending ending = true
is_state _ _ = false

abbrev pub is_none : ErrorCode → Bool
is_none error_none = true
is_none _ = false

init_speaker : Answers → Audio → ErrorCode × Audio
init_speaker w a =
    let (error, s) = Device.init w.system a.speaker in
    if error == speaker_error_none
    then (error_none, record a { speaker = s; my_state = inited })
    else (error_hardware_init, record a { speaker = s })

init_queue : Answers → Audio → ErrorCode × Audio
unfolding init_speaker
init_queue w a =
    let (error, q) = init_messaging w.mutex_init_fails w.cond_init_fails a.queue in
    if is_none error
    then init_speaker w (record a { queue = q })
    else (error_null_msg_queue, record a { queue = q })

-- `Audio_init`
unfoldable pub audio_init : Answers → Audio → ErrorCode × Audio
unfolding init_queue
audio_init w a =
    if w.audio_lock_fails
    then (error_mutex, a)
    else if not (is_state a.my_state ended)
    then (error_task_running, a)
    else init_queue w a

-- `Audio_start` up to pthread_create; with `error_none` the thread of `TaskLoop` is there.
unfoldable pub audio_start : Answers → Audio → ErrorCode
audio_start w a =
    if w.audio_lock_fails
    then error_mutex
    else if not (is_state a.my_state inited)
    then error_task_running
    else if w.thread_create_fails
    then error_task_create
    else error_none

-- What follows in the thread that called it.
unfoldable pub audio_started : Audio → Audio
audio_started a = record a { my_state = running }

-- The result of the clean-up in `Audio_end`: a later error replaces an earlier one.
abbrev close_error : Answers → ℕ → ErrorCode
close_error w code =
    let hardware : ErrorCode =
      if not (code == speaker_error_none) && not (code == speaker_error_state)
      then error_hardware_deinit
      else error_none in
    let mutex : ErrorCode = if w.mutex_destroy_fails then error_mutex_destroy else hardware in
    if w.cond_destroy_fails then error_cond_destroy else mutex

-- The end of `Audio_end`, from the test of the state on.
unfoldable pub audio_close : Answers → Audio → ErrorCode × Audio
audio_close w a =
    let (code, s) = Device.de_init w.system a.speaker in
    let error = close_error w code in
    if is_state a.my_state ending || is_state a.my_state inited
    then (
      error,
      record a {
        speaker = s;
        queue = record (a.queue) { msg_q_len = 0 };
        my_state = if is_none error then ended else a.my_state;
      },
    )
    else (error_task_running, a)

-- `SendMessage` of MSG_ID_END by `Audio_end`, which drops its result.
unfoldable pub audio_send_end : Answers → Audio → ErrorCode × Audio
audio_send_end w a =
    let (error, q) = send_message w.msg_lock_fails msg_id_end a.queue in
    (error, record a { queue = q })

-- `Audio_PlayTrack`: the test of the state, and the message that follows it.
abbrev pub may_play : Audio → Bool
may_play a = is_state a.my_state running

unfoldable pub send_track : Answers → AudioTrackId → Audio → ErrorCode × Audio
send_track w t a =
    let (error, q) = send_message w.msg_lock_fails (msg_id_play_track t) a.queue in
    (error, record a { queue = q })

unfoldable pub play_track : Answers → AudioTrackId → Audio → ErrorCode × Audio
unfolding send_track
play_track w t a = if may_play a then send_track w t a else (error_task_stopped, a)

-- `Audio_SetVolume`
unfoldable pub audio_set_volume : Answers → ℕ → Audio → ErrorCode × Audio
audio_set_volume w level a =
    let (error, s) = set_volume w.system level a.speaker in
    (if error == speaker_error_none then error_none else error_set_volume, record a { speaker = s })

-- `ProcessMessage` and `PlayTrackID`
unfoldable pub process_message : Message → Audio → ProcessCode × Audio
process_message (msg_id_play_track t) a = (code_ok, record a { next_track_id = t })
process_message msg_id_end a = (code_kill, a)

-- `Audio_start` with no other thread between its parts: its result, and the state behind it.
abbrev start_whole : Answers → Audio → Audio
start_whole w a = if is_none (audio_start w a) then audio_started a else a

-- `RunAudioPlayer`: one record of answers for each of its three calls, whose errors it only logs.
unfoldable pub run_audio_player : Answers → Answers → Answers → Audio → Audio
run_audio_player w1 w2 w3 a =
    let ready = start_whole w2 (audio_init w1 a).1 in (audio_set_volume w3 get_max_volume ready).1
