-- ===== src/Audio/System.antt =====
-- The threads of Audio.c as steps of one system: the thread that starts and ends the audio task,
-- the task (`TaskLoop`), the player (`PlayerTaskLoop`), and the callers of `Audio_PlayTrack` and
-- `Audio_SetVolume`. A step is a stretch that no other thread can disturb. MsgMutex is initialised
-- while the task lives, so `Audio_end` and the task can lock it; pthread_create of the player and
-- both joins succeed too. `Audio_start` is left out while an earlier task has not returned.
pub mod Invariant
pub mod Ending
pub mod Race
pub mod Silence
pub mod Sound
pub mod Order
use battery_info.Prelude.{
  ℕ, ◌+◌, ◌≡◌, Bool, true, false, ◌==◌, Option, none, some, ◌∷◌, [], List, if◌then◌else◌,
}
use battery_info.Audio.Track.{AudioTrackId, max_tracks}
use battery_info.Audio.Error.{
  ErrorCode, error_none, ended, inited, running, ending, Message, msg_id_end, code_ok, code_kill,
}
use battery_info.Audio.Queue.{MsgQueue, get_message}
use battery_info.Audio.Player
use battery_info.Speaker.Env.{Env}
use battery_info.Speaker.Device.{play_pitch}
use battery_info.Audio.Player.{Player, tick}
use battery_info.Audio.Control.{
  Audio, Answers, is_state, is_none, audio_init, audio_start, audio_started, audio_close,
  audio_send_end, send_track, may_play, process_message, audio_set_volume,
}

-- Where the thread is that holds AudioMutex: in no call, between pthread_create and the
-- assignment of Running, between the assignment of Ending and `SendMessage`, in pthread_join.
pub data ControlPc : Type 0 where
  free created closing joining : ControlPc

-- Where the audio task is: not there, before its first lock, at the test of its loop, before
-- `GetMessage`, in pthread_cond_wait (signalled or not), at `ProcessMessage`, behind the label END,
-- in pthread_join, returned. It holds MsgMutex at `check`, `get` and `quit`.
pub data TaskPc : Type 0 where
  absent begin check get quit join_player returned : TaskPc
  wait : Bool → TaskPc
  handle : Message → TaskPc

-- Where the player is: not there, at the test of its loop, before the exchange of NextTrackID, at
-- the calls of `Speaker_PlayPitch` that are left in the round, behind the loop, at the last call of
-- `Speaker_PlayPitch`, returned.
pub data PlayerPc : Type 0 where
  no_player leaving silencing stopped : PlayerPc
  looping awake : Player → PlayerPc
  sounding : Player → List ℕ → PlayerPc

pub record System : Type 0 where
  pub audio : Audio
  pub control : ControlPc
  pub task : TaskPc
  pub player : PlayerPc
  pub callers : ℕ → Option AudioTrackId  -- tracks that passed the test of `Audio_PlayTrack`

abbrev holds_mutex : TaskPc → Bool
holds_mutex check = true
holds_mutex get = true
holds_mutex quit = true
holds_mutex _ = false

-- pthread_cond_signal
abbrev signal : TaskPc → TaskPc
signal (wait b) = wait true
signal t = t

-- `SendMessage` signals where it has put the message into the queue.
abbrev pub sent : ErrorCode × Audio → System → System
sent (error, a) s = record s { audio = a; task = if is_none error then signal s.task else s.task }

-- No task that has not returned.
abbrev pub is_gone : TaskPc → Bool
is_gone absent = true
is_gone returned = true
is_gone _ = false

abbrev received : System → Option Message × MsgQueue → System
received s (none, q) = record s { task = wait false }
received s (some m, q) = record s { audio = record (s.audio) { queue = q }; task = handle m }

abbrev handled : Message → System → System
handled m s =
    let (code, a) = process_message m s.audio in
    record s { audio = a; task = elim code [ code_ok ↦ check | code_kill ↦ quit ] }

-- The next step of the task; `none` while it is blocked, and when it is not there.
task_at : TaskPc → System → Option System
task_at begin s = some (record s {
  audio = record (s.audio) { player_state = running };
  player = looping Player.init;
  task = check;
})
task_at check s = some (record s { task = if is_state s.audio.my_state running then get else quit })
task_at get s = some (received s (get_message s.audio.queue))
task_at (wait true) s = some (record s { task = get })
task_at (handle m) s = some (handled m s)
task_at quit s = some (record s {
  audio = record (s.audio) { my_state = ending; player_state = ending };
  task = join_player;
})
task_at join_player s = elim s.player [
  | stopped ↦ some (record s { audio = record (s.audio) { player_state = ended }; task = returned })
  | _ ↦ none
]
task_at _ s = none

unfoldable pub task_step : System → Option System
unfolding task_at
task_step s = task_at s.task s

-- `Speaker_PlayPitch`, called by the player.
abbrev pitched : Env → ℕ → System → PlayerPc → System
pitched env f s p = record s {
  audio = record (s.audio) { speaker = (play_pitch env f s.audio.speaker).1 };
  player = p;
}

-- The player takes NextTrackID, and leaves MaxTracks.
abbrev taken : System → PlayerPc → System
taken s p = record s { audio = record (s.audio) { next_track_id = max_tracks }; player = p }

player_at : Env → PlayerPc → System → Option System
player_at env (looping p) s =
    some (record s { player = if is_state s.audio.player_state running then awake p else leaving })
player_at env (awake p) s =
    let (q, pitches) = tick s.audio.next_track_id p in some (taken s (sounding q pitches))
player_at env (sounding p (f ∷ fs)) s = some (pitched env f s (sounding p fs))
player_at env (sounding p []) s = some (record s { player = looping p })
player_at env leaving s = some (taken s silencing)
player_at env silencing s = some (pitched env 0 s stopped)
player_at env _ s = none

-- The next step of the player; `none` when it is not there.
unfoldable pub player_step : Env → System → Option System
unfolding player_at
player_step env s = player_at env s.player s

abbrev update : (ℕ → Option AudioTrackId) → ℕ → Option AudioTrackId → ℕ → Option AudioTrackId
update f i x j = if i == j then x else f j

-- `Ok` holds of what the system answers to the calls of the speaker.
pub data Step (Ok : Env → Type 0) (s : System) : System → Type 0 where
  task : {t : System} → task_step s ≡ some t → Step Ok s t
  player : {t : System} (env : Env) → Ok env → player_step env s ≡ some t → Step Ok s t
  -- pthread_cond_wait may return with no signal.
  wake : s.task ≡ wait false → Step Ok s (record s { task = get })
  init_call :
      (w : Answers)
      → Ok w.system
      → s.control ≡ free
      → Step Ok s (record s { audio = (audio_init w s.audio).1 })
  start_call :
      (w : Answers)
      → s.control ≡ free
      → audio_start w s.audio ≡ error_none
      → is_gone s.task ≡ true
      → Step Ok s (record s { control = created; task = begin; player = no_player })
  start_return :
      s.control ≡ created → Step Ok s (record s { audio = audio_started s.audio; control = free })
  end_call :
      s.control ≡ free
      → s.audio.my_state ≡ running
      → Step Ok s (record s { audio = record (s.audio) { my_state = ending }; control = closing })
  end_send :
      (w : Answers)
      → s.control ≡ closing
      → holds_mutex s.task ≡ false
      → w.msg_lock_fails ≡ false
      → Step Ok s (record (sent (audio_send_end w s.audio) s) { control = joining })
  end_return :
      (w : Answers)
      → Ok w.system
      → s.control ≡ joining
      → s.task ≡ returned
      → Step Ok s (record s { audio = (audio_close w s.audio).1; control = free })
  -- `Audio_end` of a task that is not running.
  end_idle :
      (w : Answers)
      → Ok w.system
      → s.control ≡ free
      → is_state s.audio.my_state running ≡ false
      → is_state s.audio.my_state ended ≡ false
      → Step Ok s (record s { audio = (audio_close w s.audio).1 })
  -- `Audio_SetVolume`, of any thread.
  volume_call :
      (w : Answers) (level : ℕ)
      → Ok w.system
      → Step Ok s (record s { audio = (audio_set_volume w level s.audio).1 })
  play_call :
      (i : ℕ) (t : AudioTrackId)
      → may_play s.audio ≡ true
      → Step Ok s (record s { callers = update s.callers i (some t) })
  play_send :
      (w : Answers) (i : ℕ) (t : AudioTrackId)
      → s.callers i ≡ some t
      → holds_mutex s.task ≡ false
      → Step Ok s (record (sent (send_track w t s.audio) s) { callers = update s.callers i none })

-- The system when the program starts.
abbrev pub IsInitial : System → Type 0
IsInitial s =
    (s.audio.my_state ≡ ended) × (s.control ≡ free) × (s.task ≡ absent) × (s.player ≡ no_player)

pub data Reach (Ok : Env → Type 0) (s : System) : System → Type 0 where
  here : Reach Ok s s
  next : {t u : System} → Reach Ok s t → Step Ok t u → Reach Ok s u
