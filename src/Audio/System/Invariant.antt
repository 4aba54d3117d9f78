-- ===== src/Audio/System/Invariant.antt =====
-- What holds in every state that the threads of Audio.c can reach.
use battery_info.Prelude.{
  List, ℕ, [], length, ◌+◌, ◌%◌, ◌≤◌, ◌≡◌, ◌≢◌, Bool, true, false, some, arith, length-set,
}
use battery_info.Audio.Error.{error_none, running, ending, Message, msg_id_end, msg_id_play_track}
use battery_info.Audio.Queue.{MsgQueue, init_messaging, get_message, send_message}
use battery_info.Audio.Queue.Invariant
use battery_info.Speaker.Env.{Env}
use battery_info.Audio.Control.{
  Audio, Answers, audio_init, audio_started, audio_close, audio_send_end, send_track,
  process_message, audio_set_volume,
}
use battery_info.Audio.Track.{AudioTrackId}
use battery_info.Audio.Player.{Player, tick}
use battery_info.Audio.System.{
  PlayerPc, sounding, awake, created, closing, joining, TaskPc, absent, begin, get, join_player,
  returned, wait, no_player, System, Step, Reach, IsInitial, task_step, player_step,
}

-- The task is between its creation and its end.
abbrev pub is_alive : TaskPc → Bool
is_alive absent = false
is_alive _ = true

-- The task has created the player and has not returned.
abbrev pub has_player : TaskPc → Bool
has_player absent = false
has_player begin = false
has_player returned = false
has_player _ = true

-- The task is about to look for a message, or asleep until there is one.
abbrev pub wants_message : TaskPc → Bool
wants_message get = true
wants_message (wait b) = true
wants_message _ = false

-- The calls of the speaker that are left in the round of the player.
abbrev pub pitches_left : PlayerPc → ℕ
pitches_left (sounding p fs) = length fs
pitches_left _ = 0

length-tick_le : (id : AudioTrackId) (p : Player) → length (tick id p).1 ≤ 2
unfolding tick
length-tick_le id p = ground arith

-- The calls of the round that the player is about to make.
abbrev pub pitches_of : AudioTrackId → PlayerPc → List ℕ
pitches_of id (awake p) = (tick id p).1
pitches_of id _ = []

pub length-pitches_of_le : (id : AudioTrackId) (p : PlayerPc) → length (pitches_of id p) ≤ 2
length-pitches_of_le id (awake p) = length-tick_le id p
length-pitches_of_le id p = omega arith

pub record Inv (s : System) : Type 0 where
  pub queue : Invariant.IsValid s.audio.queue
  -- No wake-up is lost: the task sleeps only on an empty queue.
  pub asleep : s.task ≡ wait false → s.audio.queue.msg_q_len ≡ 0
  pub running_alive : s.audio.my_state ≡ running → is_alive s.task ≡ true
  pub created_alive : s.control ≡ created → is_alive s.task ≡ true
  pub closing_alive : s.control ≡ closing → (is_alive s.task ≡ true) × (s.audio.my_state ≡ ending)
  pub joining_alive : s.control ≡ joining → (is_alive s.task ≡ true) × (s.audio.my_state ≡ ending)
  pub joining_message :
      s.control ≡ joining → wants_message s.task ≡ true → 1 ≤ s.audio.queue.msg_q_len
  pub player_there : has_player s.task ≡ true → s.player ≢ no_player
  pub pitches_le : pitches_left s.player ≤ 2
  pub player_ending : s.task ≡ join_player → s.audio.player_state ≡ ending

pub task_step-Inv : {s t : System} → Inv s → task_step s ≡ some t → Inv t
unfolding task_step get_message process_message
task_step-Inv v h = ground arith

pub player_step-Inv : (env : Env) {s t : System} → Inv s → player_step env s ≡ some t → Inv t
unfolding player_step
player_step-Inv env {s} v h = ground (arith, length-pitches_of_le s.audio.next_track_id s.player)

-- `SendMessage` keeps the queue in range, and leaves a message in it.
send-kept :
    (b : Bool) (m : Message) (q : MsgQueue)
    → Invariant.IsValid q
    → Invariant.IsValid (send_message b m q).1
      × (q.msg_q_len ≤ (send_message b m q).1.msg_q_len)
      × ((send_message b m q).0 ≢ error_none → (send_message b m q).1.msg_q_len ≡ q.msg_q_len)
      × (b ≡ false → 1 ≤ (send_message b m q).1.msg_q_len)
      × (b ≡ false → q.msg_q_len ≡ 0 → (send_message b m q).0 ≡ error_none)
unfolding send_message
send-kept b m q v = ground (arith, length-set q.msg_q ((q.top_msg_index + q.msg_q_len) % 10) m)

-- What `Audio_init` and the end of `Audio_end` leave of the shared state.
record Kept (a b : Audio) : Type 0 where
  queue : Invariant.IsValid b.queue
  shorter : b.queue.msg_q_len ≤ a.queue.msg_q_len
  not_started : b.my_state ≡ running → a.my_state ≡ running
  player_state : b.player_state ≡ a.player_state

audio_init-Kept : (w : Answers) (a : Audio) → Invariant.IsValid a.queue → Kept a (audio_init w a).1
unfolding audio_init init_messaging
audio_init-Kept w a v = ground arith

audio_close-Kept :
    (w : Answers) (a : Audio) → Invariant.IsValid a.queue → Kept a (audio_close w a).1
unfolding audio_close
audio_close-Kept w a v = ground arith

Step-Inv : {Ok : Env → Type 0} {s t : System} → Step Ok s t → Inv s → Inv t
unfolding audio_started audio_send_end send_track audio_set_volume
Step-Inv (Step.task e) v = task_step-Inv v e
Step-Inv (Step.player env ok e) v = player_step-Inv env v e
Step-Inv (Step.wake e) v = ground arith
Step-Inv {s} (Step.init_call w ok e) v = ground (arith, audio_init-Kept w s.audio v.queue)
Step-Inv (Step.start_call w e ok gone) v = ground arith
Step-Inv (Step.start_return e) v = ground arith
Step-Inv (Step.end_call e r) v = ground arith
Step-Inv {s} (Step.end_send w e h l) v =
    ground (arith, send-kept w.msg_lock_fails msg_id_end s.audio.queue v.queue)
Step-Inv {s} (Step.end_return w ok e r) v = ground (arith, audio_close-Kept w s.audio v.queue)
Step-Inv {s} (Step.end_idle w ok e a b) v = ground (arith, audio_close-Kept w s.audio v.queue)
Step-Inv (Step.volume_call w n ok) v = ground arith
Step-Inv (Step.play_call i t m) v = ground arith
Step-Inv {s} (Step.play_send w i t c h) v =
    ground (arith, send-kept w.msg_lock_fails (msg_id_play_track t) s.audio.queue v.queue)

-- The system when the program starts: the queue's slots and indices are zero.
pub initial-Inv : (s : System) → IsInitial s → Invariant.IsValid s.audio.queue → Inv s
initial-Inv s i v = ground arith

pub Reach-Inv : {Ok : Env → Type 0} {s t : System} → Inv s → Reach Ok s t → Inv t
Reach-Inv v Reach.here = v
Reach-Inv v (Reach.next r st) = Step-Inv st (Reach-Inv v r)
