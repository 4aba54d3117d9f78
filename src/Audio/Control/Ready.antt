-- ===== src/Audio/Control/Ready.antt =====
-- The audio behind `RunAudioPlayer` of Audio.c.
use battery_info.Prelude.{ap, ◌∙◌, ◌≡◌, false, [], ◌∷◌, arith}
use battery_info.Audio.Track.{AudioTrackId}
use battery_info.Audio.Error.{error_none, inited, running, msg_id_play_track}
use battery_info.Audio.Queue.{MsgQueue, init_messaging}
use battery_info.Audio.Queue.Fifo
use battery_info.Audio.Queue.Invariant
use battery_info.Audio.Queue.Refine.{contents, send_message_refines}
use battery_info.Audio.Control.{
  Audio, Answers, audio_init, audio_start, audio_started, audio_set_volume, play_track, send_track,
  run_audio_player,
}

-- An initialisation that succeeded leaves the state Inited, and an empty queue.
audio_init-ok :
    (w : Answers) (a : Audio)
    → (audio_init w a).0 ≡ error_none
    → ((audio_init w a).1.my_state ≡ inited) × ((audio_init w a).1.queue.msg_q_len ≡ 0)
unfolding audio_init init_messaging
audio_init-ok w a h = ground arith

audio_init-IsValid :
    (w : Answers) (a : Audio)
    → Invariant.IsValid a.queue
    → Invariant.IsValid (audio_init w a).1.queue
unfolding audio_init init_messaging
audio_init-IsValid w a v = ground arith

contents-empty : (q : MsgQueue) → q.msg_q_len ≡ 0 → contents q ≡ []
contents-empty q e = rw e

run_audio_player-running :
    (w1 w2 w3 : Answers) (a : Audio)
    → (audio_init w1 a).1.my_state ≡ inited
    → w2.audio_lock_fails ≡ false
    → w2.thread_create_fails ≡ false
    → (run_audio_player w1 w2 w3 a).my_state ≡ running
unfolding run_audio_player audio_start audio_started audio_set_volume
run_audio_player-running w1 w2 w3 a i l c = ground arith

run_audio_player-queue :
    (w1 w2 w3 : Answers) (a : Audio)
    → (run_audio_player w1 w2 w3 a).queue ≡ (audio_init w1 a).1.queue
unfolding run_audio_player audio_started audio_set_volume
run_audio_player-queue w1 w2 w3 a = ground arith

play_track-running :
    (w : Answers) (t : AudioTrackId) (a : Audio)
    → a.my_state ≡ running
    → w.msg_lock_fails ≡ false
    → Invariant.IsValid a.queue
    → let (error, b) = play_track w t a in
      (error, contents b.queue) ≡ Fifo.put false (msg_id_play_track t) (contents a.queue)
unfolding play_track send_track
play_track-running w t a r l v = simp (r, l) (send_message_refines false (msg_id_play_track t) v)

-- When `Audio_init` succeeds, AudioMutex can be locked and the thread created, `RunAudioPlayer` makes
-- the audio accept tracks: the first `Audio_PlayTrack` behind it, with no other thread in between and
-- a lock of the queue that works, returns ERROR_NONE and leaves that track as the only message, what
-- messages the queue had before notwithstanding, and also where the volume could not be set.
pub run_audio_player-plays :
    (w1 w2 w3 w : Answers) (t : AudioTrackId) (a : Audio)
    → Invariant.IsValid a.queue
    → (audio_init w1 a).0 ≡ error_none
    → w2.audio_lock_fails ≡ false
    → w2.thread_create_fails ≡ false
    → w.msg_lock_fails ≡ false
    → let (error, b) = play_track w t (run_audio_player w1 w2 w3 a) in
      (error ≡ error_none) × (contents b.queue ≡ msg_id_play_track t ∷ [])
unfolding Fifo.put
run_audio_player-plays w1 w2 w3 w t a v ok l c m =
    let b = run_audio_player w1 w2 w3 a in
    let (state, len) = audio_init-ok w1 a ok in
    let same = run_audio_player-queue w1 w2 w3 a in
    let valid : Invariant.IsValid b.queue = rw same (audio_init-IsValid w1 a v) in
    let empty : contents b.queue ≡ [] = rw same (contents-empty (audio_init w1 a).1.queue len) in
    let run = run_audio_player-running w1 w2 w3 a state l c in
    let sent =
      play_track-running w t b run m valid ∙ ap (Fifo.put false (msg_id_play_track t)) empty in
    (ap (λ r. r.0) sent, ap (λ r. r.1) sent)
