-- ===== src/Audio/System/Sound.antt =====
-- A track on its way through the threads of Audio.c: from `Audio_PlayTrack` to the speaker.
use battery_info.Prelude.{
  ℕ, zero, suc, ◌≡◌, refl, sym, ap, ◌∙◌, ◌≢◌, true, false, List, [], ◌∷◌, ◌++◌, none, some, arith,
}
use battery_info.Speaker.Env.{Env, Speaker}
use battery_info.Speaker.Device.{play_pitch, feed}
use battery_info.Speaker.Pitch.{Works}
use battery_info.Audio.Error.{error_none, running, Message, msg_id_play_track}
use battery_info.Audio.Track.{AudioTrackId, max_tracks}
use battery_info.Audio.Music.{Track, get_track}
use battery_info.Audio.Queue.{MsgQueue, get_message, send_message}
use battery_info.Audio.Queue.Fifo
use battery_info.Audio.Queue.Invariant
use battery_info.Audio.Queue.Invariant.{send_message-IsValid}
use battery_info.Audio.Queue.Refine.{contents, get_message_refines, send_message_refines}
use battery_info.Audio.Player.{Player, tick, ticks}
use battery_info.Audio.Player.Steps.{idle}
use battery_info.Audio.Player.Whole.{song, duration, perform, perform_lem}
use battery_info.Audio.Heard.{Gives, Plays, perform-Plays}
use battery_info.Audio.Control.{Answers, send_track, process_message}
use battery_info.Audio.System.{
  wait, check, get, handle, looping, awake, sounding, taken, pitched, sent, update, System, Step,
  Reach, task_step, player_step,
}

feed-append :
    (env : Env) (fs gs : List ℕ) (s : Speaker) → feed env (fs ++ gs) s ≡ feed env gs (feed env fs s)
unfolding feed
feed-append env [] gs s = refl
feed-append env (f ∷ fs) gs s = feed-append env fs gs (play_pitch env f s).1

-- The player at the test of its loop after some steps of its own, with the pitches that it has
-- handed to the speaker.
record Rounds (Ok : Env → Type 0) (env : Env) (r s u : System) (p : Player) (out : List ℕ)
    : Type 0 where
  run : Reach Ok r u
  player : u.player ≡ looping p
  state : u.audio.player_state ≡ s.audio.player_state
  request : u.audio.next_track_id ≡ max_tracks
  speaker : u.audio.speaker ≡ feed env out s.audio.speaker

Rounds-append :
    {Ok : Env → Type 0} {env : Env} {r s s1 u : System} {p q : Player} {out rest : List ℕ}
    → Rounds Ok env r s1 u q rest
    → Rounds Ok env r s s1 p out
    → Rounds Ok env r s u q (out ++ rest)
Rounds-append {env} {s} {out} {rest} v one = record {
  run = v.run;
  player = v.player;
  state = v.state ∙ one.state;
  request = v.request;
  speaker =
      v.speaker
      ∙ ap (λ k. feed env rest k) one.speaker
      ∙ sym (feed-append env out rest s.audio.speaker);
}

-- The calls of the speaker that are left in a round.
pitches_run :
    {Ok : Env → Type 0} (env : Env) (fs : List ℕ) (r s : System) (p : Player)
    → Ok env
    → Reach Ok r s
    → s.player ≡ sounding p fs
    → s.audio.next_track_id ≡ max_tracks
    → (u : System) × Rounds Ok env r s u p fs
unfolding feed player_step
pitches_run env [] r s p ok run e m =
    let step : player_step env s ≡ some (record s { player = looping p }) =
      rw (e, player_step) refl in
    (
      _,
      record {
        run = Reach.next run (Step.player env ok step);
        player = refl;
        state = refl;
        request = m;
        speaker = refl;
      },
    )
pitches_run env (f ∷ fs) r s p ok run e m =
    let step : player_step env s ≡ some (pitched env f s (sounding p fs)) =
      rw (e, player_step) refl in
    let moved = Reach.next run (Step.player env ok step) in
    let (u, v) = pitches_run env fs r (pitched env f s (sounding p fs)) p ok moved refl m in
    (
      u,
      record {
        run = v.run;
        player = v.player;
        state = v.state;
        request = v.request;
        speaker = v.speaker;
      },
    )

awake_step :
    (env : Env) (s : System) (p : Player)
    → s.player ≡ looping p
    → s.audio.player_state ≡ running
    → player_step env s ≡ some (record s { player = awake p })
unfolding player_step
awake_step env s p e h = ground arith

exchange_step :
    (env : Env) (id : AudioTrackId) (s : System) (p : Player)
    → s.player ≡ awake p
    → s.audio.next_track_id ≡ id
    → player_step env s ≡ some (taken s (sounding (tick id p).0 (tick id p).1))
unfolding player_step
exchange_step env id s p e m = ground arith

-- A whole round.
tick_run :
    {Ok : Env → Type 0} (env : Env) (id : AudioTrackId) (r s : System) (p : Player)
    → Ok env
    → Reach Ok r s
    → s.player ≡ looping p
    → s.audio.player_state ≡ running
    → s.audio.next_track_id ≡ id
    → (u : System) × Rounds Ok env r s u (tick id p).0 (tick id p).1
tick_run env id r s p ok run e h m =
    let s1 : System = record s { player = awake p } in
    let r1 = Reach.next run (Step.player env ok (awake_step env s p e h)) in
    let s2 : System = taken s1 (sounding (tick id p).0 (tick id p).1) in
    let r2 = Reach.next r1 (Step.player env ok (exchange_step env id s1 p refl m)) in
    let (u, v) = pitches_run env (tick id p).1 r s2 (tick id p).0 ok r2 refl refl in
    (
      u,
      record {
        run = v.run;
        player = v.player;
        state = v.state;
        request = v.request;
        speaker = v.speaker;
      },
    )

ticks_run :
    {Ok : Env → Type 0} (env : Env) (n : ℕ) (r s : System) (p : Player)
    → Ok env
    → Reach Ok r s
    → s.player ≡ looping p
    → s.audio.player_state ≡ running
    → s.audio.next_track_id ≡ max_tracks
    → (u : System) × Rounds Ok env r s u (ticks n p).0 (ticks n p).1
unfolding ticks feed
ticks_run env zero r s p ok run e h m =
    (s, record { run = run; player = e; state = refl; request = m; speaker = refl })
ticks_run env (suc n) r s p ok run e h m =
    let (q, out) = tick max_tracks p in
    let (s1, one) = tick_run env max_tracks r s p ok run e h m in
    let (u, v) = ticks_run env n r s1 q ok one.run one.player (one.state ∙ h) one.request in
    (u, Rounds-append v one)

-- The player with a request.
perform_run :
    {Ok : Env → Type 0} (env : Env) (id : AudioTrackId) (n : ℕ) (r s : System) (p : Player)
    → Ok env
    → Reach Ok r s
    → s.player ≡ looping p
    → s.audio.player_state ≡ running
    → s.audio.next_track_id ≡ id
    → (u : System) × Rounds Ok env r s u (perform id n p).0 (perform id n p).1
unfolding perform
perform_run env id n r s p ok run e h m =
    let (q, out) = tick id p in
    let (s1, one) = tick_run env id r s p ok run e h m in
    let (u, v) = ticks_run env n r s1 q ok one.run one.player (one.state ∙ h) one.request in
    (u, Rounds-append v one)

wake_step : (s : System) → s.task ≡ wait true → task_step s ≡ some (record s { task = get })
unfolding task_step
wake_step s e = rw (e, task_step) refl

get_step :
    (s : System) (m : Message)
    → s.task ≡ get
    → (get_message s.audio.queue).0 ≡ some m
    → task_step s
      ≡ some (record s {
        audio = record (s.audio) { queue = (get_message s.audio.queue).1 };
        task = handle m;
      })
unfolding task_step
get_step s m e h = ground arith

handle_step :
    (s : System) (id : AudioTrackId)
    → s.task ≡ handle (msg_id_play_track id)
    → task_step s
      ≡ some (record s { audio = record (s.audio) { next_track_id = id }; task = check })
unfolding task_step process_message
handle_step s id e = ground arith

-- The first message of an empty queue is taken, and is the next one that is got.
first_message :
    (m : Message) (q : MsgQueue)
    → Invariant.IsValid q
    → q.msg_q_len ≡ 0
    → ((send_message false m q).0 ≡ error_none)
      × ((get_message (send_message false m q).1).0 ≡ some m)
unfolding Fifo.put Fifo.get
first_message m q v e =
    let nothing : contents q ≡ [] = rw e refl in
    let sent = send_message_refines false m v ∙ ap (Fifo.put false m) nothing in
    let got = get_message_refines (send_message-IsValid false m v) in
    (ap (λ r. r.0) sent, ap (λ r. r.0) got ∙ ap (λ r. (Fifo.get r).0) (ap (λ r. r.1) sent))

-- A task that is told of a track has handed it to the player.
record Delivered (Ok : Env → Type 0) (s u : System) (id : AudioTrackId) : Type 0 where
  run : Reach Ok s u
  request : u.audio.next_track_id ≡ id
  player : u.player ≡ s.player
  state : u.audio.player_state ≡ s.audio.player_state
  speaker : u.audio.speaker ≡ s.audio.speaker

deliver :
    {Ok : Env → Type 0} (w : Answers) (i : ℕ) (id : AudioTrackId) (s : System)
    → s.callers i ≡ some id
    → s.task ≡ wait false
    → Invariant.IsValid s.audio.queue
    → s.audio.queue.msg_q_len ≡ 0
    → w.msg_lock_fails ≡ false
    → (u : System) × Delivered Ok s u id
unfolding send_track
deliver {Ok} w i id s c t v e l =
    let (taken, got) = first_message (msg_id_play_track id) s.audio.queue v e in
    let s1 : System = record (sent (send_track w id s.audio) s) {
      callers = update s.callers i none;
    } in
    let r1 : Reach Ok s s1 = Reach.next Reach.here (Step.play_send w i id c (rw t refl)) in
    let signalled : s1.task ≡ wait true = rw (l, taken, t) refl in
    let s2 : System = record s1 { task = get } in
    let r2 : Reach Ok s s2 = Reach.next r1 (Step.task (wake_step s1 signalled)) in
    let waiting : (get_message s2.audio.queue).0 ≡ some (msg_id_play_track id) = rw l got in
    let r3 = Reach.next r2 (Step.task (get_step s2 (msg_id_play_track id) refl waiting)) in
    let r4 = Reach.next r3 (Step.task (handle_step _ id refl)) in
    (_, record { run = r4; request = refl; player = refl; state = refl; speaker = refl })

-- From every state in which the task waits on an empty queue, the player is in its loop, and a caller
-- of `Audio_PlayTrack` has passed its test with a track, the threads can come to one in which the
-- player has played the track whole: the channel has given each note of the melody in order with
-- silence behind it, whatever it gave before, and the player is idle. The lock of the queue, the
-- mutexes of the speaker and its files work, and the speaker gives the frequency it has recorded.
pub play_send-Plays :
    (env : Env) (w : Answers) (i : ℕ) (id : AudioTrackId) (n f : ℕ) (s : System) (p : Player)
    {t : Track}
    → Works env
    → s.callers i ≡ some id
    → s.task ≡ wait false
    → Invariant.IsValid s.audio.queue
    → s.audio.queue.msg_q_len ≡ 0
    → w.msg_lock_fails ≡ false
    → s.player ≡ looping p
    → s.audio.player_state ≡ running
    → id ≢ max_tracks
    → get_track id ≡ some t
    → suc n ≡ duration t.rhythm
    → Gives env f s.audio.speaker
    → (u : System) × Reach Works s u
      × (u.player ≡ looping (idle 0))
      × (u.audio.speaker ≡ feed env (song t.melody) s.audio.speaker)
      × Plays env (song t.melody) s.audio.speaker
      × Gives env 0 u.audio.speaker
play_send-Plays env w i id n f s p {t} works c wt v e l pl run h g d given =
    let (s1, told) = deliver {Ok = Works} w i id s c wt v e l in
    let (u, played) =
      perform_run env id n s s1 p works told.run (told.player ∙ pl) (told.state ∙ run)
        told.request in
    let whole = perform_lem id n p h g d in
    let (same, notes, last) = perform-Plays env id n f p s.audio.speaker works h g d given in
    let heard : u.audio.speaker ≡ feed env (perform id n p).1 s.audio.speaker =
      played.speaker ∙ ap (λ k. feed env (perform id n p).1 k) told.speaker in
    (
      u,
      played.run,
      played.player ∙ ap (λ r. looping r.0) whole,
      heard ∙ ap (λ fs. feed env fs s.audio.speaker) same,
      rw same at notes,
      rw heard last,
    )
