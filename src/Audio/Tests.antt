-- ===== src/Audio/Tests.antt =====
-- The theorems of the audio on a queue that runs round its end, on two short tracks, and on a run
-- of the system.
mod Threads
use battery_info.Audio.Error.{Message}
use battery_info.Prelude.{List, some, ◌++◌}
use battery_info.Audio.Queue.Runs.{
  QueueCall, calls, send_all, get_all, taken, given, calls_refines, list_calls, send_all-get_all,
}
use battery_info.Audio.Queue.Runs
use battery_info.Audio.System.Silence.{Reach-IsOff}
use battery_info.Speaker.Off.{IsOff}
use battery_info.Prelude.{◌≡◌, ◌≤◌, refl, false, [], ◌∷◌, none, arith, replicate}
use battery_info.Audio.Track.{quick, scan, docked, max_tracks}
use battery_info.Audio.Error.{
  error_none, error_task_stopped, msg_id_end, msg_id_play_track, ended, running, ending,
}
use battery_info.Audio.Queue.{MsgQueue, send_message, init_messaging}
use battery_info.Audio.Queue.Fifo
use battery_info.Audio.Queue.Invariant
use battery_info.Audio.Queue.Refine.{contents}
use battery_info.Audio.Music.Scale.{notes, IsNearest, notes-IsNearest}
use battery_info.Audio.Music.{get_track}
use battery_info.Audio.Music.Shape.{IsPlayable, get_track-IsPlayable}
use battery_info.Audio.Player.{init}
use battery_info.Audio.Player.Steps.{idle}
use battery_info.Audio.Player.Whole.{perform, perform_lem}
use battery_info.Audio.Player.Bounds.{IsSound, rounds, rounds-IsSound}
use battery_info.Audio.Control.{
  run_audio_player, play_track, Audio, Answers, audio_init, audio_start, audio_started,
  audio_send_end,
}
use battery_info.Audio.System.{
  check, looping, closing, System, free, created, joining, absent, begin, returned, no_player,
  Reach, here, next, Step, IsInitial, task_step, sent,
}
use battery_info.Audio.System.Ending.{settle, rank, settle-joining, rank-joining}
use battery_info.Audio.System.Race.{IsDeaf, Reach-IsDeaf}
use battery_info.Speaker.Device
use battery_info.Speaker.Device.{feed}
use battery_info.Audio.Heard.{Gives, Plays, perform-Plays}
use battery_info.Audio.Control.Ready.{run_audio_player-plays}
use battery_info.Speaker.Pitch.{Works}
use battery_info.Speaker.Tests.{ready, working-Works, working, unused}

-- Three messages in the slots 8, 9 and 0.
abbrev wrapped : MsgQueue
wrapped = record {
  msg_q =
      msg_id_play_track docked
      ∷ msg_id_end
      ∷ msg_id_end
      ∷ msg_id_end
      ∷ msg_id_end
      ∷ msg_id_end
      ∷ msg_id_end
      ∷ msg_id_end
      ∷ msg_id_play_track quick
      ∷ msg_id_play_track scan
      ∷ [];
  msg_q_len = 3;
  top_msg_index = 8;
}

wrapped-IsValid : Invariant.IsValid wrapped
wrapped-IsValid = record { slots = refl; len_le = omega arith; top_lt = omega arith }

oldest_first :
    contents wrapped
    ≡ msg_id_play_track quick ∷ msg_id_play_track scan ∷ msg_id_play_track docked ∷ []
oldest_first = refl

perform_lem_example : perform quick 150 init ≡ (idle 0, 2500 ∷ 0 ∷ [])
unfolding get_track
perform_lem_example = perform_lem quick 150 init (λ e. cc) refl refl

notes-IsNearest_example : IsNearest 46 440
unfolding notes
notes-IsNearest_example = notes-IsNearest 46 (omega arith) (λ e. absurd (omega arith))

get_track-IsPlayable_example : IsPlayable (get_track docked)
get_track-IsPlayable_example = get_track-IsPlayable docked (λ e. cc)

rounds-IsSound_example : IsSound (rounds (quick ∷ max_tracks ∷ scan ∷ max_tracks ∷ []) init)
rounds-IsSound_example = rounds-IsSound (quick ∷ max_tracks ∷ scan ∷ max_tracks ∷ [])

abbrev pub answers : Answers
answers = record {
  audio_lock_fails = false;
  msg_lock_fails = false;
  mutex_init_fails = false;
  cond_init_fails = false;
  thread_create_fails = false;
  mutex_destroy_fails = false;
  cond_destroy_fails = false;
  system = working;
}

abbrev pub silent : Audio
silent = record {
  my_state = ended;
  player_state = ended;
  next_track_id = max_tracks;
  queue = record { msg_q = replicate 10 msg_id_end; msg_q_len = 0; top_msg_index = 0 };
  speaker = unused;
}

empty-IsValid : Invariant.IsValid silent.queue
empty-IsValid = record { slots = refl; len_le = omega arith; top_lt = omega arith }

-- `Audio_PlayTrack` before `Audio_start`: refused, with nothing sent.
stopped_early : play_track answers quick silent ≡ (error_task_stopped, silent)
unfolding play_track
stopped_early = refl

run_audio_player-plays_example :
    let (error, b) = play_track answers scan (run_audio_player answers answers answers silent) in
    (error ≡ error_none) × (contents b.queue ≡ msg_id_play_track scan ∷ [])
unfolding audio_init init_messaging Device.init
run_audio_player-plays_example =
    run_audio_player-plays answers answers answers answers scan silent empty-IsValid refl refl refl
      refl

abbrev script : List QueueCall
script = Runs.sends false msg_id_end ∷ Runs.gets ∷ Runs.gets ∷ []

calls_refines_example :
    ((calls script silent.queue).0
      ≡ Runs.sent error_none ∷ Runs.got (some msg_id_end) ∷ Runs.got none ∷ [])
    × (contents (calls script silent.queue).1 ≡ [])
    × Invariant.IsValid (calls script silent.queue).1
unfolding list_calls Fifo.get Fifo.put
calls_refines_example = calls_refines script empty-IsValid

abbrev two_messages : List Message
two_messages = msg_id_play_track scan ∷ msg_id_end ∷ []

send_all-get_all_example :
    (calls (send_all two_messages ++ get_all two_messages) silent.queue).0
    ≡ taken two_messages ++ given two_messages
send_all-get_all_example = send_all-get_all two_messages empty-IsValid refl (omega arith)
