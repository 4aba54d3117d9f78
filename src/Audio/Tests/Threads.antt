-- ===== src/Audio/Tests/Threads.antt =====
-- The theorems of the threads of Audio.c on a start and an end of the task.
use battery_info.Audio.System.Silence.{Reach-IsOff}
use battery_info.Speaker.Off.{IsOff}
use battery_info.Prelude.{◌≡◌, ◌≤◌, refl, false, [], ◌∷◌, none, some, map, ◌++◌}
use battery_info.Audio.Error.{running, ending}
use battery_info.Audio.Queue.{send_message, init_messaging}
use battery_info.Audio.Player.{init}
use battery_info.Audio.Control.{audio_init, audio_start, audio_started, audio_send_end}
use battery_info.Audio.System.{
  check, looping, closing, System, free, created, joining, absent, begin, returned, no_player, wait,
  Reach, here, next, Step, IsInitial, task_step, sent,
}
use battery_info.Audio.System.Ending.{settle, rank, settle-joining, rank-joining}
use battery_info.Audio.System.Race.{IsDeaf, Reach-IsDeaf}
use battery_info.Audio.System.Order.{message, accepted, fates, Reach-accepted}
use battery_info.Audio.Queue.Refine.{contents}
use battery_info.Speaker.Device
use battery_info.Speaker.Pitch.{Works}
use battery_info.Speaker.Tests.{working-Works, working, ready}
use battery_info.Audio.System.Sound.{play_send-Plays}
use battery_info.Audio.Heard.{Gives, Plays}
use battery_info.Audio.Player.Steps.{idle}
use battery_info.Audio.Track.{quick}
use battery_info.Speaker.Device.{feed}
use battery_info.Audio.Music.{get_track}
use battery_info.Audio.Tests.{silent, answers, empty-IsValid}

abbrev at_start : System
at_start = record {
  audio = silent;
  control = free;
  task = absent;
  player = no_player;
  callers = λ i. none;
}

-- Initialised; with the task created; with Running set; with Ending set; waiting.
abbrev initialised : System
initialised = record at_start { audio = (audio_init answers silent).1 }

abbrev forked : System
forked = record initialised { control = created; task = begin; player = no_player }

abbrev alive : System
alive = record forked { audio = audio_started forked.audio; control = free }

abbrev told : System
told = record alive { audio = record (alive.audio) { my_state = ending }; control = closing }

abbrev waiting : System
waiting = record (sent (audio_send_end answers told.audio) told) { control = joining }

at_start-IsInitial : IsInitial at_start
at_start-IsInitial = (refl, refl, refl, refl)

forked-Reach : Reach Works at_start forked
unfolding audio_init audio_start init_messaging Device.init
forked-Reach =
    next (next here (Step.init_call answers working-Works refl))
      (Step.start_call answers refl refl refl)

waiting-Reach : Reach Works at_start waiting
unfolding audio_init audio_start audio_started init_messaging Device.init audio_send_end
    send_message
waiting-Reach =
    next (next (next forked-Reach (Step.start_return refl)) (Step.end_call refl refl))
      (Step.end_send answers refl refl refl)

settle-joining_example : (settle (λ n. working) 14 waiting).task ≡ returned
unfolding audio_send_end send_message
settle-joining_example =
    settle-joining (λ n. working) at_start waiting at_start-IsInitial empty-IsValid waiting-Reach
      refl

abbrev begun : System
begun = record waiting {
  audio = record (waiting.audio) { player_state = running };
  player = looping init;
  task = check;
}

rank-joining_example : rank begun.task begun.player ≤ rank waiting.task waiting.player
unfolding audio_init audio_start audio_started init_messaging Device.init audio_send_end
    send_message task_step
rank-joining_example =
    rank-joining at_start waiting begun at_start-IsInitial empty-IsValid waiting-Reach
      (Step.task refl) refl refl

Reach-IsDeaf_example : (t : System) × Reach Works forked t × IsDeaf t
unfolding audio_init init_messaging Device.init
Reach-IsDeaf_example = Reach-IsDeaf working forked working-Works refl refl refl

Reach-IsOff_example : IsOff waiting.audio.speaker
Reach-IsOff_example = Reach-IsOff at_start waiting at_start-IsInitial (λ f. cc) waiting-Reach refl

-- The task sleeps, and a caller has a track.
abbrev listening : System
listening = record {
  audio = record silent { my_state = running; player_state = running; speaker = ready };
  control = free;
  task = wait false;
  player = looping init;
  callers = λ i. some quick;
}

play_send-Plays_example :
    (u : System) × Reach Works listening u
    × (u.player ≡ looping (idle 0))
    × (u.audio.speaker ≡ feed working (2500 ∷ 0 ∷ []) ready)
    × Plays working (2500 ∷ 0 ∷ []) ready
    × Gives working 0 u.audio.speaker
unfolding get_track
play_send-Plays_example =
    play_send-Plays working answers 3 quick 150 0 listening init working-Works refl refl
      empty-IsValid refl refl refl refl (λ e. cc) refl refl
      (record { state = refl; current = refl; sounds = λ e. cc })

-- END is in the queue, and nothing has come out of it.
Reach-accepted_example :
    contents silent.queue ++ accepted waiting-Reach
    ≡ map message (fates waiting-Reach) ++ contents waiting.audio.queue
Reach-accepted_example = Reach-accepted waiting-Reach at_start-IsInitial empty-IsValid
