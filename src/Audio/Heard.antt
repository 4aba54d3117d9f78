-- ===== src/Audio/Heard.antt =====
-- What the speaker does with the pitches that the player hands to it: `PlayerTaskLoop` of Audio.c
-- over `Speaker_PlayPitch` of Speaker.c.
use battery_info.Prelude.{ℕ, suc, ◌≡◌, refl, ◌≢◌, List, [], ◌∷◌, some, length, ◌≤◌, arith}
use battery_info.Audio.Track.{AudioTrackId, max_tracks}
use battery_info.Audio.Music.{Track, get_track}
use battery_info.Audio.Music.Shape.{get_track-IsPlayable, IsWellFormed}
use battery_info.Audio.Player.{Player}
use battery_info.Audio.Player.Whole.{song, duration, perform, perform_lem}
use battery_info.Speaker.Env.{Env, Speaker, speaker_inited}
use battery_info.Speaker.Off.{play_pitch-state}
use battery_info.Speaker.Device.{play_pitch, feed}
use battery_info.Speaker.Pitch.{Works, Sounding, play_pitch-Sounding}

abbrev last_or : ℕ → List ℕ → ℕ
last_or f [] = f
last_or f (g ∷ gs) = last_or g gs

-- The speaker is initialised, and its channel gives the current frequency.
pub record Gives (env : Env) (f : ℕ) (s : Speaker) : Type 0 where
  pub state : s.state ≡ speaker_inited
  pub current : s.current_freq ≡ f
  pub sounds : Sounding env.period_ns s.current_freq s.effects

play_pitch-Gives :
    (env : Env) (f g : ℕ) (s : Speaker)
    → Works env
    → Gives env f s
    → Gives env g (play_pitch env g s).1
play_pitch-Gives env f g s w v =
    let (ok, current, sounds) = play_pitch-Sounding env g s w v.state v.sounds in
    record {
      state = play_pitch-state env g s v.state;
      current = current;
      sounds = rw current sounds;
    }

feed-Gives :
    (env : Env) (fs : List ℕ) (f : ℕ) (s : Speaker)
    → Works env
    → Gives env f s
    → Gives env (last_or f fs) (feed env fs s)
unfolding feed
feed-Gives env [] f s w v = v
feed-Gives env (g ∷ gs) f s w v =
    feed-Gives env gs g (play_pitch env g s).1 w (play_pitch-Gives env f g s w v)

last_or-song : (f : ℕ) (m : List ℕ) → 1 ≤ length m → last_or f (song m) ≡ 0
last_or-song f [] h = absurd (omega arith)
last_or-song f (x ∷ []) h = refl
last_or-song f (x ∷ y ∷ m) h = last_or-song 0 (y ∷ m) (omega arith)

-- After each of the pitches the channel gives it.
abbrev pub Plays : Env → List ℕ → Speaker → Type 0
Plays env [] s = Unit
Plays env (f ∷ fs) s = Gives env f (play_pitch env f s).1 × Plays env fs (play_pitch env f s).1

feed-Plays :
    (env : Env) (fs : List ℕ) (f : ℕ) (s : Speaker) → Works env → Gives env f s → Plays env fs s
feed-Plays env [] f s w v = tt
feed-Plays env (g ∷ gs) f s w v =
    let given = play_pitch-Gives env f g s w v in
    (given, feed-Plays env gs g (play_pitch env g s).1 w given)

-- A track over the speaker: whatever frequency the speaker was giving, and whatever the player was
-- doing, when the track was requested, the channel gives each note of the melody in order, and
-- silence behind it, in the rounds that the track takes; after them it is silent, with frequency 0
-- recorded. The speaker is initialised, it gives the frequency that it has recorded, and its files
-- can be written.
pub perform-Plays :
    (env : Env) (id : AudioTrackId) (n f : ℕ) (p : Player) (s : Speaker) {t : Track}
    → Works env
    → id ≢ max_tracks
    → get_track id ≡ some t
    → suc n ≡ duration t.rhythm
    → Gives env f s
    → ((perform id n p).1 ≡ song t.melody)
      × Plays env (perform id n p).1 s
      × Gives env 0 (feed env (perform id n p).1 s)
perform-Plays env id n f p s {t} w h e d v =
    let shape : IsWellFormed t = rw e at (get_track-IsPlayable id h) in
    let long : 1 ≤ length t.melody = rw (shape.melody_len) shape.nonempty in
    let last : Gives env 0 (feed env (song t.melody) s) =
      rw (last_or-song f t.melody long) at (feed-Gives env (song t.melody) f s w v) in
    rw (perform_lem id n p h e d) (refl, feed-Plays env (song t.melody) f s w v, last)
