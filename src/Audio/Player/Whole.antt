-- ===== src/Audio/Player/Whole.antt =====
-- A whole track in `PlayerTaskLoop`.
use battery_info.Prelude.{
  ℕ, zero, suc, ◌+◌, ◌≡◌, refl, ◌∙◌, ◌≢◌, false, List, [], ◌∷◌, ◌++◌, some, length, get_or, drop,
  drop-eq-cons, drop-length, replicate, ◌<◌, ◌-◌, arith,
}
use native.Mathlib.Nat.{add-zero}
use battery_info.Audio.Track.{AudioTrackId, max_tracks}
use battery_info.Audio.Music.{Track, get_track}
use battery_info.Audio.Music.Shape.{IsWellFormed, get_track-IsPlayable}
use battery_info.Audio.Player.{Player, is_end, tick, ticks}
use battery_info.Audio.Player.Steps.{playing, idle, ne→is_end, ticks-note, ticks-add}

-- What the speaker is told for a whole track: each note, and silence after it.
abbrev pub song : List ℕ → List ℕ
song [] = []
song (x ∷ xs) = x ∷ 0 ∷ song xs

-- The rounds that a track takes: a note held for `t` ticks takes one round more.
abbrev pub duration : List ℕ → ℕ
duration [] = 0
duration (t ∷ ts) = suc t + duration ts

-- The round that takes a request, and the `n` rounds behind it, in which no other comes.
unfoldable pub perform : AudioTrackId → ℕ → Player → Player × List ℕ
perform id n p = let (q, first) = tick id p in let (r, rest) = ticks n q in (r, first ++ rest)

pub tick-request :
    (id : AudioTrackId) (p : Player) {t : Track}
    → is_end id ≡ false
    → get_track id ≡ some t
    → tick id p ≡ tick max_tracks (playing id t.melody t.rhythm t.len 0 0)
unfolding tick
tick-request id p h e = ground arith

module _ (id : AudioTrackId) (is_track : is_end id ≡ false) (m r : List ℕ) (len : ℕ)
    (melody_len : length m ≡ len) (rhythm_len : length r ≡ len) where
  -- A note that is not the last one.
  ticks-inner :
      (i : ℕ)
      → suc i < len
      → ticks (suc (get_or r i 0)) (playing id m r len i 0)
        ≡ (playing id m r len (suc i) 0, get_or m i 0 ∷ 0 ∷ [])
  ticks-inner i h =
      ticks-note id is_track m r len (get_or r i 0) i 0 (omega arith) (omega arith) ∙ ground arith

  ticks-final :
      (i : ℕ)
      → suc i ≡ len
      → ticks (suc (get_or r i 0)) (playing id m r len i 0) ≡ (idle 0, get_or m i 0 ∷ 0 ∷ [])
  ticks-final i h =
      ticks-note id is_track m r len (get_or r i 0) i 0 (omega arith) (omega arith) ∙ ground arith

  -- From the start of a note to the end of the track; `n` notes follow it.
  ticks-from :
      (n i : ℕ)
      → i + suc n ≡ len
      → ticks (duration (drop i r)) (playing id m r len i 0) ≡ (idle 0, song (drop i m))
  ticks-from zero i h =
      rw (drop-eq-cons r i 0 (omega arith), drop-eq-cons m i 0 (omega arith))
        (rw (drop-length r (suc i) (omega arith), drop-length m (suc i) (omega arith), add-zero)
          (ticks-final i (omega arith)))
  ticks-from (suc n) i h =
      rw (drop-eq-cons r i 0 (omega arith), drop-eq-cons m i 0 (omega arith))
        (ticks-add (suc (get_or r i 0)) (duration (drop (suc i) r)) (playing id m r len i 0)
          ∙ rw (ticks-inner i (omega arith), ticks-from n (suc i) (omega arith)))

perform-ticks :
    (id : AudioTrackId) (n : ℕ) (p : Player) {t : Track}
    → is_end id ≡ false
    → get_track id ≡ some t
    → perform id n p ≡ ticks (suc n) (playing id t.melody t.rhythm t.len 0 0)
unfolding perform ticks
perform-ticks id n p h e = rw (tick-request id p h e)

perform-track :
    (id : AudioTrackId) (n : ℕ) (p : Player) {t : Track}
    → is_end id ≡ false
    → IsWellFormed t
    → get_track id ≡ some t
    → suc n ≡ duration t.rhythm
    → perform id n p ≡ (idle 0, song t.melody)
perform-track id n p {t} h w e d =
    perform-ticks id n p h e
    ∙ rw d (
        ticks-from id h t.melody t.rhythm t.len w.melody_len w.rhythm_len (t.len - 1) 0
          (omega arith))

-- Whatever the player was doing when the request came: a track is played once and whole. In as
-- many rounds as its notes take (each one more than it is held) the speaker is told each note of
-- the melody in order, with silence after it and nothing else, and at the end of those rounds
-- the player has no track.
pub perform_lem :
    (id : AudioTrackId) (n : ℕ) (p : Player) {t : Track}
    → id ≢ max_tracks
    → get_track id ≡ some t
    → suc n ≡ duration t.rhythm
    → perform id n p ≡ (idle 0, song t.melody)
perform_lem id n p {t} h e d =
    perform-track id n p (ne→is_end id h) (rw e at (get_track-IsPlayable id h)) e d

-- With no track the player stays silent for as long as no request comes.
ticks-idle : (n k : ℕ) → ticks n (idle k) ≡ (idle k, replicate n 0)
unfolding ticks tick
ticks-idle zero k = refl
ticks-idle (suc n) k = rw (ticks-idle n k)
