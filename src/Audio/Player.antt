-- ===== src/Audio/Player.antt =====
-- `PlayerTaskLoop` of Audio.c: one round of its loop, a millisecond long, and a row of rounds.
pub mod Steps
pub mod Whole
pub mod Bounds
use battery_info.Prelude.{
  ℕ, zero, suc, ◌+◌, Bool, true, false, ◌&&◌, ◌||◌, List, [], ◌∷◌, ◌++◌, Option, none, some, leb,
  ◌==◌, get_or, if◌then◌else◌,
}
use battery_info.Audio.Track.{AudioTrackId, max_tracks}
use battery_info.Audio.Music.{Track, get_track}

-- The local variables of the loop. A null pointer is `none`.
pub record Player : Type 0 where
  pub tick_count : ℕ
  pub note_index : ℕ
  pub curr_track_id : AudioTrackId
  pub melody : Option (List ℕ)
  pub rhythm : Option (List ℕ)
  pub len : ℕ

-- Their values before the first round.
abbrev pub init : Player
init = record {
  tick_count = 0;
  note_index = 0;
  curr_track_id = max_tracks;
  melody = none;
  rhythm = none;
  len = 0;
}

-- `id >= MaxTracks`
abbrev pub is_end : AudioTrackId → Bool
is_end max_tracks = true
is_end _ = false

abbrev pub is_null : Option (List ℕ) → Bool
is_null none = true
is_null (some _) = false

-- `p[i]`; the model's 0 for a read that the program must not make.
abbrev pub read : Option (List ℕ) → ℕ → ℕ
read none i = 0
read (some xs) i = get_or xs i 0

-- A request taken from NextTrackID restarts the player with the new track.
take_request : AudioTrackId → Player → Player
take_request next p = if is_end next then p else record {
  tick_count = 0;
  note_index = 0;
  curr_track_id = next;
  melody = none;
  rhythm = none;
  len = p.len;
}

-- `GetTrack` where the track's arrays are not set; `none` where it fails.
load : Player → Option Player
load p =
    if p.note_index == 0 && (is_null p.melody || is_null p.rhythm)
    then elim (get_track p.curr_track_id) [
      | none ↦ none
      | some t ↦ some (record p { melody = some t.melody; rhythm = some t.rhythm; len = t.len })
    ]
    else some p

-- The end of the round: after the last note the player forgets the track.
forget : Player → Player
forget p =
    if leb p.len p.note_index
    then record p {
      note_index = 0;
      melody = none;
      rhythm = none;
      curr_track_id = max_tracks;
      len = 0;
    }
    else p

-- The note is started on its first tick and stopped after its last.
pub sound : Player → Player × List ℕ
unfolding forget
sound p =
    let started : List ℕ = if p.tick_count == 0 then read p.melody p.note_index ∷ [] else [] in
    if leb (read p.rhythm p.note_index) p.tick_count
    then (forget (record p { tick_count = 0; note_index = p.note_index + 1 }), started ++ (0 ∷ []))
    else (forget (record p { tick_count = p.tick_count + 1 }), started)

pub play : Player → Player × List ℕ
unfolding sound
play p =
    if is_null p.melody || is_null p.rhythm || leb p.len p.note_index
    then (record p { curr_track_id = max_tracks }, 0 ∷ [])
    else sound p

play_loaded : Player → Option Player → Player × List ℕ
unfolding play
play_loaded p none = (record p { melody = none; rhythm = none; curr_track_id = max_tracks }, 0 ∷ [])
play_loaded p (some q) = play q

-- One round. `next` is what NextTrackID held, which now holds MaxTracks; the list is that of the
-- pitches handed to `Speaker_PlayPitch`, in order.
unfoldable pub tick : AudioTrackId → Player → Player × List ℕ
unfolding take_request load play_loaded
tick next p =
    let q = take_request next p in
    if is_end q.curr_track_id then (q, 0 ∷ []) else play_loaded q (load q)

-- Rounds in which no request comes.
unfoldable pub ticks : ℕ → Player → Player × List ℕ
ticks zero p = (p, [])
ticks (suc n) p = let (q, out) = tick max_tracks p in let (r, rest) = ticks n q in (r, out ++ rest)
