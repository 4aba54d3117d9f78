-- ===== src/Audio/Music/Shape.antt =====
-- The lengths and the entries of the tables of Music.h.
use battery_info.Prelude.{
  ℕ, ◌≤◌, ◌<◌, ◌^◌, ◌≡◌, refl, ◌≢◌, List, [], ◌∷◌, Option, none, some, length, arith,
}
use battery_info.Audio.Track.{AudioTrackId, scale, max_tracks}
use battery_info.Audio.Music.{Track, get_track}

-- Every number of the list is below the bound.
abbrev pub AllBelow : ℕ → List ℕ → Type 0
AllBelow n [] = Unit
AllBelow n (x ∷ xs) = (x < n) × AllBelow n xs

pub record IsWellFormed (t : Track) : Type 0 where
  pub melody_len : length t.melody ≡ t.len
  pub rhythm_len : length t.rhythm ≡ t.len
  pub nonempty : 1 ≤ t.len
  pub notes_fit : AllBelow (2 ^ 16) t.melody
  pub times_fit : AllBelow (2 ^ 16) t.rhythm

abbrev pub IsPlayable : Option Track → Type 0
IsPlayable none = ⊥
IsPlayable (some t) = IsWellFormed t

-- Every track but the end marker has a table; in it notes and durations are as many, there is one
-- at least, and each of them fits an uint16_t.
pub get_track-IsPlayable : (id : AudioTrackId) → id ≢ max_tracks → IsPlayable (get_track id)
unfolding get_track
get_track-IsPlayable max_tracks h = absurd (h refl)
get_track-IsPlayable scale h = omega arith
get_track-IsPlayable _ h = omega arith
