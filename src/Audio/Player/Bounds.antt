-- ===== src/Audio/Player/Bounds.antt =====
-- The range of the indices of `PlayerTaskLoop` and of what it hands to the speaker.
use battery_info.Prelude.{
  ℕ, zero, suc, ◌+◌, ◌≤◌, ◌<◌, ◌^◌, ◌≡◌, refl, ◌≢◌, inl, inr, true, false, List, [], ◌∷◌, ◌++◌,
  some, get_or, ◌==◌, Bool-cases, Option-cases, dec_lt, if◌then◌else◌, arith,
}
use battery_info.Audio.Track.{AudioTrackId, max_tracks}
use battery_info.Audio.Music.{Track, get_track}
use battery_info.Audio.Music.Shape.{AllBelow, IsWellFormed, get_track-IsPlayable}
use battery_info.Audio.Player.{Player, init, is_end, tick}
use battery_info.Audio.Player.Steps.{playing, tick-held, tick-last, after_note, started}
use battery_info.Audio.Player.Whole.{tick-request}

-- Between two rounds the player has no track, or it is at a note of a track that Music.h has, its
-- pointers at that track's arrays, and the note has not been held longer than its time.
pub data InRange : Player → Type 0 where
  resting : {p : Player} → is_end p.curr_track_id ≡ true → InRange p
  sounding :
      (id : AudioTrackId) (t : Track) (i k : ℕ)
      → is_end id ≡ false
      → get_track id ≡ some t
      → i < t.len
      → k ≤ get_or t.rhythm i 0
      → InRange (playing id t.melody t.rhythm t.len i k)

-- What a round leaves: a player in range, and pitches that fit an uint16_t.
abbrev pub IsSound : Player × List ℕ → Type 0
IsSound r = InRange r.0 × AllBelow (2 ^ 16) r.1

is_end→ne : (id : AudioTrackId) → is_end id ≡ false → id ≢ max_tracks
is_end→ne id h e = ground arith

track-IsWellFormed :
    (id : AudioTrackId) {t : Track} → is_end id ≡ false → get_track id ≡ some t → IsWellFormed t
track-IsWellFormed id h e = rw e at (get_track-IsPlayable id (is_end→ne id h))

AllBelow-get_or : (n : ℕ) (xs : List ℕ) (i : ℕ) → AllBelow n xs → 0 < n → get_or xs i 0 < n
AllBelow-get_or n [] i h p = p
AllBelow-get_or n (x ∷ xs) zero h p = h.0
AllBelow-get_or n (x ∷ xs) (suc i) h p = AllBelow-get_or n xs i h.1 p

AllBelow-append : (n : ℕ) (xs ys : List ℕ) → AllBelow n xs → AllBelow n ys → AllBelow n (xs ++ ys)
AllBelow-append n [] ys hx hy = hy
AllBelow-append n (x ∷ xs) ys hx hy = (hx.0, AllBelow-append n xs ys hx.1 hy)

started-AllBelow :
    (m : List ℕ) (i k : ℕ)
    → AllBelow (2 ^ 16) m
    → AllBelow (2 ^ 16) (if k == 0 then get_or m i 0 ∷ [] else [])
started-AllBelow m i k h = elim (Bool-cases (k == 0)) [
  | inl e ↦ rw e (AllBelow-get_or (2 ^ 16) m i h (omega arith), tt)
  | inr e ↦ rw e tt
]

module _ (id : AudioTrackId) (t : Track) (is_track : is_end id ≡ false)
    (found : get_track id ≡ some t) where
  after_note-InRange :
      (i : ℕ) → i < t.len → InRange (after_note id is_track t.melody t.rhythm t.len i)
  after_note-InRange i h = elim (Bool-cases (suc i == t.len)) [
    | inl e ↦ rw e (resting refl)
    | inr e ↦ rw e (sounding id t (i + 1) 0 is_track found (ground arith) (omega arith))
  ]

  tick-playing :
      (i k : ℕ)
      → i < t.len
      → k ≤ get_or t.rhythm i 0
      → IsSound (tick max_tracks (playing id t.melody t.rhythm t.len i k))
  tick-playing i k hi hk = elim (dec_lt k (get_or t.rhythm i 0)) [
    | yes p ↦ rw (tick-held id is_track t.melody t.rhythm t.len i k hi p) (
      sounding id t i (k + 1) is_track found hi (omega arith),
      started-AllBelow t.melody i k notes,
    )
    | no p ↦ rw (tick-last id is_track t.melody t.rhythm t.len i k hi (omega arith)) (
      after_note-InRange i hi,
      AllBelow-append (2 ^ 16) (started id is_track t.melody t.rhythm t.len i k) (0 ∷ [])
          (started-AllBelow t.melody i k notes) (omega arith),
    )
  ]
    where
      notes : AllBelow (2 ^ 16) t.melody
      notes = (track-IsWellFormed id is_track found).notes_fit

found_track : (id : AudioTrackId) → is_end id ≡ false → (t : Track) × (get_track id ≡ some t)
found_track id h = elim (Option-cases (get_track id)) [
  | inl e ↦ absurd (rw e at (get_track-IsPlayable id (is_end→ne id h)))
  | inr (t, e) ↦ (t, e)
]

is_end→eq : (id : AudioTrackId) → is_end id ≡ true → id ≡ max_tracks
is_end→eq id h = ground arith

tick-resting : (p : Player) → is_end p.curr_track_id ≡ true → tick max_tracks p ≡ (p, 0 ∷ [])
unfolding tick
tick-resting p h = ground arith

tick-quiet : (p : Player) → InRange p → IsSound (tick max_tracks p)
tick-quiet p (resting h) = rw (tick-resting p h) (resting h, omega arith)
tick-quiet p (sounding id t i k h e hi hk) = tick-playing id t h e i k hi hk

tick-InRange : (next : AudioTrackId) (p : Player) → InRange p → IsSound (tick next p)
tick-InRange next p v = elim (Bool-cases (is_end next)) [
  | inl e ↦ rw (is_end→eq next e) (tick-quiet p v)
  | inr e ↦
      let (t, found) = found_track next e in
      rw (tick-request next p e found)
        (tick-playing next t e found 0 0 (track-IsWellFormed next e found).nonempty (omega arith))
]

-- The loop from its start, with what NextTrackID holds at each round.
unfoldable pub rounds : List AudioTrackId → Player → Player × List ℕ
rounds [] p = (p, [])
rounds (next ∷ more) p =
    let (q, out) = tick next p in let (r, rest) = rounds more q in (r, out ++ rest)

rounds-InRange : (nexts : List AudioTrackId) (p : Player) → InRange p → IsSound (rounds nexts p)
unfolding rounds
rounds-InRange [] p v = (v, tt)
rounds-InRange (next ∷ more) p v =
    let (v', out) = tick-InRange next p v in
    let (v'', rest) = rounds-InRange more (tick next p).0 v' in
    (v'', AllBelow-append (2 ^ 16) (tick next p).1 (rounds more (tick next p).0).1 out rest)

-- Whatever requests come, and at whatever rounds, the player stays in range: it is at no note
-- outside the tables of Music.h, and what it hands to the speaker fits an uint16_t.
pub rounds-IsSound : (nexts : List AudioTrackId) → IsSound (rounds nexts init)
rounds-IsSound nexts = rounds-InRange nexts init (resting refl)
