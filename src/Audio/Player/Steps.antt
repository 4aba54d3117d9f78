-- ===== src/Audio/Player/Steps.antt =====
-- One round of the player while it plays a track.
use battery_info.Prelude.{
  ℕ, zero, suc, ◌+◌, ◌<◌, ◌≡◌, refl, ◌∙◌, ◌≢◌, false, List, [], ◌∷◌, ◌++◌, none, some, ◌==◌, get_or,
  if◌then◌else◌, arith, append_assoc, append-nil,
}
use Prim.Native.Nat.add
use battery_info.Audio.Track.{AudioTrackId, max_tracks}
use battery_info.Audio.Player.{Player, is_end, tick, ticks}

pub ne→is_end : (id : AudioTrackId) → id ≢ max_tracks → is_end id ≡ false
ne→is_end AudioTrackId.scale h = refl
ne→is_end max_tracks h = absurd (h refl)
ne→is_end _ h = refl

-- Tick `k` of note `i` of a track.
abbrev pub playing : AudioTrackId → List ℕ → List ℕ → ℕ → ℕ → ℕ → Player
playing id m r len i k = record {
  tick_count = k;
  note_index = i;
  curr_track_id = id;
  melody = some m;
  rhythm = some r;
  len = len;
}

-- A player with no track.
abbrev pub idle : ℕ → Player
idle k = record {
  tick_count = k;
  note_index = 0;
  curr_track_id = max_tracks;
  melody = none;
  rhythm = none;
  len = 0;
}

ticks-step :
    (n : ℕ) (p : Player) {q : Player} {out : List ℕ}
    → tick max_tracks p ≡ (q, out)
    → ticks (suc n) p ≡ (let (r, rest) = ticks n q in (r, out ++ rest))
unfolding ticks
ticks-step n p e = rw e

ticks-one :
    (p : Player) {q : Player} {out : List ℕ} → tick max_tracks p ≡ (q, out) → ticks 1 p ≡ (q, out)
unfolding ticks
ticks-one p {q} {out} e = rw e (rw (append-nil out))

module _ (id : AudioTrackId) (is_track : is_end id ≡ false) (m r : List ℕ) (len : ℕ) where
  -- What a note's tick `k` starts to sound.
  abbrev pub started : ℕ → ℕ → List ℕ
  started i k = if k == 0 then get_or m i 0 ∷ [] else []

  -- The player after note `i`.
  abbrev pub after_note : ℕ → Player
  after_note i = if (suc i) == len then idle 0 else playing id m r len (i + 1) 0

  pub tick-held :
      (i k : ℕ)
      → i < len
      → k < get_or r i 0
      → tick max_tracks (playing id m r len i k) ≡ (playing id m r len i (k + 1), started i k)
  unfolding tick
  tick-held i k hi hk = ground arith

  pub tick-last :
      (i k : ℕ)
      → i < len
      → k ≡ get_or r i 0
      → tick max_tracks (playing id m r len i k) ≡ (after_note i, started i k ++ (0 ∷ []))
  unfolding tick
  tick-last i k hi hk = ground arith

  -- From tick `k` of a note that has `d` ticks to go.
  pub ticks-note :
      (d i k : ℕ)
      → i < len
      → k + d ≡ get_or r i 0
      → ticks (suc d) (playing id m r len i k) ≡ (after_note i, started i k ++ (0 ∷ []))
  ticks-note zero i k hi e = ticks-one (playing id m r len i k) (tick-last i k hi (omega arith))
  ticks-note (suc d) i k hi e =
      ticks-step (suc d) (playing id m r len i k) (tick-held i k hi (omega arith))
      ∙ rw (ticks-note d i (k + 1) hi (omega arith)) (ground arith)

pub ticks-add :
    (a b : ℕ) (p : Player)
    → ticks (a + b) p ≡ (let (q, out) = ticks a p in let (s, rest) = ticks b q in (s, out ++ rest))
unfolding ticks
ticks-add zero b p = rw (add.zero b)
ticks-add (suc a) b p = rw (add.suc a b, ticks-add a b (tick max_tracks p).0) (rw append_assoc)
