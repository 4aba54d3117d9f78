-- ===== src/Audio/Music/Scale.antt =====
-- The scale of Music.h: its notes from NOTE_B0 to NOTE_DS8, a semitone apart.
use battery_info.Prelude.{
  ℕ, zero, suc, ◌+◌, ◌-◌, ◌*◌, ◌^◌, ◌≤◌, ◌<◌, ◌≡◌, ◌∙◌, refl, ◌≢◌, Bool, true, ◌&&◌, ◌||◌, ◌==◌,
  leb, List, [], ◌∷◌, get_or, arith, length, leb→le,
}
use battery_info.Audio.Music.Notes.{
  note_c3, note_e3, note_g3, note_a3, note_c4, note_d4, note_e4, note_f4, note_g4, note_a4, note_b4,
  note_c5, note_d5, note_g5, note_a5, note_b5,
}

-- In hertz. NOTE_A4 has index 46.
unfoldable pub notes : List ℕ
notes =
    31 ∷ 33 ∷ 35 ∷ 37 ∷ 39 ∷ 41 ∷ 44 ∷ 46 ∷ 49 ∷ 52 ∷ 55 ∷ 58 ∷ 62 ∷ 65 ∷ 69 ∷ 73 ∷ 78 ∷ 82 ∷ 87
    ∷ 93 ∷ 98 ∷ 104 ∷ 110 ∷ 117 ∷ 123 ∷ note_c3 ∷ 139 ∷ 147 ∷ 156 ∷ note_e3 ∷ 175 ∷ 185 ∷ note_g3
    ∷ 208 ∷ note_a3 ∷ 233 ∷ 247 ∷ note_c4 ∷ 277 ∷ note_d4 ∷ 311 ∷ note_e4 ∷ note_f4 ∷ 370 ∷ note_g4
    ∷ 415 ∷ note_a4 ∷ 466 ∷ note_b4 ∷ note_c5 ∷ 554 ∷ note_d5 ∷ 622 ∷ 659 ∷ 698 ∷ 740 ∷ note_g5
    ∷ 831 ∷ note_a5 ∷ 932 ∷ note_b5 ∷ 1047 ∷ 1109 ∷ 1175 ∷ 1245 ∷ 1319 ∷ 1397 ∷ 1480 ∷ 1568 ∷ 1661
    ∷ 1760 ∷ 1865 ∷ 1976 ∷ 2093 ∷ 2217 ∷ 2349 ∷ 2489 ∷ 2637 ∷ 2794 ∷ 2960 ∷ 3136 ∷ 3322 ∷ 3520
    ∷ 3729 ∷ 3951 ∷ 4186 ∷ 4435 ∷ 4699 ∷ 4978 ∷ []

-- Twice the frequency of equal temperament, to the power of twelve: a semitone is the twelfth root of
-- two, and the note of index 46 is at 440 Hz. It is multiplied by 2 ^ 46, so that it is a natural
-- number.
abbrev doubled_power : ℕ → ℕ
doubled_power i = 880 ^ 12 * 2 ^ i

-- The frequency of index `i` lies within half a hertz of `n`.
abbrev pub IsNearest : ℕ → ℕ → Type 0
IsNearest i n =
    ((n + n - 1) ^ 12 * 2 ^ 46 ≤ doubled_power i) × (doubled_power i ≤ (n + n + 1) ^ 12 * 2 ^ 46)

is_nearest : ℕ → ℕ → Bool
is_nearest i n =
    leb ((n + n - 1) ^ 12 * 2 ^ 46) (doubled_power i)
    && leb (doubled_power i) ((n + n + 1) ^ 12 * 2 ^ 46)

-- Each note from index `i` on, except the one of index 19.
are_nearest : ℕ → List ℕ → Bool
unfolding is_nearest
are_nearest i [] = true
are_nearest i (n ∷ ns) = (i == 19 || is_nearest i n) && are_nearest (i + 1) ns

notes_nearest : are_nearest 0 notes ≡ true
unfolding are_nearest notes
notes_nearest = refl

&&-true : (a b : Bool) → (a && b) ≡ true → (a ≡ true) × (b ≡ true)
&&-true a b h = ground arith

is_nearest-IsNearest : (i n : ℕ) → is_nearest i n ≡ true → IsNearest i n
unfolding is_nearest
is_nearest-IsNearest i n h = let (low, high) = &&-true _ _ h in (leb→le _ _ low, leb→le _ _ high)

not_excepted : (i : ℕ) (b : Bool) → (i == 19 || b) ≡ true → i ≢ 19 → b ≡ true
not_excepted i b h ne = ground arith

are_nearest-IsNearest :
    (ns : List ℕ) (i j k : ℕ)
    → are_nearest i ns ≡ true
    → k < length ns
    → j ≡ i + k
    → j ≢ 19
    → IsNearest j (get_or ns k 0)
unfolding are_nearest
are_nearest-IsNearest [] i j k h l e ne = absurd (omega arith)
are_nearest-IsNearest (n ∷ ns) i j zero h l e ne =
    let same : j ≡ i = omega arith in
    let here = not_excepted i (is_nearest i n) (&&-true _ _ h).0 (λ i19. ne (same ∙ i19)) in
    rw same (is_nearest-IsNearest i n here)
are_nearest-IsNearest (n ∷ ns) i j (suc k) h l e ne =
    are_nearest-IsNearest ns (i + 1) j k (&&-true _ _ h).1 (omega arith) (omega arith) ne

-- Each of the 89 notes is the frequency of equal temperament with NOTE_A4 at 440 Hz, rounded to the
-- nearest hertz, except the one of index 19, NOTE_FS2.
pub notes-IsNearest : (i : ℕ) → i < 89 → i ≢ 19 → IsNearest i (get_or notes i 0)
unfolding notes
notes-IsNearest i h ne = are_nearest-IsNearest notes 0 i i notes_nearest h (omega arith) ne
