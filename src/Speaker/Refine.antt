-- ===== src/Speaker/Refine.antt =====
-- The interface of Speaker.c against its abstract view, where the system refuses nothing.
use mathlib.Core.Path.{subst}
use battery_info.Prelude.{
  ℕ, ◌≡◌, refl, ap, ap₂, ◌∙◌, true, false, ◌==◌, List, [], ◌∷◌, arith, Bool-cases, inl, inr,
}
use battery_info.Speaker.Env.{speaker_inited, Speaker, Env, is_inited}
use battery_info.Speaker.Volume.{set_volume}
use battery_info.Speaker.Device.{init, write_pitch, play_pitch, de_init}
use battery_info.Speaker.Pitch.{Sounding, Works, write_pitch-effects}
use battery_info.Speaker.Off.{inited}
use battery_info.Speaker.Failure.{de_init-kept}
use battery_info.Speaker.Pins.{
  Call, init_call, de_init_call, play_pitch_call, set_volume_call, step, run,
}
use battery_info.Speaker.Tone.{
  Tone, tone_step, Succeeds, env_of, Represents, SameChannel-Sounding, init-SameChannel,
  set_volume-SameChannel, init_lem, set_volume-kept, write_pitch-kept, de_init_lem,
  set_volume-refused, set_volume-taken, init-refused, de_init-refused, play_pitch-refused,
}

init_refines :
    {p : ℕ → ℕ} (env : Env) (s : Speaker) (t : Tone)
    → Succeeds p env
    → Represents p s t
    → let (r, s') = init env s in
      let (r', t') = tone_step t (init_call env) in (r ≡ r') × Represents p s' t'
unfolding tone_step
init_refines {p} env s t w v = elim (Bool-cases t.active) [
  | inl e ↦ simp (init-refused env s w.works.speaker_lock (v.active ∙ e), e) (refl, v)
  | inr e ↦
      let (ok, live, pins, freq) = init_lem env s w (v.active ∙ e) in
      simp e (
        ok,
        record {
          active = live;
          pins = pins;
          asked = freq ∙ v.asked;
          sounding = SameChannel-Sounding p t.sounds (init-SameChannel env s) v.sounding;
        },
      )
]

set_volume_refines :
    {p : ℕ → ℕ} (env : Env) (n : ℕ) (s : Speaker) (t : Tone)
    → Succeeds p env
    → Represents p s t
    → let (r, s') = set_volume env n s in
      let (r', t') = tone_step t (set_volume_call env n) in (r ≡ r') × Represents p s' t'
unfolding tone_step
set_volume_refines {p} env n s t w v =
    let (state, pins, freq) = set_volume-kept env n s in
    let still : Represents p (set_volume env n s).1 t = record {
      active = ap is_inited state ∙ v.active;
      pins = pins ∙ v.pins;
      asked = freq ∙ v.asked;
      sounding = SameChannel-Sounding p t.sounds (set_volume-SameChannel env n s) v.sounding;
    } in
    elim (Bool-cases t.active) [
      | inl e ↦ simp e (set_volume-taken env n s w (v.pins ∙ e), still)
      | inr e ↦ simp e (set_volume-refused env n s w.works.volume_lock (v.pins ∙ e), still)
    ]

-- What an initialised speaker is like behind the two calls that it takes.
de_init-Represents :
    {p : ℕ → ℕ} (env : Env) (s : Speaker) (t : Tone)
    → Succeeds p env
    → Represents p s t
    → s.state ≡ speaker_inited
    → Represents p (de_init env s).1 (record t { active = false; sounds = 0 })
de_init-Represents env s t w v i =
    let (ok, ended, closed) = de_init_lem env s w.works i in
    let (freq, off) = de_init-kept env s w.works i in
    record { active = ended; pins = closed; asked = freq ∙ v.asked; sounding = λ on. cc }

de_init_refines :
    {p : ℕ → ℕ} (env : Env) (s : Speaker) (t : Tone)
    → Succeeds p env
    → Represents p s t
    → let (r, s') = de_init env s in
      let (r', t') = tone_step t (de_init_call env) in (r ≡ r') × Represents p s' t'
unfolding tone_step
de_init_refines env s t w v = elim (Bool-cases t.active) [
  | inl e ↦
      let i = inited s (v.active ∙ e) in
      simp e ((de_init_lem env s w.works i).0, de_init-Represents env s t w v i)
  | inr e ↦ simp (de_init-refused env s w.works.speaker_lock (v.active ∙ e), e) (refl, v)
]

play_pitch-same :
    (env : Env) (f : ℕ) (s : Speaker)
    → Works env
    → s.state ≡ speaker_inited
    → (f == s.current_freq) ≡ true
    → play_pitch env f s ≡ (0, s)
unfolding play_pitch
play_pitch-same env f s w i e = simp (w.speaker_lock, i, e) refl

play_pitch-new :
    (env : Env) (f : ℕ) (s : Speaker)
    → Works env
    → s.state ≡ speaker_inited
    → (f == s.current_freq) ≡ false
    → play_pitch env f s ≡ (0, record (write_pitch env f s) { current_freq = f })
unfolding play_pitch
play_pitch-new env f s w i e = simp (w.speaker_lock, i, e) refl

written-Represents :
    {p : ℕ → ℕ} (env : Env) (f : ℕ) (s : Speaker) (t : Tone)
    → Succeeds p env
    → Represents p s t
    → Represents p
        (record (write_pitch env f s) { current_freq = f })
        (record t { sounds = f; asked = f })
written-Represents env f s t w v =
    let (state, pins) = write_pitch-kept env f s in
    record {
      active = ap is_inited state ∙ v.active;
      pins = pins ∙ v.pins;
      asked = refl;
      sounding =
          subst (λ q. Sounding q f (write_pitch env f s).effects) w.same_period
            (write_pitch-effects env f s w.works);
    }

tone-same :
    (env : Env) (f : ℕ) (t : Tone)
    → t.active ≡ true
    → (f == t.asked) ≡ true
    → tone_step t (play_pitch_call env f) ≡ (0, t)
unfolding tone_step
tone-same env f t e same = ground arith

tone-new :
    (env : Env) (f : ℕ) (t : Tone)
    → t.active ≡ true
    → (f == t.asked) ≡ false
    → tone_step t (play_pitch_call env f) ≡ (0, record t { sounds = f; asked = f })
unfolding tone_step
tone-new env f t e new = ground arith

played_refines :
    {p : ℕ → ℕ} (env : Env) (f : ℕ) (s : Speaker) (t : Tone)
    → Succeeds p env
    → Represents p s t
    → t.active ≡ true
    → let (r, s') = play_pitch env f s in
      let (r', t') = tone_step t (play_pitch_call env f) in (r ≡ r') × Represents p s' t'
played_refines env f s t w v e =
    let i = inited s (v.active ∙ e) in
    elim (Bool-cases (f == t.asked)) [
      | inl same ↦
          let same' = rw (← v.asked) at same in
          rw (play_pitch-same env f s w.works i same', tone-same env f t e same) (refl, v)
      | inr new ↦
          let new' = rw (← v.asked) at new in
          rw (play_pitch-new env f s w.works i new', tone-new env f t e new)
            (refl, written-Represents env f s t w v)
    ]

play_pitch_refines :
    {p : ℕ → ℕ} (env : Env) (f : ℕ) (s : Speaker) (t : Tone)
    → Succeeds p env
    → Represents p s t
    → let (r, s') = play_pitch env f s in
      let (r', t') = tone_step t (play_pitch_call env f) in (r ≡ r') × Represents p s' t'
unfolding tone_step
play_pitch_refines env f s t w v = elim (Bool-cases t.active) [
  | inl e ↦ played_refines env f s t w v e
  | inr e ↦ simp (play_pitch-refused env f s w.works.speaker_lock (v.active ∙ e), e) (refl, v)
]

step_refines :
    {p : ℕ → ℕ} (c : Call) (s : Speaker) (t : Tone)
    → Succeeds p (env_of c)
    → Represents p s t
    → ((step s c).0 ≡ (tone_step t c).0) × Represents p (step s c).1 (tone_step t c).1
unfolding step
step_refines (init_call env) s t w v = init_refines env s t w v
step_refines (de_init_call env) s t w v = de_init_refines env s t w v
step_refines (play_pitch_call env f) s t w v = play_pitch_refines env f s t w v
step_refines (set_volume_call env n) s t w v = set_volume_refines env n s t w v

-- The results of a row of calls, of the speaker and of the tone.
unfoldable pub results : List Call → Speaker → List ℕ
results [] s = []
results (c ∷ cs) s = (step s c).0 ∷ results cs (step s c).1

unfoldable pub tone_results : List Call → Tone → List ℕ
tone_results [] t = []
tone_results (c ∷ cs) t = (tone_step t c).0 ∷ tone_results cs (tone_step t c).1

unfoldable pub tone_run : List Call → Tone → Tone
tone_run [] t = t
tone_run (c ∷ cs) t = tone_run cs (tone_step t c).1

abbrev pub AllSucceed : (ℕ → ℕ) → List Call → Type 0
AllSucceed p [] = Unit
AllSucceed p (c ∷ cs) = Succeeds p (env_of c) × AllSucceed p cs

-- Any row of calls of the interface during which the system refuses nothing returns what an abstract
-- speaker returns, which knows only whether it is initialised, the frequency that sounds, and the one
-- that was asked for last; behind the row the channel gives the frequency that sounds there (none when
-- it is 0), and the speaker is initialised, with both volume pins open, when the abstract one is.
pub run_refines :
    {p : ℕ → ℕ} (cs : List Call) (s : Speaker) (t : Tone)
    → AllSucceed p cs
    → Represents p s t
    → (results cs s ≡ tone_results cs t) × Represents p (run cs s) (tone_run cs t)
unfolding results tone_results tone_run run
run_refines [] s t w v = (refl, v)
run_refines (c ∷ cs) s t (w, ws) v =
    let (same, next) = step_refines c s t w v in
    let (rest, last) = run_refines cs (step s c).1 (tone_step t c).1 ws next in
    (ap₂ ◌∷◌ same rest, last)
