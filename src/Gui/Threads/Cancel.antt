-- ===== src/Gui/Threads/Cancel.antt =====
-- `GuiCleanUp`, and the thread that it cancels.
use battery_info.Prelude.{
  ℕ, ◌≡◌, ◌≢◌, refl, sym, ap, ◌∙◌, Bool, Bool-cases, inl, inr, true, false, ==_iff, List, [], ◌∷◌,
  Option, none, some, ◌==◌, arith,
}
use battery_info.Gui.Calls.{
  Call, mutex_lock, mutex_unlock, thread_cancel, lvgl_task, lvgl_tick, task_handler,
}
use battery_info.Gui.Locking.{after}
use battery_info.Gui.Start.{gui_clean_up, run_task_round}
use battery_info.Gui.Widgets.{Screen}
use battery_info.Gui.Threads.{
  Jobs, backwards, Threads, owner_after, Step, step, end, Reach, here, next, start, cancelled_after,
}
use battery_info.Gui.Threads.Invariant.{owns, Inv, next_call, Reach-Inv, cancelled_after-true}
use battery_info.Gui.Threads.Exclusion.{IsProper, start-Inv, HasGone}

-- No call of another thread changes the owner of the lock.
others_call :
    (i j : ℕ) (c : Call) (o : Option ℕ) (b : Bool)
    → after c (some (owns i (some j))) ≡ some b
    → (i == j) ≡ false
    → owner_after i c (some j) ≡ some o
    → o ≡ some j
others_call i j c o b mine other a = ground arith

-- A thread that makes a call is not one that has ended.
not_same :
    (t : Threads) (i j : ℕ) (c : Call) (cs : List Call)
    → t.left j ≡ []
    → t.left i ≡ c ∷ cs
    → (i == j) ≡ false
not_same t i j c cs nothing e = elim (Bool-cases (i == j)) [
  | inr other ↦ other
  | inl same ↦
      let at_j = sym e ∙ ap t.left ((==_iff i j).0 same) ∙ nothing in absurd (cons-nil at_j)
]
  where
    cons-nil : {c : Call} {cs : List Call} → (c ∷ cs) ≢ []
    cons-nil e = cc

Step-HasGone : {t u : Threads} (j : ℕ) → Step t u → Inv t → HasGone t j → HasGone u j
Step-HasGone {t} j (step i c cs o e a) v (taken, nothing, d) =
    let other = not_same t i j c cs nothing e in
    let (b, mine, rest) = next_call t i c cs v e in
    (
      others_call i j c o b (rw taken at mine) other (rw taken at a),
      rw other nothing,
      cancelled_after-true c t.cancelled j d,
    )
Step-HasGone {t} j (end i c cs e d' p) v (taken, nothing, d) =
    let other = not_same t i j c cs nothing e in (taken, rw other nothing, d)

Reach-keeps_gone : {t u : Threads} (j : ℕ) → Reach t u → Inv t → HasGone t j → HasGone u j
Reach-keeps_gone j here v g = g
Reach-keeps_gone j (next r st) v g = Step-HasGone j st (Reach-Inv r v) (Reach-keeps_gone j r v g)

-- Once a cancelled thread has ended with the lock, whatever steps follow: the lock stays with it, so
-- that no other thread ever takes it again.
pub Reach-HasGone :
    (s : Screen) (j : Jobs) (t u : Threads) (k : ℕ)
    → IsProper j
    → Reach (start s j) t
    → HasGone t k
    → Reach t u
    → HasGone u k
Reach-HasGone s j t u k l r g r' = Reach-keeps_gone k r' (Reach-Inv r (start-Inv s j l)) g

-- The state behind a call of thread `i`.
record Advance (t : Threads) (i : ℕ) (c : Call) (cs : List Call) (o : Option ℕ) : Type 0 where
  state : Threads
  made : Step t state
  own : state.left i ≡ cs
  others : (j : ℕ) → (i == j) ≡ false → state.left j ≡ t.left j
  owner : state.owner ≡ o
  cancelled : state.cancelled ≡ cancelled_after c t.cancelled

advance :
    (t : Threads) (i : ℕ) (c : Call) (cs : List Call) (o : Option ℕ)
    → t.left i ≡ c ∷ cs
    → owner_after i c t.owner ≡ some o
    → Advance t i c cs o
advance t i c cs o e a = record {
  state = _;
  made = step i c cs o e a;
  own = rw ((==_iff i i).1 refl) refl;
  others = λ j other. rw other refl;
  owner = refl;
  cancelled = refl;
}

-- From every state in which the lock is free, `RunTaskThread` is at the beginning of a round, and another
-- thread is at the beginning of `GuiCleanUp`, the threads can come to one in which `RunTaskThread` has
-- been cancelled and has ended inside `lv_task_handler`, with the lock.
pub clean_up-HasGone :
    (t : Threads) (i n : ℕ) (cs cs' : List Call)
    → t.owner ≡ none
    → i ≢ 0
    → t.left 0 ≡ backwards (run_task_round n []).1 cs
    → t.left i ≡ backwards (gui_clean_up []).1 cs'
    → (u : Threads) × Reach t u × HasGone u 0
unfolding gui_clean_up run_task_round
clean_up-HasGone t i n cs cs' free ne e0 ei =
    let apart : (i == 0) ≡ false = ground arith in
    let s1 = advance t i mutex_lock _ (some i) ei (rw free refl) in
    let s2 = advance s1.state i (thread_cancel lvgl_task) _ (some i) s1.own (rw s1.owner refl) in
    let s3 = advance s2.state i (thread_cancel lvgl_tick) _ (some i) s2.own (rw s2.owner refl) in
    let s4 = advance s3.state i mutex_unlock _ none s3.own refl in
    let same = s4.others 0 apart ∙ s3.others 0 apart ∙ s2.others 0 apart ∙ s1.others 0 apart ∙ e0 in
    let s5 = advance s4.state 0 mutex_lock _ (some 0) same (rw s4.owner refl) in
    let gone : s5.state.cancelled 0 ≡ true =
      rw (s5.cancelled, s4.cancelled, s3.cancelled, s2.cancelled) refl in
    (
      _,
      next (next (next (next (next (next here s1.made) s2.made) s3.made) s4.made) s5.made)
          (end 0 task_handler _ s5.own gone refl),
      (s5.owner, refl, gone),
    )
