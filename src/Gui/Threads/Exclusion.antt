-- ===== src/Gui/Threads/Exclusion.antt =====
-- The calls of LVGL by several threads: who makes them, and that one always can.
use battery_info.Prelude.{
  ℕ, zero, suc, ◌≡◌, ◌≢◌, ◌⊎◌, inl, inr, refl, ap, ◌∙◌, Bool, Option-cases, true, false, ==_iff,
  List, [], ◌∷◌, Option, none, some, arith,
}
use battery_info.Gui.Calls.{Call}
use battery_info.Gui.Locking.{after, held, IsGuarded}
use battery_info.Gui.Use.{Use, perform-IsGuarded}
use battery_info.Gui.Widgets.{Screen}
use battery_info.Gui.Start.{run_task_round, run_tick_round}
use battery_info.Gui.Threads.{
  Jobs, AreLocked, task_calls, tick_calls, use_calls, calls_of, Threads, owner_after, Step, step,
  Reach, start,
}
use battery_info.Gui.Threads.Invariant.{
  runs, runs-backwards, owns, alive, ended, Inv, next_call, Reach-Inv,
}

task_calls-IsGuarded :
    (ts : List ℕ) (log : List Call) → IsGuarded log → IsGuarded (task_calls ts log)
unfolding run_task_round
task_calls-IsGuarded [] log h = h
task_calls-IsGuarded (t ∷ ts) log h =
    task_calls-IsGuarded ts (run_task_round t log).1 (ground arith)

tick_calls-IsGuarded : (n : ℕ) (log : List Call) → IsGuarded log → IsGuarded (tick_calls n log)
unfolding run_tick_round
tick_calls-IsGuarded zero log h = h
tick_calls-IsGuarded (suc n) log h = tick_calls-IsGuarded n (run_tick_round log).1 (ground arith)

use_calls-IsGuarded :
    (s : Screen) (us : List Use) (log : List Call)
    → AreLocked us
    → IsGuarded log
    → IsGuarded (use_calls s us log)
use_calls-IsGuarded s [] log l h = h
use_calls-IsGuarded s (u ∷ us) log (l, ls) h =
    let (done, e, guarded) = perform-IsGuarded s u log l h in
    let same : use_calls s (u ∷ us) log ≡ use_calls s us done =
      ap (λ o. elim o [ none ↦ log | some d ↦ use_calls s us d ]) e in
    rw same (use_calls-IsGuarded s us done ls guarded)

-- The uses of the widgets are all under the lock.
abbrev pub IsProper : Jobs → Type 0
IsProper j = (i : ℕ) → AreLocked (j.uses i)

calls_of-IsGuarded : (s : Screen) (j : Jobs) (i : ℕ) → IsProper j → IsGuarded (calls_of s j i)
unfolding calls_of
calls_of-IsGuarded s j zero l = task_calls-IsGuarded j.task_rounds [] refl
calls_of-IsGuarded s j (suc zero) l = tick_calls-IsGuarded j.tick_rounds [] refl
calls_of-IsGuarded s j (suc (suc i)) l = use_calls-IsGuarded s (j.uses i) [] (l i) refl

pub start-Inv : (s : Screen) (j : Jobs) → IsProper j → Inv (start s j)
start-Inv s j l = record {
  threads = λ i. alive (runs-backwards (calls_of s j i) [] ∙ calls_of-IsGuarded s j i l);
  lock = refl;
}

owner_of :
    (i : ℕ) (c : Call) (o : Option ℕ) (b : Bool)
    → after c (some (owns i o)) ≡ some b
    → after c (some false) ≡ none
    → o ≡ some i
owner_of i c o b mine needs = ground arith

-- However the calls of any number of threads interleave (the two of gui.cpp, and others that use its
-- widgets in any row of functions other than `DisableButton`, with tables that have the rows they
-- are said to have), and whether cancelled threads end or not: when the next call of a thread needs the
-- lock, the thread has it, so that no two threads are ever at such calls together; and the calls of all
-- of them so far, as they were made, are guarded, with the lock taken.
pub Reach-owner :
    (s : Screen) (j : Jobs) (t : Threads) (i : ℕ) (c : Call) (cs : List Call)
    → IsProper j
    → Reach (start s j) t
    → t.left i ≡ c ∷ cs
    → after c (some false) ≡ none
    → (t.owner ≡ some i) × (held t.log ≡ some true)
Reach-owner s j t i c cs l r e needs =
    let v = Reach-Inv r (start-Inv s j l) in
    let (b, mine, rest) = next_call t i c cs v e in
    let has = owner_of i c t.owner b mine needs in (has, v.lock ∙ rw has refl)

owner_after-ne-none :
    (i : ℕ) (c : Call) (o : Option ℕ) (b : Bool)
    → after c (some (owns i o)) ≡ some b
    → (o ≡ none) ⊎ (o ≡ some i)
    → owner_after i c o ≢ none
owner_after-ne-none i c o b h k = ground arith

-- A thread that is not at its end, while the lock is free or its own.
thread_step :
    (t : Threads) (i : ℕ) (calls : List Call)
    → Inv t
    → t.left i ≡ calls
    → calls ≢ []
    → (t.owner ≡ none) ⊎ (t.owner ≡ some i)
    → (u : Threads) × Step t u
thread_step t i [] v e ne k = absurd (ne refl)
thread_step t i (c ∷ cs) v e ne k =
    let (b, mine, rest) = next_call t i c cs v e in
    elim (Option-cases (owner_after i c t.owner)) [
      | inl waits ↦ absurd (owner_after-ne-none i c t.owner b mine k waits)
      | inr (o, a) ↦ (_, step i c cs o e a)
    ]

-- A thread that has the lock has calls left, unless it was cancelled and has ended.
abbrev pub HasGone : Threads → ℕ → Type 0
HasGone t j = (t.owner ≡ some j) × (t.left j ≡ []) × (t.cancelled j ≡ true)

owner-alive :
    (t : Threads) (j : ℕ)
    → t.owner ≡ some j
    → runs (some (owns j t.owner)) (t.left j) ≡ some false
    → t.left j ≢ []
owner-alive t j taken h e =
    let h' = rw (taken, e) at h in let self = (==_iff j j).1 refl in ground arith

-- The threads never all wait, unless one that was cancelled has ended with the lock: while one is not
-- at the end of its calls, some thread can make its next call, or the lock is with a thread that has
-- been cancelled and has ended.
pub Reach-Step :
    (s : Screen) (j : Jobs) (t : Threads) (i : ℕ)
    → IsProper j
    → Reach (start s j) t
    → t.left i ≢ []
    → ((u : Threads) × Step t u) ⊎ ((k : ℕ) × HasGone t k)
Reach-Step s j t i l r ne =
    let v = Reach-Inv r (start-Inv s j l) in
    elim (Option-cases t.owner) [
      | inl free ↦ inl (thread_step t i (t.left i) v refl ne (inl free))
      | inr (k, taken) ↦ elim (v.threads k) [
        | alive h ↦ inl (thread_step t k (t.left k) v refl (owner-alive t k taken h) (inr taken))
        | ended nothing d ↦ inr (k, (taken, nothing, d))
      ]
    ]
