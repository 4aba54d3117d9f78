-- ===== src/Gui/Threads/Invariant.antt =====
-- The lock of LVGL in every state that its threads can reach.
use battery_info.Prelude.{
  ℕ, ◌≡◌, inl, inr, refl, sym, ◌∙◌, Bool, Bool-cases, Option-cases, true, false, ◌==◌, ==_iff, List,
  [], ◌∷◌, Option, none, some, arith,
}
use battery_info.Gui.Calls.{Call}
use battery_info.Gui.Locking.{after, held}
use battery_info.Gui.Threads.{
  backwards, Threads, owner_after, cancelled_after, is_cancellation_point, Step, step, end, Reach,
  here, next,
}

-- The lock behind the calls of one thread, in their order.
abbrev pub runs : Option Bool → List Call → Option Bool
runs b [] = b
runs b (c ∷ cs) = runs (after c b) cs

after-none : (c : Call) → after c none ≡ none
after-none c = ground arith

runs-none : (cs : List Call) → runs none cs ≡ none
runs-none [] = refl
runs-none (c ∷ cs) = rw (after-none c) (runs-none cs)

pub runs-backwards :
    (log cs : List Call) → runs (some false) (backwards log cs) ≡ runs (held log) cs
runs-backwards [] cs = refl
runs-backwards (c ∷ log) cs = runs-backwards log (c ∷ cs)

abbrev pub owns : ℕ → Option ℕ → Bool
owns i none = false
owns i (some j) = i == j

abbrev pub is_taken : Option ℕ → Bool
is_taken none = false
is_taken (some j) = true

-- The calls of a thread agree with the lock, or it was cancelled and has ended.
pub data Keeps (s : Threads) (i : ℕ) : Type 0 where
  alive : runs (some (owns i s.owner)) (s.left i) ≡ some false → Keeps s i
  ended : s.left i ≡ [] → s.cancelled i ≡ true → Keeps s i

-- Each thread's calls agree with the lock, and so do the calls made.
pub record Inv (s : Threads) : Type 0 where
  pub threads : (i : ℕ) → Keeps s i
  pub lock : held s.log ≡ some (is_taken s.owner)

-- A call that the thread may make, and that does not wait.
record Fits (i : ℕ) (c : Call) (owner o : Option ℕ) (b : Bool) : Type 0 where
  mine : b ≡ owns i o
  lock : after c (some (is_taken owner)) ≡ some (is_taken o)
  others : (j : ℕ) → (i == j) ≡ false → owns j o ≡ owns j owner

call-Fits :
    (i : ℕ) (c : Call) (owner o : Option ℕ) (b : Bool)
    → after c (some (owns i owner)) ≡ some b
    → owner_after i c owner ≡ some o
    → Fits i c owner o b
call-Fits i c owner o b h a = record {
  mine = ground arith;
  lock = ground arith;
  others = λ j ne. ground arith;
}

-- A thread's next call does not break the rule that its calls follow.
pub first_call :
    (b : Option Bool) (c : Call) (cs : List Call)
    → runs (after c b) cs ≡ some false
    → (b' : Bool) × (after c b ≡ some b') × (runs (some b') cs ≡ some false)
first_call b c cs h = elim (Option-cases (after c b)) [
  | inl e ↦ (let bad = sym (runs-none cs) ∙ (rw e at h) in cc)
  | inr (b', e) ↦ (b', e, rw e at h)
]

-- A thread with calls left has not ended.
pub next_call :
    (s : Threads) (i : ℕ) (c : Call) (cs : List Call)
    → Inv s
    → s.left i ≡ c ∷ cs
    → (b : Bool) × (after c (some (owns i s.owner)) ≡ some b) × (runs (some b) cs ≡ some false)
next_call s i c cs v e = elim (v.threads i) [
  | alive h ↦ first_call (some (owns i s.owner)) c cs (rw e at h)
  | ended none_left d ↦ (let bad = sym e ∙ none_left in cc)
]

pub cancelled_after-true :
    (c : Call) (f : ℕ → Bool) (i : ℕ) → f i ≡ true → cancelled_after c f i ≡ true
cancelled_after-true c f i h = ground arith

point-owner :
    (i : ℕ) (c : Call) (o : Option ℕ) → is_cancellation_point c ≡ true → owner_after i c o ≡ some o
point-owner i c o h = ground arith

Step-Inv : {s t : Threads} → Step s t → Inv s → Inv t
Step-Inv {s} (step i c cs o e a) v =
    let (b, mine, rest) = next_call s i c cs v e in
    let fits = call-Fits i c s.owner o b mine a in
    record {
      threads = λ j. elim (Bool-cases (i == j)) [
        | inl same ↦ let e : i ≡ j = (==_iff i j).0 same in alive (rw (same, ← e, ← fits.mine) rest)
        | inr other ↦ elim (v.threads j) [
          | alive h ↦ alive (rw (other, fits.others j other) h)
          | ended h d ↦ ended (rw other h) (cancelled_after-true c s.cancelled j d)
        ]
      ];
      lock = rw v.lock fits.lock;
    }
Step-Inv {s} (end i c cs e d p) v =
    let (b, mine, rest) = next_call s i c cs v e in
    let fits = call-Fits i c s.owner s.owner b mine (point-owner i c s.owner p) in
    record {
      threads = λ j. elim (Bool-cases (i == j)) [
        | inl same ↦ let e : i ≡ j = (==_iff i j).0 same in ended (rw same refl) (rw (← e) d)
        | inr other ↦ elim (v.threads j) [
          | alive h ↦ alive (rw other h)
          | ended h d ↦ ended (rw other h) d
        ]
      ];
      lock = rw v.lock fits.lock;
    }

pub Reach-Inv : {s t : Threads} → Reach s t → Inv s → Inv t
Reach-Inv here v = v
Reach-Inv (next r st) v = Step-Inv st (Reach-Inv r v)
