-- ===== src/Audio/System/Order.antt =====
-- The messages that pass through the queue while the threads of Audio.c run.
use mathlib.Core.List.{map-append}
use battery_info.Prelude.{
  ◌≡◌, refl, sym, ap, ◌∙◌, Bool, Bool-cases, ==_iff, false, ◌==◌, List, [], ◌∷◌, ◌++◌, map,
  append-nil, append_assoc, ◌⊎◌, inl, inr, Option, some, if◌then◌else◌, arith,
}
use battery_info.Speaker.Env.{Env}
use battery_info.Audio.Error.{Message, msg_id_end, msg_id_play_track}
use battery_info.Audio.Queue.{MsgQueue, init_messaging, get_message, send_message}
use battery_info.Audio.Queue.Fifo
use battery_info.Audio.Queue.Invariant
use battery_info.Audio.Queue.Refine.{contents, get_message_refines, send_message_refines}
use battery_info.Audio.Control.{
  Audio, Answers, is_none, audio_init, audio_started, audio_close, audio_send_end, send_track,
  process_message, audio_set_volume,
}
use battery_info.Audio.System.{TaskPc, get, System, Step, Reach, IsInitial, task_step, player_step}
use battery_info.Audio.System.Invariant.{initial-Inv, Inv, Reach-Inv}

-- What became of a message: the task has taken it, or `Audio_init` or `Audio_end` emptied the queue.
pub data Fate : Type 0 where
  handled dropped : Message → Fate

abbrev pub message : Fate → Message
message (handled m) = m
message (dropped m) = m

abbrev handled_by : TaskPc → Option Message → List Fate
handled_by get (some m) = handled m ∷ []
handled_by _ _ = []

-- A queue that has been emptied.
abbrev emptied : MsgQueue → MsgQueue → List Fate
emptied q q' = if q'.msg_q_len == 0 then map dropped (contents q) else []

-- The messages that a step puts into the queue; the callers have ERROR_NONE for them.
abbrev step_accepted : {Ok : Env → Type 0} {s t : System} → Step Ok s t → List Message
step_accepted {s} (Step.end_send w e h l) =
    if is_none (audio_send_end w s.audio).0 then msg_id_end ∷ [] else []
step_accepted {s} (Step.play_send w i t c h) =
    if is_none (send_track w t s.audio).0 then msg_id_play_track t ∷ [] else []
step_accepted _ = []

-- The messages that a step takes out of it.
abbrev step_fates : {Ok : Env → Type 0} {s t : System} → Step Ok s t → List Fate
step_fates {s} (Step.task e) = handled_by s.task (get_message s.audio.queue).0
step_fates {s} (Step.init_call w ok e) = emptied s.audio.queue (audio_init w s.audio).1.queue
step_fates {s} (Step.end_return w ok e r) = emptied s.audio.queue (audio_close w s.audio).1.queue
step_fates {s} (Step.end_idle w ok e a b) = emptied s.audio.queue (audio_close w s.audio).1.queue
step_fates _ = []

pub accepted : {Ok : Env → Type 0} {s t : System} → Reach Ok s t → List Message
accepted Reach.here = []
accepted (Reach.next r st) = accepted r ++ step_accepted st

pub fates : {Ok : Env → Type 0} {s t : System} → Reach Ok s t → List Fate
fates Reach.here = []
fates (Reach.next r st) = fates r ++ step_fates st

-- What a step does to the queue.
abbrev Balanced : MsgQueue → List Message → List Fate → MsgQueue → Type 0
Balanced q ins outs q' = contents q ++ ins ≡ map message outs ++ contents q'

put_balanced :
    (b : Bool) (m : Message) (f : Fifo.Fifo)
    → f ++ (if is_none (Fifo.put b m f).0 then m ∷ [] else []) ≡ (Fifo.put b m f).1
unfolding Fifo.put
put_balanced b m f = ground (arith, append-nil f)

send_balanced :
    (b : Bool) (m : Message) (q : MsgQueue)
    → Invariant.IsValid q
    → contents q ++ (if is_none (send_message b m q).0 then m ∷ [] else [])
      ≡ contents (send_message b m q).1
send_balanced b m q v =
    let done = send_message_refines b m v in
    ap (λ r. contents q ++ (if is_none r.0 then m ∷ [] else [])) done
    ∙ put_balanced b m (contents q)
    ∙ sym (ap (λ r. r.1) done)

get_list : (f : Fifo.Fifo) → f ≡ map message (handled_by get (Fifo.get f).0) ++ (Fifo.get f).1
unfolding Fifo.get
get_list [] = refl
get_list (m ∷ f) = refl

get_balanced :
    (q : MsgQueue)
    → Invariant.IsValid q
    → contents q ≡ map message (handled_by get (get_message q).0) ++ contents (get_message q).1
get_balanced q v =
    get_list (contents q)
    ∙ sym (ap (λ r. map message (handled_by get r.0) ++ r.1) (get_message_refines v))

-- A step of the task before `GetMessage` takes a message, and no other step of it changes the queue.
task_step-queue :
    (s t : System)
    → task_step s ≡ some t
    → (s.task ≡ get) × (t.audio.queue ≡ (get_message s.audio.queue).1)
      ⊎ ((handled_by s.task (get_message s.audio.queue).0 ≡ []) × (t.audio.queue ≡ s.audio.queue))
unfolding task_step get_message process_message
task_step-queue s t e = ground arith

map-message-dropped : (ms : List Message) → map message (map dropped ms) ≡ ms
map-message-dropped [] = refl
map-message-dropped (m ∷ ms) = ap (λ l. m ∷ l) (map-message-dropped ms)

kept_queue :
    (q q' : MsgQueue) → (q' ≡ q) ⊎ (q'.msg_q_len ≡ 0) → (q'.msg_q_len == 0) ≡ false → q ≡ q'
kept_queue q q' (inl same) more = sym same
kept_queue q q' (inr e) more = ground arith

-- What `Audio_init` and the end of `Audio_end` do to the queue.
audio_init-queue :
    (w : Answers) (a : Audio)
    → ((audio_init w a).1.queue ≡ a.queue) ⊎ ((audio_init w a).1.queue.msg_q_len ≡ 0)
unfolding audio_init init_messaging
audio_init-queue w a = ground arith

audio_close-queue :
    (w : Answers) (a : Audio)
    → ((audio_close w a).1.queue ≡ a.queue) ⊎ ((audio_close w a).1.queue.msg_q_len ≡ 0)
unfolding audio_close
audio_close-queue w a = ground arith

emptied_balanced :
    (q q' : MsgQueue)
    → (q' ≡ q) ⊎ (q'.msg_q_len ≡ 0)
    → contents q ++ [] ≡ map message (emptied q q') ++ contents q'
emptied_balanced q q' h = elim (Bool-cases (q'.msg_q_len == 0)) [
  | inl none_left ↦
      let nothing : contents q' ≡ [] = rw ((==_iff q'.msg_q_len 0).0 none_left) refl in
      rw (none_left, nothing, map-message-dropped (contents q)) refl
  | inr more ↦ rw more (append-nil (contents q) ∙ ap contents (kept_queue q q' h more))
]

player_step-queue :
    (env : Env) (s t : System) → player_step env s ≡ some t → t.audio.queue ≡ s.audio.queue
unfolding player_step
player_step-queue env s t e = ground arith

Step-Balanced :
    {Ok : Env → Type 0} {s t : System} (st : Step Ok s t)
    → Invariant.IsValid s.audio.queue
    → Balanced s.audio.queue (step_accepted st) (step_fates st) t.audio.queue
unfolding audio_started audio_send_end send_track audio_set_volume
Step-Balanced {s} {t} (Step.task e) v = elim (task_step-queue s t e) [
  | inl (at_get, q) ↦
      rw (at_get, q) (append-nil (contents s.audio.queue) ∙ get_balanced s.audio.queue v)
  | inr (nothing, q) ↦ rw (nothing, q) (append-nil (contents s.audio.queue))
]
Step-Balanced {s} {t} (Step.player env ok e) v =
    rw (player_step-queue env s t e) (append-nil (contents s.audio.queue))
Step-Balanced {s} (Step.init_call w ok e) v = emptied_balanced _ _ (audio_init-queue w s.audio)
Step-Balanced {s} (Step.end_send w e h l) v =
    send_balanced w.msg_lock_fails msg_id_end s.audio.queue v
Step-Balanced {s} (Step.end_return w ok e r) v = emptied_balanced _ _ (audio_close-queue w s.audio)
Step-Balanced {s} (Step.end_idle w ok e a b) v = emptied_balanced _ _ (audio_close-queue w s.audio)
Step-Balanced {s} (Step.play_send w i t c h) v =
    send_balanced w.msg_lock_fails (msg_id_play_track t) s.audio.queue v
Step-Balanced {s} st v = append-nil (contents s.audio.queue)

Reach-Balanced :
    {Ok : Env → Type 0} {s t : System} (r : Reach Ok s t)
    → Inv s
    → Balanced s.audio.queue (accepted r) (fates r) t.audio.queue
unfolding accepted fates
Reach-Balanced {s} Reach.here v = append-nil (contents s.audio.queue)
Reach-Balanced {s} {t} (Reach.next {t = m} r st) v =
    let before = Reach-Balanced r v in
    let now = Step-Balanced st (Reach-Inv v r).queue in
    sym (append_assoc (contents s.audio.queue) (accepted r) (step_accepted st))
    ∙ ap (λ l. l ++ step_accepted st) before
    ∙ append_assoc (map message (fates r)) (contents m.audio.queue) (step_accepted st)
    ∙ ap (λ l. map message (fates r) ++ l) now
    ∙ sym (
        append_assoc (map message (fates r)) (map message (step_fates st)) (contents t.audio.queue))
    ∙ ap (λ l. l ++ contents t.audio.queue) (sym (map-append message (fates r) (step_fates st)))

-- Whatever the threads do, from the start of the program on: the messages for which `SendMessage`
-- returned ERROR_NONE, behind those that the queue held at the start, are the ones that the task has
-- taken or that `Audio_init` or `Audio_end` has thrown away, followed by those still in the queue, in
-- this order. So none is lost, doubled or overtaken on its way to the task.
pub Reach-accepted :
    {Ok : Env → Type 0} {s t : System} (r : Reach Ok s t)
    → IsInitial s
    → Invariant.IsValid s.audio.queue
    → contents s.audio.queue ++ accepted r ≡ map message (fates r) ++ contents t.audio.queue
Reach-accepted {s} r i v = Reach-Balanced r (initial-Inv s i v)
