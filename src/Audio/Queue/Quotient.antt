-- ===== src/Audio/Queue/Quotient.antt =====
-- The message queue up to the place of the messages in its slots.
use std.Equiv.{Iso, iso_to_equiv, ◌≃◌}
use std.Univalence.{ua, ua-β}
use std.Path.{transport}
use mathlib.Core.HLevel.{Σ_prop_path}
use mathlib.Core.Quot
use mathlib.Core.Quot.{Quot, Quot-set}
use native.Mathlib.Bridge.{le_prop}
use battery_info.Prelude.{
  ◌+◌, ◌≤◌, ◌≡◌, refl, sym, ap, ap₂, ◌∙◌, Bool, List, [], ◌∷◌, ◌++◌, append-nil, append_assoc,
  Option, length, length-append, arith,
}
use battery_info.Audio.Error.{ErrorCode, Message, msg_id_end}
use battery_info.Audio.Queue.{MsgQueue, get_message, send_message}
use battery_info.Audio.Queue.Fifo
use battery_info.Audio.Queue.Fifo.{Fifo}
use battery_info.Audio.Queue.Invariant.{IsValid, get_message-IsValid, send_message-IsValid}
use battery_info.Audio.Queue.Refine.{
  contents, length-contents, get_message_refines, send_message_refines,
}
use battery_info.Audio.Queue.Runs.{calls, list_calls, send_all, calls_refines, put-short}

abbrev pub ValidQueue : Type 0
ValidQueue = (q : MsgQueue) × IsValid q

-- The same messages wait, in the same order.
abbrev pub SameMessages : ValidQueue → ValidQueue → Type 0
SameMessages a b = contents a.0 ≡ contents b.0

abbrev pub Queued : Type 0
Queued = Quot SameMessages

-- At most ten messages.
abbrev pub Short : Type 0
Short = (f : Fifo) × (length f ≤ 10)

Message-set : IsSet Message
Message-set = hlevel

Fifo-set : IsSet Fifo
Fifo-set = hlevel Message-set

ErrorCode-set : IsSet ErrorCode
ErrorCode-set = hlevel

Reply-set : IsSet (Option Message)
Reply-set = hlevel Message-set

Short-set : IsSet Short
Short-set = hlevel (Fifo-set, le_prop)

Short-ext : (a b : Short) → a.0 ≡ b.0 → a ≡ b
Short-ext a b e = Σ_prop_path (λ f. le_prop) e

short_of : ValidQueue → Short
short_of (q, v) = (contents q, rw (length-contents q) v.len_le)

shown : Queued → Short
unfolding short_of
shown = Quot.lift Short-set short_of (λ a b e. Short-ext (short_of a) (short_of b) e)

empty : MsgQueue
empty = record {
  msg_q =
      msg_id_end ∷ msg_id_end ∷ msg_id_end ∷ msg_id_end ∷ msg_id_end ∷ msg_id_end ∷ msg_id_end
      ∷ msg_id_end ∷ msg_id_end ∷ msg_id_end ∷ [];
  msg_q_len = 0;
  top_msg_index = 0;
}

empty-IsValid : IsValid empty
unfolding empty
empty-IsValid = record { slots = refl; len_le = omega arith; top_lt = omega arith }

list_calls-rest :
    (ms : List Message) (f : Fifo)
    → length f + length ms ≤ 10
    → (list_calls (send_all ms) f).1 ≡ f ++ ms
unfolding list_calls Fifo.put
list_calls-rest [] f h = sym (append-nil f)
list_calls-rest (m ∷ ms) f h =
    ap (λ r. (list_calls (send_all ms) r.1).1) (put-short m f (omega arith))
    ∙ list_calls-rest ms (f ++ (m ∷ [])) (omega (arith, length-append f (m ∷ [])))
    ∙ append_assoc f (m ∷ []) ms

-- Every short list is what the queue holds after its messages were sent.
queue_of : Short → ValidQueue
queue_of (f, h) = ((calls (send_all f) empty).1, (calls_refines (send_all f) empty-IsValid).2)

contents-queue_of : (f : Short) → contents (queue_of f).0 ≡ f.0
unfolding queue_of empty
contents-queue_of (f, h) =
    (calls_refines (send_all f) empty-IsValid).1 ∙ list_calls-rest f [] (omega arith)

queued_iso : Iso Queued Short
unfolding shown short_of
queued_iso = record {
  fun = shown;
  inv = λ f. Quot.mk (queue_of f);
  rinv = λ f. Short-ext _ f (contents-queue_of f);
  linv = Quot.ind (λ x. Quot-set _ _) (λ q. Quot.sound (contents-queue_of (short_of q)));
}

queued_equiv : Queued ≃ Short
queued_equiv = iso_to_equiv queued_iso

-- The list of a class.
transport-contents : (q : ValidQueue) → (transport (ua queued_equiv) (Quot.mk q)).0 ≡ contents q.0
unfolding queued_equiv queued_iso shown short_of
transport-contents q = ap (λ f. f.0) (ua-β queued_equiv (Quot.mk q))

-- A function of the queue, and the one of the list that it refines.
module _ {A : Type 0} (A_set : IsSet A) (op : MsgQueue → A × MsgQueue)
    (keeps : (q : MsgQueue) → IsValid q → IsValid (op q).1) (list_op : Fifo → A × Fifo)
    (refines : (q : MsgQueue)
      → IsValid q
      → let (r, q') = op q in (r, contents q') ≡ list_op (contents q)) where
  -- What it returns, and what it leaves, up to the slots.
  lifted : Queued → A × Queued
  lifted =
      Quot.lift (hlevel (A_set, Quot-set)) (λ q. ((op q.0).0, Quot.mk ((op q.0).1, keeps q.0 q.1)))
        (λ a b e.
          let same = refines a.0 a.1 ∙ ap list_op e ∙ sym (refines b.0 b.1) in
          ap₂ (λ r x. (r, x)) (ap (λ t. t.0) same) (Quot.sound (ap (λ t. t.1) same)))

  -- On the list it is the function of the list.
  lifted-transport :
      (x : Queued)
      → let (r, y) = lifted x in
        (r, (transport (ua queued_equiv) y).0) ≡ list_op (transport (ua queued_equiv) x).0
  unfolding lifted
  lifted-transport =
      Quot.ind (λ x. hlevel (A_set, Fifo-set))
        (λ q.
          let now = transport-contents q in
          let next = transport-contents ((op q.0).1, keeps q.0 q.1) in
          ap (λ f. ((op q.0).0, f)) next ∙ refines q.0 q.1 ∙ ap list_op (sym now))

-- `SendMessage` and `GetMessage` on the queue up to the slots.
pub send_queued : Bool → Message → Queued → ErrorCode × Queued
unfolding lifted
send_queued b m =
    lifted ErrorCode-set (send_message b m) (λ q v. send_message-IsValid b m v) (Fifo.put b m)
      (λ q v. send_message_refines b m v)

pub get_queued : Queued → Option Message × Queued
unfolding lifted
get_queued =
    lifted Reply-set get_message (λ q v. get_message-IsValid v) Fifo.get
      (λ q v. get_message_refines v)

-- The valid states of the queue, up to the places and the old contents of its slots, are the lists of
-- at most ten messages: `SendMessage` and `GetMessage` do not see more of a state than the list, every
-- such list is the state of some queue, and as functions of the list they are those of a first-in
-- first-out list of at most ten messages.
pub Queued-Short :
    (p : Queued ≡ Short) × ((b : Bool) (m : Message) (x : Queued)
      → let (r, y) = send_queued b m x in (r, (transport p y).0) ≡ Fifo.put b m (transport p x).0)
    × ((x : Queued)
        → let (r, y) = get_queued x in (r, (transport p y).0) ≡ Fifo.get (transport p x).0)
unfolding send_queued get_queued
Queued-Short = (
  ua queued_equiv,
  λ b m.
      lifted-transport ErrorCode-set (send_message b m) _ (Fifo.put b m)
        (λ q v. send_message_refines b m v),
  lifted-transport Reply-set get_message _ Fifo.get (λ q v. get_message_refines v),
)
