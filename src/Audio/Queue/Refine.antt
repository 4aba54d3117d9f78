-- ===== src/Audio/Queue/Refine.antt =====
-- The message queue, and the list of the messages that it holds.
use battery_info.Prelude.{
  ℕ, zero, suc, ◌+◌, ◌-◌, ◌%◌, ◌≤◌, ◌<◌, ◌≡◌, refl, ap, ap₂, Bool, List, [], ◌∷◌, ◌++◌, arith,
  length, get_or, set, get_or-set_self, get_or-set_ne,
}
use battery_info.Audio.Error.{Message, msg_id_end}
use battery_info.Audio.Queue.{MsgQueue, get_message, send_message}
use battery_info.Audio.Queue.Fifo
use battery_info.Audio.Queue.Fifo.{Fifo}
use battery_info.Audio.Queue.Invariant.{IsValid}

-- The `n` messages from index `i` on, round the end of the slots.
abbrev from_index : List Message → ℕ → ℕ → Fifo
from_index slots i zero = []
from_index slots i (suc n) = get_or slots (i % 10) msg_id_end ∷ from_index slots (i + 1) n

abbrev pub contents : MsgQueue → Fifo
contents q = from_index q.msg_q q.top_msg_index q.msg_q_len

length-from_index : (slots : List Message) (i n : ℕ) → length (from_index slots i n) ≡ n
length-from_index slots i zero = refl
length-from_index slots i (suc n) = ap suc (length-from_index slots (i + 1) n)

pub length-contents : (q : MsgQueue) → length (contents q) ≡ q.msg_q_len
length-contents q = length-from_index q.msg_q q.top_msg_index q.msg_q_len

-- Only the index modulo ten counts.
from_index-mod :
    (slots : List Message) (i j n : ℕ)
    → i % 10 ≡ j % 10
    → from_index slots i n ≡ from_index slots j n
from_index-mod slots i j zero h = refl
from_index-mod slots i j (suc n) h =
    ap₂ ◌∷◌ (ap (λ k. get_or slots k msg_id_end) h)
      (from_index-mod slots (i + 1) (j + 1) n (omega arith))

-- Fewer than ten messages, and one more written behind them.
from_index-set :
    (slots : List Message) (m : Message) (i n k : ℕ)
    → length slots ≡ 10
    → n < 10
    → k ≡ (i + n) % 10
    → from_index (set slots k m) i (suc n) ≡ from_index slots i n ++ (m ∷ [])
from_index-set slots m i zero k l h e =
    let e' : i % 10 ≡ k = omega arith in
    ap (λ x. x ∷ []) (rw e' (get_or-set_self slots k m msg_id_end (omega arith)))
from_index-set slots m i (suc n) k l h e =
    ap₂ ◌∷◌ (get_or-set_ne slots m msg_id_end (omega arith))
      (from_index-set slots m (i + 1) n k l (omega arith) (omega arith))

from_index-pos :
    (slots : List Message) (i n : ℕ)
    → 1 ≤ n
    → from_index slots i n ≡ get_or slots (i % 10) msg_id_end ∷ from_index slots (i + 1) (n - 1)
from_index-pos slots i zero h = absurd (omega arith)
from_index-pos slots i (suc n) h = ap (λ k. from_index slots i (suc k)) (omega arith)

mod_of_lt : (i : ℕ) → i < 10 → i % 10 ≡ i
mod_of_lt i h = omega arith

-- On a queue that is valid, `GetMessage` takes the oldest message, and fails on the empty queue alone.
pub get_message_refines :
    {q : MsgQueue}
    → IsValid q
    → let (r, q') = get_message q in (r, contents q') ≡ Fifo.get (contents q)
unfolding get_message Fifo.get
get_message_refines {q} v = ground (
  arith,
  from_index-pos slots i n,
  mod_of_lt i v.top_lt,
  from_index-mod slots ((i + 1) % 10) (i + 1) (n - 1),
)
  where
    open q use {msg_q as slots, top_msg_index as i, msg_q_len as n}

-- On a queue that is valid, `SendMessage` adds the message behind the others, refuses it with
-- ERROR_MSGQ_FULL when ten are waiting, and with ERROR_MUTEX when the lock fails; a refused message
-- changes nothing.
pub send_message_refines :
    (b : Bool) (m : Message) {q : MsgQueue}
    → IsValid q
    → let (r, q') = send_message b m q in (r, contents q') ≡ Fifo.put b m (contents q)
unfolding send_message Fifo.put
send_message_refines b m {q} v =
    ground (arith, length-contents q, from_index-set slots m i n ((i + n) % 10))
  where
    open q use {msg_q as slots, top_msg_index as i, msg_q_len as n}
