-- ===== src/Audio/Queue/Invariant.antt =====
-- The range of the indices of the message queue.
use battery_info.Prelude.{◌+◌, ◌%◌, ◌≤◌, ◌<◌, ◌≡◌, Bool, arith, length, length-set}
use battery_info.Audio.Error.{Message}
use battery_info.Audio.Queue.{msg_q_length, MsgQueue, init_messaging, get_message, send_message}

pub record IsValid (q : MsgQueue) : Type 0 where
  pub slots : length q.msg_q ≡ msg_q_length
  pub len_le : q.msg_q_len ≤ msg_q_length
  pub top_lt : q.top_msg_index < msg_q_length

pub get_message-IsValid : {q : MsgQueue} → IsValid q → IsValid (get_message q).1
unfolding get_message
get_message-IsValid v = ground arith

pub send_message-IsValid :
    (b : Bool) (m : Message) {q : MsgQueue} → IsValid q → IsValid (send_message b m q).1
unfolding send_message
send_message-IsValid b m {q} v =
    ground (arith, length-set q.msg_q ((q.top_msg_index + q.msg_q_len) % msg_q_length) m)

init_messaging-IsValid : (b c : Bool) {q : MsgQueue} → IsValid q → IsValid (init_messaging b c q).1
unfolding init_messaging
init_messaging-IsValid b c v = ground arith
