-- ===== src/Audio/Queue.antt =====
-- The message queue of Audio.c: `MsgQ`, `MsgQLen` and `TopMsgIndex`. A function that changes them
-- returns the new queue beside its result.
pub mod Fifo
pub mod Invariant
pub mod Refine
pub mod Runs
pub mod Quotient
use battery_info.Prelude.{
  ℕ, ◌+◌, ◌-◌, ◌%◌, Bool, List, Option, none, some, ltb, get_or, set, if◌then◌else◌,
}
use battery_info.Audio.Error.{
  ErrorCode, error_none, error_mutex, error_mutex_create, error_cond_create, error_msgq_full,
  Message, msg_id_end,
}

abbrev pub msg_q_length : ℕ
msg_q_length = 10

pub record MsgQueue : Type 0 where
  pub msg_q : List Message
  pub msg_q_len : ℕ
  pub top_msg_index : ℕ

-- `InitMessaging`: the arguments tell whether pthread_mutex_init and pthread_cond_init fail. The
-- slots keep what they held.
unfoldable pub init_messaging : Bool → Bool → MsgQueue → ErrorCode × MsgQueue
init_messaging mutex_init_fails cond_init_fails q =
    if mutex_init_fails
    then (error_mutex_create, q)
    else if cond_init_fails
    then (error_cond_create, q)
    else (error_none, record q { msg_q_len = 0; top_msg_index = 0 })

-- `GetMessage`: `none` is the result -1.
unfoldable pub get_message : MsgQueue → Option Message × MsgQueue
get_message q = if ltb q.msg_q_len 1 then (none, q) else (
  some (get_or q.msg_q q.top_msg_index msg_id_end),
  record q {
    top_msg_index = (q.top_msg_index + 1) % msg_q_length;
    msg_q_len = if ltb 0 q.msg_q_len then q.msg_q_len - 1 else q.msg_q_len;
  },
)

-- `SendMessage`: the first argument tells whether pthread_mutex_lock fails.
unfoldable pub send_message : Bool → Message → MsgQueue → ErrorCode × MsgQueue
send_message lock_fails m q =
    if lock_fails
    then (error_mutex, q)
    else if ltb q.msg_q_len msg_q_length
    then (
      error_none,
      record q {
        msg_q = set q.msg_q ((q.top_msg_index + q.msg_q_len) % msg_q_length) m;
        msg_q_len = q.msg_q_len + 1;
      },
    )
    else (error_msgq_full, q)
