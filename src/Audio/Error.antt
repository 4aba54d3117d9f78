-- ===== src/Audio/Error.antt =====
-- The enumerations of Audio.c: results, states, messages.
use battery_info.Audio.Track.{AudioTrackId}

-- `enum ErrorCodes`
pub data ErrorCode : Type 0 where
  error_none error_task_running error_task_stopped error_task_create : ErrorCode
  error_null_msg_queue error_get_header error_unknown_message error_set_volume : ErrorCode
  error_mutex error_mutex_create : ErrorCode
  error_mutex_destroy error_cond_create error_cond_destroy error_msgq_full : ErrorCode
  error_hardware_init error_hardware_deinit : ErrorCode

ErrorCode-discrete : Discrete ErrorCode
ErrorCode-discrete = hlevel

-- `enum ComponentState`
pub data ComponentState : Type 0 where
  ended inited running ending : ComponentState

-- `struct Message`: the identifier and the union that goes with it.
pub data Message : Type 0 where
  msg_id_end : Message
  msg_id_play_track : AudioTrackId → Message

-- `enum ProcessCode`
pub data ProcessCode : Type 0 where
  code_ok code_kill : ProcessCode
