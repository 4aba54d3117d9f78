-- ===== src/Audio/Queue/Fifo.antt =====
-- What the message queue promises: a first-in first-out list of at most ten messages.
use battery_info.Prelude.{Bool, List, [], ◌∷◌, ◌++◌, Option, none, some, ltb, length, if◌then◌else◌}
use battery_info.Audio.Error.{ErrorCode, error_none, error_mutex, error_msgq_full, Message}

abbrev pub Fifo : Type 0
Fifo = List Message

unfoldable pub get : Fifo → Option Message × Fifo
get [] = (none, [])
get (m ∷ f) = (some m, f)

unfoldable pub put : Bool → Message → Fifo → ErrorCode × Fifo
put lock_fails m f =
    if lock_fails
    then (error_mutex, f)
    else if ltb (length f) 10
    then (error_none, f ++ (m ∷ []))
    else (error_msgq_full, f)
