-- ===== src/Audio/Queue/Runs.antt =====
-- The message queue over a row of calls: `SendMessage` and `GetMessage` in any order.
use battery_info.Prelude.{
  ◌+◌, ◌≤◌, ◌<◌, ◌≡◌, refl, sym, ap, ap₂, ◌∙◌, Bool, false, List, [], ◌∷◌, ◌++◌, map, append-nil,
  append_assoc, Option, some, length, length-append, arith,
}
use battery_info.Audio.Error.{ErrorCode, error_none, Message}
use battery_info.Audio.Queue.{MsgQueue, get_message, send_message}
use battery_info.Audio.Queue.Fifo
use battery_info.Audio.Queue.Fifo.{Fifo}
use battery_info.Audio.Queue.Invariant.{IsValid, get_message-IsValid, send_message-IsValid}
use battery_info.Audio.Queue.Refine.{contents, get_message_refines, send_message_refines}

-- A call, and what it returns. The first argument of `sends` tells whether the lock fails.
pub data QueueCall : Type 0 where
  sends : Bool → Message → QueueCall
  gets : QueueCall

pub data Reply : Type 0 where
  sent : ErrorCode → Reply
  got : Option Message → Reply

abbrev pub call : QueueCall → MsgQueue → Reply × MsgQueue
call (sends b m) q = let (r, q') = send_message b m q in (sent r, q')
call gets q = let (r, q') = get_message q in (got r, q')

abbrev pub list_call : QueueCall → Fifo → Reply × Fifo
list_call (sends b m) f = let (r, f') = Fifo.put b m f in (sent r, f')
list_call gets f = let (r, f') = Fifo.get f in (got r, f')

-- The replies to a row of calls, and what the last one leaves.
unfoldable pub calls : List QueueCall → MsgQueue → List Reply × MsgQueue
calls [] q = ([], q)
calls (c ∷ cs) q = let (r, q') = call c q in let (rs, q'') = calls cs q' in (r ∷ rs, q'')

unfoldable pub list_calls : List QueueCall → Fifo → List Reply × Fifo
list_calls [] f = ([], f)
list_calls (c ∷ cs) f =
    let (r, f') = list_call c f in let (rs, f'') = list_calls cs f' in (r ∷ rs, f'')

call-IsValid : (c : QueueCall) {q : MsgQueue} → IsValid q → IsValid (call c q).1
call-IsValid (sends b m) v = send_message-IsValid b m v
call-IsValid gets v = get_message-IsValid v

-- One call on the slots, and on the list.
record Agrees (c : QueueCall) (q : MsgQueue) : Type 0 where
  reply : (call c q).0 ≡ (list_call c (contents q)).0
  rest : contents (call c q).1 ≡ (list_call c (contents q)).1

call-Agrees : (c : QueueCall) {q : MsgQueue} → IsValid q → Agrees c q
call-Agrees (sends b m) v = record {
  reply = ap (λ r. sent r.0) (send_message_refines b m v);
  rest = ap (λ r. r.1) (send_message_refines b m v);
}
call-Agrees gets v = record {
  reply = ap (λ r. got r.0) (get_message_refines v);
  rest = ap (λ r. r.1) (get_message_refines v);
}

-- Whatever the calls, in whatever order, on a queue that is valid, the replies are those of a list
-- of at most ten messages, the queue is valid behind them, and it holds what the list holds.
pub calls_refines :
    (cs : List QueueCall) {q : MsgQueue}
    → IsValid q
    → ((calls cs q).0 ≡ (list_calls cs (contents q)).0)
      × (contents (calls cs q).1 ≡ (list_calls cs (contents q)).1)
      × IsValid (calls cs q).1
unfolding calls list_calls
calls_refines [] v = (refl, refl, v)
calls_refines (c ∷ cs) {q} v =
    let one = call-Agrees c v in
    let (replies, rest, valid) = calls_refines cs (call-IsValid c v) in
    (
      ap₂ ◌∷◌ one.reply (replies ∙ ap (λ f. (list_calls cs f).0) one.rest),
      rest ∙ ap (λ f. (list_calls cs f).1) one.rest,
      valid,
    )

pub put-short :
    (m : Message) (f : Fifo) → length f < 10 → Fifo.put false m f ≡ (error_none, f ++ (m ∷ []))
unfolding Fifo.put
put-short m f h = ground arith

abbrev pub send_all : List Message → List QueueCall
send_all ms = map (λ m. sends false m) ms

abbrev pub get_all : List Message → List QueueCall
get_all ms = map (λ m. gets) ms

-- The replies to the calls that send, and to those that get.
abbrev pub taken : List Message → List Reply
taken ms = map (λ m. sent error_none) ms

abbrev pub given : List Message → List Reply
given ms = map (λ m. got (some m)) ms

list_calls-get_all : (ms : List Message) → (list_calls (get_all ms) ms).0 ≡ given ms
unfolding list_calls Fifo.get
list_calls-get_all [] = refl
list_calls-get_all (m ∷ ms) = ap (λ rs. got (some m) ∷ rs) (list_calls-get_all ms)

list_calls-send_all :
    (ms : List Message) (f : Fifo) (cs : List QueueCall)
    → length f + length ms ≤ 10
    → (list_calls (send_all ms ++ cs) f).0 ≡ taken ms ++ (list_calls cs (f ++ ms)).0
unfolding list_calls
list_calls-send_all [] f cs h = ap (λ g. (list_calls cs g).0) (sym (append-nil f))
list_calls-send_all (m ∷ ms) f cs h = rw (put-short m f (omega arith)) (
    ap (λ rs. sent error_none ∷ rs)
      (list_calls-send_all ms (f ++ (m ∷ [])) cs (omega (arith, length-append f (m ∷ [])))
        ∙ ap (λ g. taken ms ++ (list_calls cs g).0) (append_assoc f (m ∷ []) ms)))

-- Up to ten messages that are sent to an empty queue, with no call in between and no failure of the
-- lock, are all taken, and the calls that then get messages give them back in the order they were sent.
pub send_all-get_all :
    (ms : List Message) {q : MsgQueue}
    → IsValid q
    → q.msg_q_len ≡ 0
    → length ms ≤ 10
    → (calls (send_all ms ++ get_all ms) q).0 ≡ taken ms ++ given ms
send_all-get_all ms {q} v empty h =
    let nothing : contents q ≡ [] = rw empty refl in
    (calls_refines (send_all ms ++ get_all ms) v).0
    ∙ ap (λ f. (list_calls (send_all ms ++ get_all ms) f).0) nothing
    ∙ list_calls-send_all ms [] (get_all ms) (omega arith)
    ∙ ap (λ rs. taken ms ++ rs) (list_calls-get_all ms)
