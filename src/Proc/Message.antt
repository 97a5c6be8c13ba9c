-- ===== src/Proc/Message.antt =====
-- The message queues of kernel/proc/message.cpp: a list of messages for each port.
pub mod Fifo
pub mod Overrun
pub mod Ports
pub mod Relay
mod Tests
use muk.Prelude.{
  ℕ, zero, suc, ◌+◌, ◌-◌, ◌/◌, Bool, true, false, not, ◌&&◌, List, [], ◌∷◌, ◌++◌, Option, none,
  some, ◌==◌, ltb, ◌>>=◌, if◌then◌else◌, length, get_elem?, set, replicate,
}

-- `class Message`; `data` is the byte of a `char`.
pub record Message : Type 0 where
  pub source_thread : ℕ
  pub payload : ℕ

abbrev pub message_null : Message
message_null = record { source_thread = 0; payload = 0 }

-- `operator==` and `operator!=`
pub message_eq : Message → Message → Bool
message_eq m1 m2 = m1.source_thread == m2.source_thread && m1.payload == m2.payload

unfoldable pub message_ne : Message → Message → Bool
message_ne m1 m2 = not (m1.source_thread == m2.source_thread) && not (m1.payload == m2.payload)

pub record MessageList : Type 0 where
  pub head_index : ℕ
  pub list_size : ℕ
  pub list : List Message

abbrev pub max_messages : ℕ
max_messages = 32

pub empty_list : MessageList
empty_list = record { head_index = 0; list_size = 0; list = replicate max_messages message_null }

-- `index - floor(index / 32.0)`, for an index that is not negative
pub wrap : ℕ → ℕ
wrap index = index - index / max_messages

-- `none` is a write outside of `list`.
write : MessageList → ℕ → Message → Option (Bool × MessageList)
write l index msg =
    if ltb index (length l.list)
    then some (true, record l { list = set l.list index msg; list_size = l.list_size + 1 })
    else none

pub push : MessageList → Message → Option (Bool × MessageList)
unfolding write wrap
push l msg =
    if ltb l.list_size max_messages
    then write l (wrap (l.head_index + l.list_size)) msg
    else some (false, l)

-- Called with `0 < list_size` only; `none` is a read outside of `list`, or a size that falls below 0.
pub pop : MessageList → Option (Message × MessageList)
unfolding wrap
pop l = elim (get_elem? l.list l.head_index) [
  | none ↦ none
  | some m ↦
      if l.list_size == 0
      then none
      else some (m, record l { head_index = wrap (l.head_index + 1); list_size = l.list_size - 1 })
]

-- The test of `MessageQueue::pop` on the list of a port: an empty list gives `kMessageNull`.
pub receive : MessageList → Option (Message × MessageList)
receive l = if ltb 0 l.list_size then pop l else some (message_null, l)

-- The calls on one list, and the messages that are received.
pub data Op : Type 0 where
  send : Message → Op
  recv : Op

pub run : MessageList → List Op → Option (List Message)
run l [] = some []
run l (send m ∷ ops) = push l m >>= λ r. run r.1 ops
run l (recv ∷ ops) = receive l >>= λ r. run r.1 ops >>= λ ms. some (r.0 ∷ ms)
