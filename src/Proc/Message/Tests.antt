-- ===== src/Proc/Message/Tests.antt =====
-- The message queues at small inputs.
use muk.Prelude.{◌≡◌, refl, List, [], ◌∷◌, ◌++◌, none, some, false, arith, replicate}
use muk.Proc.Message.{
  Message, message_null, message_eq, message_ne, MessageList, empty_list, push, pop, receive, Op,
  send, recv, run,
}
use muk.Proc.Message.Fifo.{contents, IsStraight, queue_run, run_refines}
use muk.Proc.Message.Overrun.{rounds, run_overruns}
use muk.Proc.Message.Ports.{MessageQueue, search, listen, send_message, receive_from, no_listener}

abbrev key_a : Message
key_a = record { source_thread = 1; payload = b'a' }

abbrev key_b : Message
key_b = record { source_thread = 1; payload = b'b' }

-- The key of no character: thread 1 sends a zero byte.
abbrev key_none : Message
key_none = record { source_thread = 1; payload = 0 }

abbrev start : MessageList
start = record { head_index = 0; list_size = 0; list = replicate 32 message_null }

abbrev one_held : MessageList
one_held = record { head_index = 5; list_size = 1; list = replicate 32 key_a }

start-IsStraight : IsStraight start
start-IsStraight = omega arith

one_held-IsStraight : IsStraight one_held
one_held-IsStraight = omega arith

abbrev script : List Op
script = send key_a ∷ send key_b ∷ recv ∷ recv ∷ recv ∷ []

script_runs : run start script ≡ some (key_a ∷ key_b ∷ message_null ∷ [])
unfolding run push pop receive
script_runs = refl

abbrev shell_ports : MessageQueue
shell_ports = record { port = 1; messages = start } ∷ record { port = 2; messages = start } ∷ []

listen_twice : listen (listen [] 1) 1 ≡ record { port = 1; messages = start } ∷ []
unfolding listen search empty_list
listen_twice = refl

-- `while ((msg = pop()) != kMessageNull)` stops at a zero byte, which is not the null message.
zero_byte_stops :
    (message_ne key_none message_null ≡ false) × (message_eq key_none message_null ≡ false)
unfolding message_ne message_eq
zero_byte_stops = (refl, refl)

-- The last of 33 messages does not fit.
abbrev flood : List Op
flood = replicate 32 (send key_a) ++ send key_b ∷ recv ∷ []

run_refines_example : run start flood ≡ some (queue_run (contents start) flood)
run_refines_example = run_refines flood start start-IsStraight (omega arith)

run_overruns_example :
    (run empty_list (rounds (replicate 31 key_a) ++ send key_a ∷ send key_b ∷ [])
      ≡ some (replicate 31 key_a))
    × (run empty_list (rounds (replicate 31 key_a) ++ send key_a ∷ send key_b ∷ send key_a ∷ [])
        ≡ none)
run_overruns_example = run_overruns (replicate 31 key_a) key_a key_b key_a (omega arith)

no_listener_example :
    (send_message shell_ports 3 key_a ≡ some shell_ports)
    × (receive_from shell_ports 3 ≡ some (message_null, shell_ports))
unfolding search
no_listener_example = no_listener shell_ports 3 key_a refl
