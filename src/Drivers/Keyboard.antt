-- ===== src/Drivers/Keyboard.antt =====
-- kernel/drivers/keyboard.cpp: the interrupt that stores the characters of pressed keys, and `getc`, which
-- takes them out and sends them on to port 1.
pub mod Keys
mod Tests
use muk.Prelude.{
  ℕ, zero, suc, ◌+◌, List, [], ◌∷◌, ◌++◌, Option, none, some, Bool, true, false, ◌==◌,
  if◌then◌else◌, leb, ◌>>=◌, get_or, replicate, bit_and,
}
use muk.Std.Ringbuffer.{Buffer, buffer_read, buffer_write}
use muk.Std.Vector.{put}
use muk.Proc.Message.{Message}
use muk.Proc.Message.Ports.{MessageQueue, send_message}

-- The characters as their codes, in rows of ten
pub keyboard_map : List ℕ
keyboard_map =
    (0 ∷ 27 ∷ 49 ∷ 50 ∷ 51 ∷ 52 ∷ 53 ∷ 54 ∷ 55 ∷ 56 ∷ [])
    ++ (57 ∷ 48 ∷ 45 ∷ 61 ∷ 8 ∷ 9 ∷ 113 ∷ 119 ∷ 101 ∷ 114 ∷ [])
    ++ (116 ∷ 121 ∷ 117 ∷ 105 ∷ 111 ∷ 112 ∷ 91 ∷ 93 ∷ 10 ∷ 0 ∷ [])
    ++ (97 ∷ 115 ∷ 100 ∷ 102 ∷ 103 ∷ 104 ∷ 106 ∷ 107 ∷ 108 ∷ 59 ∷ [])
    ++ (39 ∷ 96 ∷ 0 ∷ 92 ∷ 122 ∷ 120 ∷ 99 ∷ 118 ∷ 98 ∷ 110 ∷ [])
    ++ (109 ∷ 44 ∷ 46 ∷ 47 ∷ 0 ∷ 42 ∷ 0 ∷ 32 ∷ 0 ∷ 0 ∷ [])
    ++ replicate 14 0
    ++ (45 ∷ 0 ∷ 0 ∷ 0 ∷ 43 ∷ [])
    ++ replicate 49 0

pub new_keyboard_buffer : Buffer
new_keyboard_buffer = record { head = 0; tail = 0; size = 512; buffer = replicate 512 0 }

-- `keyboard_irq`, with the bytes that the ports 0x64 and 0x60 give
pub keyboard_irq : ℕ → ℕ → Buffer → Buffer
keyboard_irq status keycode b =
    if bit_and status 1 == 0
    then b
    else if leb 128 keycode
    then b
    else (buffer_write b (get_or keyboard_map keycode 0)).1

-- The interrupts, each with its two bytes, that come while `hlt` waits
pub interrupts : List (ℕ × ℕ) → Buffer → Buffer
interrupts [] b = b
interrupts ((status, keycode) ∷ irqs) b = interrupts irqs (keyboard_irq status keycode b)

-- `c == -1`: an empty buffer, and the byte of the character -1
pub nothing_read : Option ℕ → Bool
nothing_read none = true
nothing_read (some c) = c == 255

-- The loop of `getc` with `n` rounds left, where `halts k` is what comes in while round `k` waits. The
-- inner `none` is the end of the loop, where the code returns no value, the outer one an access outside
-- of a list of messages.
pub getc_loop :
    ℕ
    → ℕ
    → (ℕ → List (ℕ × ℕ))
    → ℕ
    → Buffer
    → MessageQueue
    → Option (Option ℕ × Buffer × MessageQueue)
getc_loop zero loops halts thread_id b qs = some (none, b, qs)
getc_loop (suc n) loops halts thread_id b qs =
    let (c, b) = buffer_read b in
    let rest = getc_loop n (loops + 1) halts thread_id (interrupts (halts loops) b) qs in
    elim c [
      | none ↦ rest
      | some c ↦
          if c == 255
          then rest
          else send_message qs 1 (record { source_thread = thread_id; payload = c }) >>= λ qs.
              some (some c, b, qs)
    ]

pub getc :
    (ℕ → List (ℕ × ℕ)) → ℕ → Buffer → MessageQueue → Option (Option ℕ × Buffer × MessageQueue)
getc halts thread_id b qs = getc_loop 1024 0 halts thread_id b qs

-- One run of the inner loop of `kb_update`, on what its calls of `getc` give, from index `i`: `none` is a
-- write outside of the buffer, or that the calls given are used up.
pub kb_line : List ℕ → ℕ → List ℕ → Option (List ℕ)
kb_line [] i buffer = if leb 1024 i then some buffer else none
kb_line (c ∷ cs) i buffer =
    if leb 1024 i
    then some buffer
    else if c == 10
    then put buffer i 0
    else if c == 8
    then kb_line cs (i + 1) buffer
    else put buffer i c >>= kb_line cs (i + 2)
