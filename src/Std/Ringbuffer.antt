-- ===== src/Std/Ringbuffer.antt =====
-- The byte buffer between the keyboard's interrupt and its thread: `buffer_t` of
-- kernel/std/ringbuffer.cpp.
pub mod Window
pub mod Refine
mod Tests
use muk.Prelude.{
  ℕ, zero, suc, ◌+◌, List, [], ◌∷◌, Option, none, some, Bool, true, false, ◌==◌, leb, if◌then◌else◌,
  get_or, set,
}

-- `head` is where the next byte is written and `tail` where the next is read.
pub record Buffer : Type 0 where
  pub head : ℕ
  pub tail : ℕ
  pub size : ℕ
  pub buffer : List ℕ

-- `next = i + 1; if (next >= size) next = 0;`
pub next_index : ℕ → ℕ → ℕ
next_index size i = if leb size (i + 1) then 0 else i + 1

-- The byte, or `none` for the -1 of an empty buffer. The reads and writes are in range in a valid
-- buffer (`Refine.IsValid`).
pub buffer_read : Buffer → Option ℕ × Buffer
buffer_read b =
    if b.head == b.tail
    then (none, b)
    else (some (get_or b.buffer b.tail 0), record b { tail = next_index b.size b.tail })

-- `true` for the 0 of a byte that is stored, `false` for the -1 of a full buffer.
pub buffer_write : Buffer → ℕ → Bool × Buffer
buffer_write b v =
    if next_index b.size b.head == b.tail
    then (false, b)
    else (true, record b { buffer = set b.buffer b.head v; head = next_index b.size b.head })

-- The loop of `buffer_clear` from index `idx`, with `n` rounds left.
pub clear_from : ℕ → ℕ → List ℕ → List ℕ
clear_from zero idx bytes = bytes
clear_from (suc n) idx bytes = clear_from n (idx + 1) (set bytes idx 0)

pub buffer_clear : Buffer → Buffer
buffer_clear b = record b { buffer = clear_from b.size 0 b.buffer }
