-- ===== src/Std/Ringbuffer/Refine.antt =====
-- A valid buffer is a queue of at most `size - 1` bytes.
use muk.Prelude.{
  ℕ, zero, suc, ◌+◌, ◌-◌, ◌≤◌, ◌<◌, ◌≡◌, refl, ap, ap₂, ◌∙◌, ◌&&◌, Option, none, some, Bool, true,
  false, List, [], ◌∷◌, ◌++◌, arith, Bool-cases, inl, inr, leb, ltb, ◌==◌, if◌then◌else◌, get_or,
  set, length, length-set, replicate,
}
use muk.Std.Ringbuffer.{Buffer, next_index, buffer_read, buffer_write, clear_from, buffer_clear}
use muk.Std.Ringbuffer.Window.{
  ahead, window, length-window, window-uncons, next_index-lt, window-set_end,
}

pub record IsValid (b : Buffer) : Type 0 where
  pub storage : b.size ≤ length b.buffer
  pub head_in : b.head < b.size
  pub tail_in : b.tail < b.size

-- How many bytes wait to be read.
abbrev pub fill : Buffer → ℕ
fill b = if leb b.tail b.head then b.head - b.tail else b.head + b.size - b.tail

abbrev pub contents : Buffer → List ℕ
contents b = window b.buffer b.size b.tail (fill b)

length-contents : (b : Buffer) → length (contents b) ≡ fill b
length-contents b = length-window b.buffer b.size b.tail (fill b)

-- The queue, oldest byte first.
abbrev pub queue_write : ℕ → List ℕ → ℕ → Bool × List ℕ
queue_write cap q v = if ltb (length q) cap then (true, q ++ v ∷ []) else (false, q)

abbrev pub queue_read : List ℕ → Option ℕ × List ℕ
queue_read [] = (none, [])
queue_read (v ∷ q) = (some v, q)

abbrev stored : Buffer → ℕ → Buffer
stored b v = record b { buffer = set b.buffer b.head v; head = next_index b.size b.head }

fill-stored :
    (b : Buffer) (v : ℕ)
    → IsValid b
    → (next_index b.size b.head == b.tail) ≡ false
    → fill (stored b v) ≡ suc (fill b)
unfolding next_index
fill-stored b v ok e = ground arith

fill-full :
    (b : Buffer) → IsValid b → (next_index b.size b.head == b.tail) ≡ true → fill b ≡ b.size - 1
unfolding next_index
fill-full b ok e = ground arith

head-ahead : (b : Buffer) → IsValid b → b.head ≡ ahead b.size b.tail (fill b)
head-ahead b ok = ground arith

pub fill-lt : (b : Buffer) → IsValid b → fill b < b.size
fill-lt b ok = ground arith

contents-stored :
    (b : Buffer) (v : ℕ)
    → IsValid b
    → (next_index b.size b.head == b.tail) ≡ false
    → contents (stored b v) ≡ contents b ++ v ∷ []
contents-stored b v ok e =
    ap (window (set b.buffer b.head v) b.size b.tail) (fill-stored b v ok e)
    ∙ window-set_end b.buffer b.size b.tail (fill b) b.head v ok.storage ok.tail_in (fill-lt b ok)
        (head-ahead b ok)

-- `buffer_write` stores a byte, or refuses it, as the queue of `size - 1` bytes does, and the buffer
-- stays valid.
pub write_refines :
    (b : Buffer) (v : ℕ)
    → IsValid b
    → (((buffer_write b v).0, contents (buffer_write b v).1)
        ≡ queue_write (b.size - 1) (contents b) v)
      × IsValid (buffer_write b v).1
unfolding buffer_write
write_refines b v ok = elim (Bool-cases (next_index b.size b.head == b.tail)) [
  | inl full ↦ rw full (ground (arith, length-contents b, fill-full b ok full), ok)
  | inr room ↦ rw room (
    ground (
      arith,
      length-contents b,
      contents-stored b v ok room,
      fill-stored b v ok room,
      fill-lt (stored b v) (valid room),
    ),
    valid room,
  )
]
  where
    valid : (next_index b.size b.head == b.tail) ≡ false → IsValid (stored b v)
    valid room = record {
      storage = omega (arith, length-set b.buffer b.head v, ok.storage);
      head_in = next_index-lt b.size b.head ok.head_in;
      tail_in = ok.tail_in;
    }

abbrev consumed : Buffer → Buffer
consumed b = record b { tail = next_index b.size b.tail }

fill-consumed :
    (b : Buffer)
    → IsValid b
    → (b.head == b.tail) ≡ false
    → (fill (consumed b) ≡ fill b - 1) × (0 < fill b)
unfolding next_index
fill-consumed b ok e = (ground arith, ground arith)

fill-empty : (b : Buffer) → (b.head == b.tail) ≡ true → fill b ≡ 0
fill-empty b e = ground arith

-- `buffer_read` gives the oldest byte, or says that there is none, as the queue does, and the buffer
-- stays valid.
pub read_refines :
    (b : Buffer)
    → IsValid b
    → (((buffer_read b).0, contents (buffer_read b).1) ≡ queue_read (contents b))
      × IsValid (buffer_read b).1
unfolding buffer_read
read_refines b ok = elim (Bool-cases (b.head == b.tail)) [
  | inl empty ↦ rw empty (rw (fill-empty b empty) refl, ok)
  | inr some_left ↦
      let (less, pos) = fill-consumed b ok some_left in
      rw some_left (
        rw (window-uncons b.buffer b.size b.tail (fill b) pos, less) refl,
        record {
          storage = ok.storage;
          head_in = ok.head_in;
          tail_in = next_index-lt b.size b.tail ok.tail_in;
        },
      )
]

-- The interrupt writes, the thread reads.
pub data Op : Type 0 where
  put : ℕ → Op
  get : Op

-- The answers to a sequence of calls: whether a byte was stored, or the byte that was read.
pub data Reply : Type 0 where
  stored_it : Bool → Reply
  gave : Option ℕ → Reply

unfoldable pub run : Buffer → List Op → List Reply
run b [] = []
run b (put v ∷ ops) = stored_it (buffer_write b v).0 ∷ run (buffer_write b v).1 ops
run b (get ∷ ops) = gave (buffer_read b).0 ∷ run (buffer_read b).1 ops

pub queue_run : ℕ → List ℕ → List Op → List Reply
queue_run cap q [] = []
queue_run cap q (put v ∷ ops) =
    stored_it (queue_write cap q v).0 ∷ queue_run cap (queue_write cap q v).1 ops
queue_run cap q (get ∷ ops) = gave (queue_read q).0 ∷ queue_run cap (queue_read q).1 ops

pub size-buffer_write : (b : Buffer) (v : ℕ) → (buffer_write b v).1.size ≡ b.size
unfolding buffer_write
size-buffer_write b v = ground arith

pub size-buffer_read : (b : Buffer) → (buffer_read b).1.size ≡ b.size
unfolding buffer_read
size-buffer_read b = ground arith

-- No interleaving of writes and reads tells a valid buffer from the queue of `size - 1` bytes that
-- it holds.
pub reads_agree :
    (ops : List Op) (b : Buffer) → IsValid b → run b ops ≡ queue_run (b.size - 1) (contents b) ops
unfolding run queue_run
reads_agree [] b ok = refl
reads_agree (put v ∷ ops) b ok =
    let (e, ok') = write_refines b v ok in
    rw (reads_agree ops (buffer_write b v).1 ok', ← e, size-buffer_write b v) refl
reads_agree (get ∷ ops) b ok =
    let (e, ok') = read_refines b ok in
    rw (reads_agree ops (buffer_read b).1 ok', ← e, size-buffer_read b) refl

get_or-set_zero :
    (bytes : List ℕ) (j i : ℕ)
    → get_or (set bytes j 0) i 0 ≡ (if i == j then 0 else get_or bytes i 0)
get_or-set_zero [] j i = ground arith
get_or-set_zero (x ∷ xs) zero zero = ground arith
get_or-set_zero (x ∷ xs) zero (suc i) = ground arith
get_or-set_zero (x ∷ xs) (suc j) zero = ground arith
get_or-set_zero (x ∷ xs) (suc j) (suc i) = ground (arith, get_or-set_zero xs j i)

get_or-clear_from :
    (n idx : ℕ) (bytes : List ℕ) (i : ℕ)
    → get_or (clear_from n idx bytes) i 0
      ≡ (if leb idx i && ltb i (idx + n) then 0 else get_or bytes i 0)
unfolding clear_from
get_or-clear_from zero idx bytes i = ground arith
get_or-clear_from (suc n) idx bytes i =
    ground (arith, get_or-clear_from n (idx + 1) (set bytes idx 0) i, get_or-set_zero bytes idx i)

window-zeros :
    (bytes : List ℕ) (size i n : ℕ)
    → ((j : ℕ) → j < size → get_or bytes j 0 ≡ 0)
    → i < size
    → window bytes size i n ≡ replicate n 0
window-zeros bytes size i zero z h = refl
window-zeros bytes size i (suc n) z h =
    ap₂ ◌∷◌ (z i h) (window-zeros bytes size (next_index size i) n z (next_index-lt size i h))

-- `buffer_clear` makes each waiting byte a zero byte, and does not make the buffer empty: as many
-- bytes wait as before.
pub contents-buffer_clear :
    (b : Buffer) → IsValid b → contents (buffer_clear b) ≡ replicate (fill b) 0
unfolding buffer_clear
contents-buffer_clear b ok =
    window-zeros (clear_from b.size 0 b.buffer) b.size b.tail (fill b)
      (λ j h. ground (arith, get_or-clear_from b.size 0 b.buffer j)) ok.tail_in
