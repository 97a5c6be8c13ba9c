-- ===== src/Proc/Message/Fifo.antt =====
-- `MessageList` as a queue: it is one until index 32 is reached, and then it is not.
use muk.Prelude.{
  ℕ, suc, ◌+◌, ◌-◌, ◌/◌, ◌≤◌, ◌<◌, ◌≡◌, refl, Bool, true, false, List, [], ◌∷◌, ◌++◌, Option, none,
  some, arith, ap, lt→ltb, ◌∙◌, ltb, if◌then◌else◌, length, get_or, set, slice, length-set,
  length-slice, slice-set_end, slice-uncons, min, get_elem?-eq-get_or,
}
use native.Mathlib.Decide.{dec_lt, ℕ_discrete}
use muk.Proc.Message.{
  Op, send, recv, run, receive, Message, message_null, MessageList, max_messages, push, pop,
}

-- The messages from the head on, without going round.
abbrev pub contents : MessageList → List Message
contents l = slice l.list l.head_index l.list_size message_null

-- The head is in the array, and no message lies beyond it.
pub record IsStraight (l : MessageList) : Type 0 where
  pub storage : length l.list ≡ max_messages
  pub head_in : l.head_index < max_messages
  pub fits : l.head_index + l.list_size ≤ max_messages

abbrev pub after_push : MessageList → ℕ → Message → MessageList
after_push l index m = record l { list = set l.list index m; list_size = l.list_size + 1 }

-- What `push` does to a list with its head in the array.
pub data Pushes (l : MessageList) (m : Message) : Option (Bool × MessageList) → Type 0 where
  appended :
      {l' : MessageList}
      → l.head_index + l.list_size < max_messages
      → contents l' ≡ contents l ++ m ∷ []
      → IsStraight l'
      → l'.head_index ≡ l.head_index
      → l'.list_size ≡ l.list_size + 1
      → Pushes l m (some (true, l'))
  overwrote :
      {l' : MessageList}
      → l.list_size < max_messages
      → l.head_index + l.list_size ≡ max_messages
      → l' ≡ after_push l 31 m
      → Pushes l m (some (true, l'))
  outside : l.list_size < max_messages → max_messages < l.head_index + l.list_size → Pushes l m none
  refused : max_messages ≤ l.list_size → Pushes l m (some (false, l))

pub push_room :
    (l : MessageList) (m : Message)
    → length l.list ≡ max_messages
    → l.head_index < max_messages
    → l.head_index + l.list_size < max_messages
    → push l m ≡ some (true, after_push l (l.head_index + l.list_size) m)
unfolding push
push_room l m st hd room =
    let e : l.head_index + l.list_size - (l.head_index + l.list_size) / 32
        ≡ l.head_index + l.list_size =
      omega arith in
    rw (
      e,
      lt→ltb l.list_size 32 (omega arith),
      lt→ltb (l.head_index + l.list_size) (length l.list) (omega arith),
    )

pub push_end :
    (l : MessageList) (m : Message)
    → length l.list ≡ max_messages
    → l.list_size < max_messages
    → l.head_index + l.list_size ≡ max_messages
    → push l m ≡ some (true, after_push l 31 m)
unfolding push
push_end l m st sz e =
    let i : l.head_index + l.list_size - (l.head_index + l.list_size) / 32 ≡ 31 = omega arith in
    rw (i, lt→ltb l.list_size 32 sz, lt→ltb 31 (length l.list) (omega arith))

pub push_outside :
    (l : MessageList) (m : Message)
    → length l.list ≡ max_messages
    → l.head_index < max_messages
    → l.list_size < max_messages
    → max_messages < l.head_index + l.list_size
    → push l m ≡ none
unfolding push
push_outside l m st hd sz e = ground arith

push_full :
    (l : MessageList) (m : Message) → max_messages ≤ l.list_size → push l m ≡ some (false, l)
unfolding push
push_full l m h = ground arith

pub after_push-IsStraight :
    (l : MessageList) (m : Message)
    → IsStraight l
    → l.head_index + l.list_size < max_messages
    → IsStraight (after_push l (l.head_index + l.list_size) m)
after_push-IsStraight l m v room = record {
  storage = length-set l.list (l.head_index + l.list_size) m ∙ v.storage;
  head_in = v.head_in;
  fits = omega arith;
}

pub contents-after_push :
    (l : MessageList) (m : Message)
    → IsStraight l
    → l.head_index + l.list_size < max_messages
    → contents (after_push l (l.head_index + l.list_size) m) ≡ contents l ++ m ∷ []
contents-after_push l m v room =
    let e : l.list_size + 1 ≡ suc l.list_size = omega arith in
    ap (λ k. slice (set l.list (l.head_index + l.list_size) m) l.head_index k message_null) e
    ∙ slice-set_end l.list l.head_index l.list_size (l.head_index + l.list_size) m message_null refl
        (omega (arith, v.storage))

-- `MessageList::push` on a list with its head in the array: below the last slot it appends the
-- message; where head and size make 32 it overwrites slot 31; beyond that it writes outside of the
-- array; a list of 32 messages refuses.
pub push-Pushes :
    (l : MessageList) (m : Message)
    → length l.list ≡ max_messages
    → l.head_index < max_messages
    → Pushes l m (push l m)
push-Pushes l m st hd = elim (dec_lt l.list_size max_messages) [
  | no full ↦ rw (push_full l m (omega arith)) (refused (omega arith))
  | yes small ↦ elim (dec_lt (l.head_index + l.list_size) max_messages) [
    | yes room ↦
        let v : IsStraight l = record { storage = st; head_in = hd; fits = omega arith } in
        rw (push_room l m st hd room) (
          appended room (contents-after_push l m v room) (after_push-IsStraight l m v room) refl
            refl)
    | no beyond ↦ elim (ℕ_discrete (l.head_index + l.list_size) max_messages) [
      | yes e ↦ rw (push_end l m st small e) (overwrote small e refl)
      | no ne ↦ rw (push_outside l m st hd small (omega arith)) (outside small (omega arith))
    ]
  ]
]

abbrev after_pop : MessageList → MessageList
after_pop l = record l { head_index = min (l.head_index + 1) 31; list_size = l.list_size - 1 }

-- `pop` of a straight list that is not empty gives its first message and leaves the others. The head
-- moves on by one, and stays at 31 once it is there.
pub pop_lem :
    (l : MessageList)
    → IsStraight l
    → 0 < l.list_size
    → (m : Message) × (l' : MessageList) × (pop l ≡ some (m, l'))
      × (contents l ≡ m ∷ contents l')
      × IsStraight l'
      × (l'.head_index ≡ min (l.head_index + 1) 31)
      × (l'.list_size + 1 ≡ l.list_size)
unfolding pop
pop_lem l v h = (
  get_or l.list l.head_index message_null,
  after_pop l,
  rw
      (
        get_elem?-eq-get_or l.list l.head_index message_null (omega (arith, v.storage, v.head_in)),
        pop,
      )
      (ground (arith, v.head_in)),
  slice-uncons l.list l.head_index l.list_size message_null h
      ∙ ap (λ (ms : List Message). get_or l.list l.head_index message_null ∷ ms)
          (rest (dec_lt l.head_index 31)),
  record { storage = v.storage; head_in = omega arith; fits = omega (arith, v.fits) },
  refl,
  omega arith,
)
  where
    rest :
        Dec (l.head_index < 31)
        → slice l.list (l.head_index + 1) (l.list_size - 1) message_null ≡ contents (after_pop l)
    rest (yes lt) = let e : min (l.head_index + 1) 31 ≡ l.head_index + 1 = omega arith in rw e
    rest (no ge) = let e : l.list_size - 1 ≡ 0 = omega (arith, v.fits) in rw e

-- The queue that a list stands for: at most 32 messages, oldest first. A message that does not fit is
-- dropped, and an empty queue gives the null message.
pub queue_run : List Message → List Op → List Message
queue_run q [] = []
queue_run q (send m ∷ ops) = queue_run (if ltb (length q) max_messages then q ++ m ∷ [] else q) ops
queue_run [] (recv ∷ ops) = message_null ∷ queue_run [] ops
queue_run (m ∷ q) (recv ∷ ops) = m ∷ queue_run q ops

-- How many messages a queue accepts that holds `n` messages: those that find fewer than 32.
abbrev pub accepted : ℕ → List Op → ℕ
accepted n [] = 0
accepted n (send m ∷ ops) =
    let more = accepted (n + 1) ops + 1 in
    let same = accepted n ops in if ltb n max_messages then more else same
accepted n (recv ∷ ops) = accepted (n - 1) ops

pub receive-pop : (l : MessageList) → 0 < l.list_size → receive l ≡ pop l
unfolding receive
receive-pop l h = rw (lt→ltb 0 l.list_size h)

pub receive_empty : (l : MessageList) → l.list_size ≡ 0 → receive l ≡ some (message_null, l)
unfolding receive
receive_empty l h = ground arith

pub contents-empty : (l : MessageList) → l.list_size ≡ 0 → contents l ≡ []
contents-empty l h = rw h

accepted_room :
    (n : ℕ) (m : Message) (ops : List Op)
    → n < max_messages
    → accepted n (send m ∷ ops) ≡ accepted (n + 1) ops + 1
accepted_room n m ops h = rw (lt→ltb n max_messages h) refl

accepted_full :
    (n : ℕ) (m : Message) (ops : List Op)
    → max_messages ≤ n
    → accepted n (send m ∷ ops) ≡ accepted n ops
accepted_full n m ops h = let full : ltb n max_messages ≡ false = ground arith in rw full refl

accepted_recv : (n k : ℕ) (ops : List Op) → n - 1 ≡ k → accepted n (recv ∷ ops) ≡ accepted k ops
accepted_recv n k ops e = ap (λ j. accepted j ops) e

-- While the messages that have left a list, those that it holds and those that it still accepts are not more than
-- 32, it answers any sequence of sends and receives as the queue of its contents does, which holds at most 32
-- messages, drops what does not fit, however often this happens, and gives the null message when it is empty.
pub run_refines :
    (ops : List Op) (l : MessageList)
    → IsStraight l
    → l.head_index + l.list_size + accepted l.list_size ops ≤ max_messages
    → run l ops ≡ some (queue_run (contents l) ops)
unfolding run queue_run
run_refines [] l v h = refl
run_refines (send m ∷ ops) l v h = elim (dec_lt l.list_size max_messages) [
  | yes fewer ↦
      let count = accepted_room l.list_size m ops fewer in
      let room : l.head_index + l.list_size < max_messages = omega (arith, count) in
      let e = push_room l m v.storage v.head_in room in
      let short : length (contents l) < max_messages =
        omega (arith, length-slice l.list l.head_index l.list_size message_null) in
      rw (e, lt→ltb _ _ short, ← contents-after_push l m v room)
        (run_refines ops (after_push l (l.head_index + l.list_size) m)
          (after_push-IsStraight l m v room) (omega (arith, count)))
  | no full ↦
      let count = accepted_full l.list_size m ops (omega arith) in
      let long : ltb (length (contents l)) max_messages ≡ false =
        ground (arith, length-slice l.list l.head_index l.list_size message_null) in
      rw (push_full l m (omega arith), long) (run_refines ops l v (omega (arith, count)))
]
run_refines (recv ∷ ops) l v h = elim (dec_lt 0 l.list_size) [
  | yes pos ↦
      let (m, l', e, c, w, hd, sz) = pop_lem l v pos in
      let count = accepted_recv l.list_size l'.list_size ops (omega (arith, sz)) in
      rw (receive-pop l pos, e, c, run_refines ops l' w (omega (arith, hd, sz, count))) refl
  | no empty ↦
      let none_left : l.list_size ≡ 0 = omega arith in
      let count = accepted_recv l.list_size l.list_size ops (omega arith) in
      rw
        (
          receive_empty l none_left,
          run_refines ops l v (omega (arith, count)),
          contents-empty l none_left,
        )
        refl
]
