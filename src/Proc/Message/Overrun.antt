-- ===== src/Proc/Message/Overrun.antt =====
-- What becomes of a `MessageList` once 31 messages have gone through it.
use muk.Prelude.{
  ℕ, ◌+◌, ◌≤◌, ◌<◌, ◌≡◌, refl, ap, sym, subst, ◌∙◌, min, List, [], ◌∷◌, ◌++◌, none, some, arith,
  length, length-set, ◌>>=◌, length-replicate,
}
use muk.Proc.Message.{
  Message, message_null, MessageList, max_messages, empty_list, Op, send, recv, run,
}
use muk.Proc.Message.Fifo.{
  IsStraight, push_room, push_end, push_outside, after_push, after_push-IsStraight, pop_lem,
  receive-pop, contents, contents-after_push, contents-empty,
}

-- Each message is received before the next is sent.
abbrev pub rounds : List Message → List Op
rounds [] = []
rounds (m ∷ ms) = send m ∷ recv ∷ rounds ms

-- An empty list with its head at `h`.
record IsDrained (h : ℕ) (l : MessageList) : Type 0 where
  storage : length l.list ≡ max_messages
  head_at : l.head_index ≡ h
  empty : l.list_size ≡ 0

IsDrained-IsStraight : (l : MessageList) (h : ℕ) → h ≤ 31 → IsDrained h l → IsStraight l
IsDrained-IsStraight l h small d = record {
  storage = d.storage;
  head_in = omega (arith, d.head_at);
  fits = omega (arith, d.head_at, d.empty);
}

round_lem :
    (l : MessageList) (h : ℕ) (m : Message)
    → h ≤ 31
    → IsDrained h l
    → (l' : MessageList) × IsDrained (min (h + 1) 31) l'
      × ((ops : List Op) → run l (send m ∷ recv ∷ ops) ≡ (run l' ops >>= λ ms. some (m ∷ ms)))
unfolding run
round_lem l h m small d =
    let v = IsDrained-IsStraight l h small d in
    let room : l.head_index + l.list_size < max_messages = omega (arith, d.head_at, d.empty) in
    let sent = after_push l (l.head_index + l.list_size) m in
    let (m', l', e, c, w, hd, sz) = pop_lem sent (after_push-IsStraight l m v room) (omega arith) in
    let one : m ∷ [] ≡ m' ∷ contents l' =
      ap (λ ms. ms ++ m ∷ []) (sym (contents-empty l d.empty))
      ∙ (sym (contents-after_push l m v room) ∙ c) in
    let same : m' ≡ m = cc in
    (
      l',
      record {
        storage = w.storage;
        head_at = omega (arith, hd, d.head_at);
        empty = omega (arith, sz, d.empty);
      },
      λ ops.
          rw
            (
              push_room l m d.storage (omega (arith, d.head_at)) room,
              receive-pop sent (omega arith),
              e,
              same,
            )
            refl,
    )

three_more :
    (l : MessageList) (a b c : Message)
    → IsDrained 31 l
    → (run l (send a ∷ send b ∷ []) ≡ some []) × (run l (send a ∷ send b ∷ send c ∷ []) ≡ none)
unfolding run
three_more l a b c d =
    let first = after_push l (l.head_index + l.list_size) a in
    let second = after_push first 31 b in
    let one =
      push_room l a d.storage (omega (arith, d.head_at)) (omega (arith, d.head_at, d.empty)) in
    let two =
      push_end first b (length-set l.list _ a ∙ d.storage) (omega (arith, d.empty))
        (omega (arith, d.head_at, d.empty)) in
    (
      rw (one, two) refl,
      rw
          (
            one,
            two,
            push_outside second c (length-set first.list 31 b ∙ (length-set l.list _ a ∙ d.storage))
                (omega (arith, d.head_at)) (omega (arith, d.empty))
                (omega (arith, d.head_at, d.empty)),
          )
          refl,
    )

overruns_from :
    (ms : List Message) (l : MessageList) (h : ℕ) (a b c : Message)
    → h ≤ 31
    → 31 ≤ h + length ms
    → IsDrained h l
    → (run l (rounds ms ++ send a ∷ send b ∷ []) ≡ some ms)
      × (run l (rounds ms ++ send a ∷ send b ∷ send c ∷ []) ≡ none)
overruns_from [] l h a b c small far d =
    let e : h ≡ 31 = omega arith in three_more l a b c (subst (λ k. IsDrained k l) e d)
overruns_from (m ∷ ms) l h a b c small far d =
    let (l', d', e) = round_lem l h m small d in
    let (before, after) =
      overruns_from ms l' (min (h + 1) 31) a b c (omega arith) (omega arith) d' in
    (
      rw (e (rounds ms ++ send a ∷ send b ∷ []), before) refl,
      rw (e (rounds ms ++ send a ∷ send b ∷ send c ∷ []), after) refl,
    )

-- Any 31 or more messages that are sent to the empty list and received one at a time come back as they
-- were sent. The list is empty again then and takes two more messages, but when it is sent a third
-- it writes outside of its array.
pub run_overruns :
    (ms : List Message) (a b c : Message)
    → 31 ≤ length ms
    → (run empty_list (rounds ms ++ send a ∷ send b ∷ []) ≡ some ms)
      × (run empty_list (rounds ms ++ send a ∷ send b ∷ send c ∷ []) ≡ none)
unfolding empty_list
run_overruns ms a b c far =
    overruns_from ms empty_list 0 a b c (omega arith) (omega arith)
      (record { storage = length-replicate 32 message_null; head_at = refl; empty = refl })
