-- ===== src/Proc/Message/Relay.antt =====
-- `postbox_debug` of kernel/proc/message.cpp passes the messages of port 1 on to port 2.
use mathlib.Core.List.{append_assoc, append-nil}
use muk.Prelude.{
  ℕ, zero, suc, ◌+◌, ◌<◌, ◌≤◌, ◌≡◌, ◌≢◌, sym, ap, ◌∙◌, List, [], ◌∷◌, ◌++◌, some, true, ◌==◌, ◌&&◌,
  not, ltb, length, arith, inl, inr, Bool-cases,
}
use muk.Proc.Message.{Message, MessageList, message_null, message_ne, max_messages}
use muk.Proc.Message.Fifo.{
  contents, IsStraight, push_room, after_push, after_push-IsStraight, contents-after_push, pop_lem,
  receive-pop, receive_empty, contents-empty,
}
use muk.Proc.Message.Ports.{
  MessageQueue, mailbox, receive_from, send_message, mailbox-receive_from, mailbox-send_message,
  relay,
}

-- Messages of a thread other than 0 with a byte other than 0
abbrev pub AreKeys : List Message → Type 0
AreKeys [] = Unit
AreKeys (m ∷ ms) = (m.source_thread ≢ 0) × (m.payload ≢ 0) × AreKeys ms

-- The messages with another sender
abbrev pub resent : ℕ → List Message → List Message
resent thread_id [] = []
resent thread_id (m ∷ ms) =
    record { source_thread = thread_id; payload = m.payload } ∷ resent thread_id ms

relay_step :
    (n thread_id : ℕ) (qs qs' qs'' : MessageQueue) (k : Message)
    → receive_from qs 1 ≡ some (k, qs')
    → k.source_thread ≢ 0
    → k.payload ≢ 0
    → send_message qs' 2 (record { source_thread = thread_id; payload = k.payload }) ≡ some qs''
    → relay (suc n) thread_id qs ≡ relay n thread_id qs''
unfolding relay message_ne
relay_step n thread_id qs qs' qs'' k taken from real sent =
    let key : (not (k.source_thread == 0) && not (k.payload == 0)) ≡ true = ground arith in
    cc (taken, key, sent)

relay_stop :
    (n thread_id : ℕ) (qs qs' : MessageQueue)
    → receive_from qs 1 ≡ some (message_null, qs')
    → relay (suc n) thread_id qs ≡ some (some qs')
unfolding relay message_ne
relay_stop n thread_id qs qs' taken = cc taken

-- The loop of `postbox_debug` empties the list of port 1 and appends its messages, with the thread of the loop for
-- their sender, to the list of port 2 in their order. They come from threads other than 0 and are other than 0,
-- neither list has gone round, and that of port 2 has room. One round more than there are messages is enough.
pub relay-contents :
    (ms : List Message) (n thread_id : ℕ) (qs : MessageQueue) (from to : MessageList)
    → mailbox qs 1 ≡ some from
    → mailbox qs 2 ≡ some to
    → IsStraight from
    → IsStraight to
    → contents from ≡ ms
    → AreKeys ms
    → to.head_index + to.list_size + length ms ≤ max_messages
    → length ms < n
    → (qs' : MessageQueue) × (from' : MessageList) × (to' : MessageList) × (relay n thread_id qs
        ≡ some (some qs'))
      × (mailbox qs' 1 ≡ some from')
      × (contents from' ≡ [])
      × (mailbox qs' 2 ≡ some to')
      × (contents to' ≡ contents to ++ resent thread_id ms)
      × IsStraight to'
relay-contents ms zero thread_id qs from to h1 h2 ok1 ok2 holds keys room fuel =
    absurd (omega arith)
relay-contents [] (suc n) thread_id qs from to h1 h2 ok1 ok2 holds keys room fuel =
    elim (Bool-cases (ltb 0 from.list_size)) [
      | inl more ↦
          let (m, l', run, e, ok', head, less) = pop_lem from ok1 (ground arith) in
          absurd (omega (arith, ap length (sym holds ∙ e)))
      | inr empty ↦
          let (qs', taken, box) =
            mailbox-receive_from qs 1 message_null from from h1
              (receive_empty from (ground arith)) in
          (
            qs',
            from,
            to,
            relay_stop n thread_id qs qs' taken,
            box 1,
            holds,
            box 2 ∙ h2,
            sym (append-nil (contents to)),
            ok2,
          )
    ]
relay-contents (k ∷ ms) (suc n) thread_id qs from to h1 h2 ok1 ok2 holds (real, byte, keys) room
      fuel =
    elim (Bool-cases (ltb 0 from.list_size)) [
      | inr empty ↦
          let nothing = contents-empty from (ground arith) in
          absurd (omega (arith, ap length (sym holds ∙ nothing)))
      | inl more ↦
          let (m, from', run, e, ok', head, less) = pop_lem from ok1 (ground arith) in
          let first : m ≡ k = cc (holds, e) in
          let others : contents from' ≡ ms = cc (holds, e) in
          let popped = receive-pop from (ground arith) ∙ run in
          let (qs', taken, box) = mailbox-receive_from qs 1 m from from' h1 popped in
          let new : Message = record { source_thread = thread_id; payload = k.payload } in
          let to' = after_push to (to.head_index + to.list_size) new in
          let pushed = push_room to new ok2.storage ok2.head_in (omega arith) in
          let (qs'', sent, box'') =
            mailbox-send_message qs' 2 new to to' true (box 2 ∙ h2) pushed in
          let (q, f, t, runs, b1, gone, b2, got, ok'') =
            relay-contents ms n thread_id qs'' from' to' (box'' 1 ∙ box 1) (box'' 2) ok'
              (after_push-IsStraight to new ok2 (omega arith)) others keys (omega arith)
              (omega arith) in
          (
            q,
            f,
            t,
            relay_step n thread_id qs qs' qs'' k (taken ∙ ap (λ h. some (h, qs')) first) real byte
                  sent
                ∙ runs,
            b1,
            gone,
            b2,
            got
                ∙ ap (λ cs. cs ++ resent thread_id ms)
                    (contents-after_push to new ok2 (omega arith))
                ∙ append_assoc (contents to) (new ∷ []) (resent thread_id ms),
            ok'',
          )
    ]
