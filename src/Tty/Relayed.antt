-- ===== src/Tty/Relayed.antt =====
-- The keys go through the loop of `postbox_debug` to the terminal.
use mathlib.Core.Option.{map as option_map}
use muk.Prelude.{
  ℕ, suc, ◌+◌, ◌<◌, ◌≤◌, ◌≡◌, ◌≢◌, refl, ap, ◌∙◌, List, [], ◌∷◌, ◌++◌, some, length, arith,
}
use muk.Proc.Message.{Message, MessageList, max_messages}
use muk.Proc.Message.Fifo.{contents, IsStraight}
use muk.Proc.Message.Ports.{MessageQueue, mailbox, relay}
use muk.Proc.Message.Relay.{AreKeys, resent, relay-contents}
use muk.Tty.{Terminal, put_all, read_keys}
use muk.Tty.Keys.{payloads, echoed, read_keys-contents}

payloads-resent : (thread_id : ℕ) (ms : List Message) → payloads (resent thread_id ms) ≡ payloads ms
payloads-resent thread_id [] = refl
payloads-resent thread_id (m ∷ ms) = ap (λ cs. m.payload ∷ cs) (payloads-resent thread_id ms)

length-resent : (thread_id : ℕ) (ms : List Message) → length (resent thread_id ms) ≡ length ms
length-resent thread_id [] = refl
length-resent thread_id (m ∷ ms) = ap suc (length-resent thread_id ms)

resent-AreKeys :
    (thread_id : ℕ) (ms : List Message) → thread_id ≢ 0 → AreKeys ms → AreKeys (resent thread_id ms)
resent-AreKeys thread_id [] other keys = tt
resent-AreKeys thread_id (m ∷ ms) other (from, real, keys) =
    (other, real, resent-AreKeys thread_id ms other keys)

-- Keys that wait in port 1 reach the line: the loop of `postbox_debug` and then that of `tty_update` leave the bytes
-- of their messages in the line in the order in which they were sent and draw all but the newlines in this order,
-- and no message is left in either port. The keys and the loop of `postbox_debug` belong to threads other
-- than 0, no byte is 0, port 2 is empty, no list has gone round, and the line and the list of port 2 have room. One
-- round more than there are messages is enough for each loop.
pub relay-read_keys :
    (width height : ℕ) (ms : List Message) (n m thread_id at : ℕ) (pre gap rest : List ℕ)
    (t : Terminal) (qs : MessageQueue) (from to : MessageList)
    → mailbox qs 1 ≡ some from
    → mailbox qs 2 ≡ some to
    → IsStraight from
    → IsStraight to
    → contents from ≡ ms
    → contents to ≡ []
    → AreKeys ms
    → thread_id ≢ 0
    → to.head_index + to.list_size + length ms ≤ max_messages
    → at ≡ length pre
    → length gap ≡ length ms
    → length ms < n
    → length ms < m
    → (qs' : MessageQueue) × (qs'' : MessageQueue) × (relay n thread_id qs ≡ some (some qs'))
      × (read_keys width height m (pre ++ (gap ++ rest)) at t qs'
          ≡ some (
              some (
                pre ++ (payloads ms ++ rest),
                at + length ms,
                put_all width height (echoed (payloads ms)) t,
                qs'',
              )))
      × (option_map contents (mailbox qs' 1) ≡ some [])
      × (option_map contents (mailbox qs'' 2) ≡ some [])
relay-read_keys width height ms n m thread_id at pre gap rest t qs from to h1 h2 ok1 ok2 holds
      none_left keys other room here size fuel fuel' =
    let (qs', f, to', relays, b1, gone, b2, got, ok') =
      relay-contents ms n thread_id qs from to h1 h2 ok1 ok2 holds keys room fuel in
    let waiting : contents to' ≡ resent thread_id ms =
      got ∙ ap (λ cs. cs ++ resent thread_id ms) none_left in
    let count = length-resent thread_id ms in
    let (qs'', l, reads, b, empty) =
      read_keys-contents width height (resent thread_id ms) m at pre gap rest t qs' to' b2 ok'
        waiting (resent-AreKeys thread_id ms other keys) here (omega (arith, count))
        (omega (arith, count)) in
    (
      qs',
      qs'',
      relays,
      cc (reads, count, payloads-resent thread_id ms),
      cc (b1, gone),
      cc (b, empty),
    )
