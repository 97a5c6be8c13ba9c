-- ===== src/Proc/Message/Ports.antt =====
-- `MessageQueue`, the postbox of kernel/proc/message.cpp: one list of messages for each port.
-- `none` is an access outside of a list, as in the parent module.
use muk.Prelude.{
  ℕ, zero, suc, not, ◌≡◌, ◌≢◌, ◌↔◌, refl, subst, ◌∙◌, ◌⊎◌, inl, inr, Bool, true, false, List, [],
  ◌∷◌, ◌++◌, Option, none, some, arith, ◌==◌, if◌then◌else◌, ◌>>=◌, Option-cases,
}
use muk.Proc.Message.{
  Message, message_null, message_eq, message_ne, MessageList, empty_list, push, receive,
}

pub record PortQueue : Type 0 where
  pub port : ℕ
  pub messages : MessageList

-- The queues that `ports` points to. Each is made by `listen`, so no two pointers are equal.
abbrev pub MessageQueue : Type 0
MessageQueue = List PortQueue

-- `std::find_if` with `PortQueueComp`: the first queue of the port.
unfoldable pub search : MessageQueue → ℕ → Option PortQueue
search [] port_id = none
search (q ∷ qs) port_id = if q.port == port_id then some q else search qs port_id

-- What a call through the iterator that `search` found leaves behind.
pub replace : MessageQueue → ℕ → MessageList → MessageQueue
replace [] port_id l = []
replace (q ∷ qs) port_id l =
    if q.port == port_id then record q { messages = l } ∷ qs else q ∷ replace qs port_id l

unfoldable pub listen : MessageQueue → ℕ → MessageQueue
listen qs port_id = elim (search qs port_id) [
  | none ↦ qs ++ record { port = port_id; messages = empty_list } ∷ []
  | some _ ↦ qs
]

-- `MessageQueue::push`, which `SendMessage` calls: a port that nobody listens to drops the message.
unfoldable pub send_message : MessageQueue → ℕ → Message → Option MessageQueue
send_message qs port_id msg = elim (search qs port_id) [
  | none ↦ some qs
  | some q ↦ push q.messages msg >>= λ r. some (replace qs port_id r.1)
]

-- `MessageQueue::pop`
pub receive_from : MessageQueue → ℕ → Option (Message × MessageQueue)
receive_from qs port_id = elim (search qs port_id) [
  | none ↦ some (message_null, qs)
  | some q ↦ receive q.messages >>= λ r. some (r.0, replace qs port_id r.1)
]

-- The loop of `postbox_debug` over the messages of port 1, with `n` rounds left. The outer `none` is that they
-- have run out, the inner one an access outside of a list.
unfoldable pub relay : ℕ → ℕ → MessageQueue → Option (Option MessageQueue)
relay zero thread_id qs = none
relay (suc n) thread_id qs = elim (receive_from qs 1) [
  | none ↦ some none
  | some (msg, qs) ↦
      if not (message_ne msg message_null)
      then some (some qs)
      else elim (send_message qs 2 (record { source_thread = thread_id; payload = msg.payload })) [
        | none ↦ some none
        | some qs ↦ relay n thread_id qs
      ]
]

-- The list of a port.
abbrev pub mailbox : MessageQueue → ℕ → Option MessageList
mailbox qs port_id = elim (search qs port_id) [ none ↦ none | some q ↦ some q.messages ]

search-replace :
    (qs : MessageQueue) (p r : ℕ) (l : MessageList)
    → mailbox (replace qs p l) r
      ≡ (elim (mailbox qs r) [ none ↦ none | some k ↦ some (if p == r then l else k) ])
unfolding search replace
search-replace [] p r l = refl
search-replace (q ∷ qs) p r l = ground (arith, search-replace qs p r l)

search-append :
    (qs : MessageQueue) (x : PortQueue) (r : ℕ)
    → mailbox (qs ++ x ∷ []) r ≡ (elim (search qs r) [
      | none ↦ if x.port == r then some x.messages else none
      | some q ↦ some q.messages
    ])
unfolding search
search-append [] x r = ground arith
search-append (q ∷ qs) x r = ground (arith, search-append qs x r)

-- Equal ports have the same search.
search-key :
    (qs : MessageQueue) (p r : ℕ) (q : PortQueue)
    → search qs p ≡ some q
    → (p == r) ≡ true
    → search qs r ≡ some q
search-key qs p r q e h = let k : p ≡ r = ground arith in subst (λ n. search qs n ≡ some q) k e

search-key_none :
    (qs : MessageQueue) (p r : ℕ) → search qs p ≡ none → (p == r) ≡ true → search qs r ≡ none
search-key_none qs p r e h = let k : p ≡ r = ground arith in subst (λ n. search qs n ≡ none) k e

-- After `listen` the port has a list, an old one as it was and a new one empty; the lists of the
-- other ports are as they were.
pub mailbox-listen :
    (qs : MessageQueue) (p r : ℕ)
    → mailbox (listen qs p) r ≡ (
        if p == r
        then (elim (mailbox qs p) [ none ↦ some empty_list | some l ↦ some l ])
        else mailbox qs r)
unfolding listen search
mailbox-listen qs p r = elim (Option-cases (search qs p)) [
  | inr (q, e) ↦ rw (e, listen) (ground (arith, search-key qs p r q e))
  | inl e ↦
      rw (e, listen)
        (search-append qs (record { port = p; messages = empty_list }) r
          ∙ ground (arith, e, search-key_none qs p r e))
]

-- `SendMessage` to a port whose list accepts the message, or refuses it, changes that list alone.
pub mailbox-send_message :
    (qs : MessageQueue) (p : ℕ) (m : Message) (l l' : MessageList) (b : Bool)
    → mailbox qs p ≡ some l
    → push l m ≡ some (b, l')
    → (qs' : MessageQueue) × (send_message qs p m ≡ some qs')
      × ((r : ℕ) → mailbox qs' r ≡ (if p == r then some l' else mailbox qs r))
unfolding send_message
mailbox-send_message qs p m l l' b h e = elim (Option-cases (search qs p)) [
  | inl f ↦ absurd (ground (arith, f))
  | inr (q, f) ↦
      let same : q.messages ≡ l = ground (arith, f) in
      (
        replace qs p l',
        rw (f, send_message, same, e) refl,
        λ r. search-replace qs p r l' ∙ ground (arith, f, search-key qs p r q f),
      )
]

-- A receive from a port with a list takes what `receive` takes from that list, and changes no other.
pub mailbox-receive_from :
    (qs : MessageQueue) (p : ℕ) (m : Message) (l l' : MessageList)
    → mailbox qs p ≡ some l
    → receive l ≡ some (m, l')
    → (qs' : MessageQueue) × (receive_from qs p ≡ some (m, qs'))
      × ((r : ℕ) → mailbox qs' r ≡ (if p == r then some l' else mailbox qs r))
unfolding receive_from
mailbox-receive_from qs p m l l' h e = elim (Option-cases (search qs p)) [
  | inl f ↦ absurd (ground (arith, f))
  | inr (q, f) ↦
      let same : q.messages ≡ l = ground (arith, f) in
      (
        replace qs p l',
        rw (f, receive_from, same, e) refl,
        λ r. search-replace qs p r l' ∙ ground (arith, f, search-key qs p r q f),
      )
]

-- A port that nobody listens to drops the message, and gives the null message.
pub no_listener :
    (qs : MessageQueue) (p : ℕ) (m : Message)
    → mailbox qs p ≡ none
    → (send_message qs p m ≡ some qs) × (receive_from qs p ≡ some (message_null, qs))
unfolding send_message receive_from
no_listener qs p m h = ground arith

-- Both `==` and `!=` are false of two messages exactly when one field is the same and the other is
-- not: `!=` is not the negation of `==`.
pub message_ne_lem :
    (m n : Message)
    → ((message_eq m n ≡ false) × (message_ne m n ≡ false)) ↔ (
        ((m.source_thread ≡ n.source_thread) × (m.payload ≢ n.payload))
        ⊎ ((m.source_thread ≢ n.source_thread) × (m.payload ≡ n.payload)))
unfolding message_eq message_ne
message_ne_lem m n = (λ h. ground arith, λ h. ground arith)
