-- ===== src/Tty/Keys.antt =====
-- The messages of the keyboard become a line of the terminal.
use mathlib.Core.List.{append_assoc}
use muk.Prelude.{
  ℕ, zero, suc, ◌+◌, ◌<◌, ◌≡◌, ◌≢◌, refl, sym, ap, ◌∙◌, List, [], ◌∷◌, ◌++◌, some, true, ◌==◌, ◌&&◌,
  not, if◌then◌else◌, ltb, length, length-append, arith, inl, inr, Bool-cases,
}
use muk.Proc.Message.{Message, MessageList, message_null, message_ne}
use muk.Proc.Message.Fifo.{
  contents, IsStraight, pop_lem, receive-pop, receive_empty, contents-empty,
}
use muk.Proc.Message.Ports.{MessageQueue, mailbox, receive_from, mailbox-receive_from}
use muk.Proc.Message.Relay.{AreKeys}
use muk.Std.Vector.Writes.{put_next}
use muk.Std.Vector.{put}
use muk.Tty.{Terminal, putchar, put_all, read_keys}

abbrev pub payloads : List Message → List ℕ
payloads [] = []
payloads (m ∷ ms) = m.payload ∷ payloads ms

-- What is echoed: every byte but the newlines
abbrev pub echoed : List ℕ → List ℕ
echoed [] = []
echoed (c ∷ cs) = if c == 10 then echoed cs else c ∷ echoed cs

module _ (width height : ℕ) where
  echo_next :
      (c : ℕ) (cs : List ℕ) (t : Terminal)
      → put_all width height (echoed (c ∷ cs)) t
        ≡ put_all width height (echoed cs) (if c == 10 then t else putchar width height c t)
  unfolding put_all
  echo_next c cs t = elim (Bool-cases (c == 10)) [ inl is ↦ cc is | inr isnt ↦ cc isnt ]

  echo_none : (t : Terminal) → put_all width height [] t ≡ t
  unfolding put_all
  echo_none t = refl

  key_step :
      (n at : ℕ) (line line' : List ℕ) (t : Terminal) (qs qs' : MessageQueue) (k : Message)
      → receive_from qs 2 ≡ some (k, qs')
      → k.source_thread ≢ 0
      → k.payload ≢ 0
      → put line at k.payload ≡ some line'
      → read_keys width height (suc n) line at t qs
        ≡ read_keys width height n line'
            (at + 1)
            (if k.payload == 10 then t else putchar width height k.payload t)
            qs'
  unfolding read_keys message_ne
  key_step n at line line' t qs qs' k taken from real written =
      let key : (not (k.source_thread == 0) && not (k.payload == 0)) ≡ true = ground arith in
      cc (taken, key, written)

  stop_step :
      (n at : ℕ) (line : List ℕ) (t : Terminal) (qs qs' : MessageQueue)
      → receive_from qs 2 ≡ some (message_null, qs')
      → read_keys width height (suc n) line at t qs ≡ some (some (line, at, t, qs'))
  unfolding read_keys message_ne
  stop_step n at line t qs qs' taken = cc taken

  -- The loop of `tty_update` on port 2 takes all messages from the list of the port: their bytes stand in the line in
  -- the order in which they were sent, all but the newlines are drawn in this order, and the list is empty then. The
  -- messages come from threads other than 0 and are other than 0, the list has not gone round, and the line has
  -- room for them. One round more than there are messages is enough.
  pub read_keys-contents :
      (ms : List Message) (n at : ℕ) (pre gap rest : List ℕ) (t : Terminal) (qs : MessageQueue)
      (l : MessageList)
      → mailbox qs 2 ≡ some l
      → IsStraight l
      → contents l ≡ ms
      → AreKeys ms
      → at ≡ length pre
      → length gap ≡ length ms
      → length ms < n
      → (qs' : MessageQueue) × (l' : MessageList) × (read_keys width height n
            (pre ++ (gap ++ rest))
            at
            t
            qs
          ≡ some (
              some (
                pre ++ (payloads ms ++ rest),
                at + length ms,
                put_all width height (echoed (payloads ms)) t,
                qs',
              )))
        × (mailbox qs' 2 ≡ some l')
        × (contents l' ≡ [])
  read_keys-contents ms zero at pre gap rest t qs l box ok holds keys here size fuel =
      absurd (omega arith)
  read_keys-contents [] (suc n) at pre [] rest t qs l box ok holds keys here size fuel =
      elim (Bool-cases (ltb 0 l.list_size)) [
        | inl more ↦
            let (m, l', run, e, ok', head, less) = pop_lem l ok (ground arith) in
            absurd (omega (arith, ap length (sym holds ∙ e)))
        | inr empty ↦
            let (qs', taken, box') =
              mailbox-receive_from qs 2 message_null l l box (receive_empty l (ground arith)) in
            let total : at + 0 ≡ at = omega arith in
            (
              qs',
              l,
              cc (stop_step n at (pre ++ rest) t qs qs' taken, total, echo_none t),
              box' 2,
              holds,
            )
      ]
  read_keys-contents [] (suc n) at pre (x ∷ gap) rest t qs l box ok holds keys here size fuel =
      absurd (omega arith)
  read_keys-contents (k ∷ ms) (suc n) at pre [] rest t qs l box ok holds keys here size fuel =
      absurd (omega arith)
  read_keys-contents (k ∷ ms) (suc n) at pre (x ∷ gap) rest t qs l box ok holds (from, real, keys)
        here size fuel =
      elim (Bool-cases (ltb 0 l.list_size)) [
        | inr empty ↦
            let nothing = contents-empty l (ground arith) in
            absurd (omega (arith, ap length (sym holds ∙ nothing)))
        | inl more ↦
            let (m, l', run, e, ok', head, less) = pop_lem l ok (ground arith) in
            let first : m ≡ k = cc (holds, e) in
            let others : contents l' ≡ ms = cc (holds, e) in
            let (qs', taken, box') =
              mailbox-receive_from qs 2 m l l' box (receive-pop l (ground arith) ∙ run) in
            let shown = if k.payload == 10 then t else putchar width height k.payload t in
            let (qs'', l'', reads, box'', gone) =
              read_keys-contents ms n (at + 1) (pre ++ k.payload ∷ []) gap rest shown qs' l'
                (box' 2) ok' others keys (omega (arith, length-append pre (k.payload ∷ [])))
                (omega arith) (omega arith) in
            let step =
              key_step n at (pre ++ x ∷ (gap ++ rest)) (pre ++ k.payload ∷ (gap ++ rest)) t qs qs' k
                (taken ∙ ap (λ h. some (h, qs')) first) from real
                (put_next pre x (gap ++ rest) at k.payload here) in
            let total : at + 1 + length ms ≡ at + suc (length ms) = omega arith in
            (
              qs'',
              l'',
              step
                  ∙ cc (
                    reads,
                    total,
                    append_assoc pre (k.payload ∷ []) (gap ++ rest),
                    append_assoc pre (k.payload ∷ []) (payloads ms ++ rest),
                    echo_next k.payload (payloads ms) t,
                  ),
              box'',
              gone,
            )
      ]
