-- ===== src/Tty/Session.antt =====
-- From the keys to the command: the loops of `postbox_debug` and `tty_update`, and `parse`.
use mathlib.Core.List.{append_assoc}
use muk.Prelude.{
  ℕ, suc, ◌+◌, ◌-◌, ◌<◌, ◌≤◌, ◌≡◌, ◌≢◌, refl, ap, ◌∙◌, List, [], ◌∷◌, ◌++◌, some, true, false, ◌==◌,
  ◌⊎◌, ◌^◌, if◌then◌else◌, length, length-append, map, replicate, subst, arith, inl, inr,
  Bool-cases,
}
use muk.Env.{CmdPair, present, get_command}
use muk.Env.Commands.{AreNames}
use muk.Proc.Message.{Message, MessageList, max_messages}
use muk.Proc.Message.Fifo.{contents, IsStraight}
use muk.Proc.Message.Ports.{MessageQueue, mailbox, relay}
use muk.Proc.Message.Relay.{AreKeys}
use muk.Std.Cstring.{IsText}
use muk.Std.Cstring.Compare.{IsText-left}
use muk.Std.Text.{Text}
use muk.Std.Text.Roundtrip.{text_of, zeros-add, zeros-length}
use muk.Std.Tokens.Ends.{ends_in, extend_last}
use muk.Std.Tokens.Words.{words, AreOthers}
use muk.Tty.{Terminal, put_all, read_keys, has_newline}
use muk.Tty.Keys.{payloads, echoed}
use muk.Tty.Relayed.{relay-read_keys}
use muk.Tty.Shell.{calls, shows, parse}
use muk.Tty.Shell.Lines.{message, parse_lem}

payloads-IsText : (ms : List Message) → AreKeys ms → IsText (payloads ms)
payloads-IsText [] keys = tt
payloads-IsText (m ∷ ms) (from, real, keys) = (real, payloads-IsText ms keys)

length-payloads : (ms : List Message) → length (payloads ms) ≡ length ms
length-payloads [] = refl
length-payloads (m ∷ ms) = ap suc (length-payloads ms)

has_newline_lem : (s r : List ℕ) → has_newline (s ++ 10 ∷ r) ≡ true
unfolding has_newline
has_newline_lem [] r = refl
has_newline_lem (c ∷ s) r = elim (Bool-cases (c == 10)) [
  | inl is ↦ cc is
  | inr isnt ↦ cc (isnt, has_newline_lem s r)
]

-- What `parse` does on a line: it calls the function of the first word, or says that there is none.
abbrev pub Answers :
    List CmdPair → List ℕ → (Text → List ℕ) → List ℕ → List ℕ → List (List ℕ) → Type 0
Answers commands behind later line w ws =
    ((present commands (w ++ 0 ∷ []) ≡ some true)
      × ((fn : ℕ) × (get_command commands (w ++ 0 ∷ []) ≡ some fn)
          × (parse commands behind later line ≡ some (some (calls fn (map text_of (w ∷ ws)))))))
    ⊎ ((present commands (w ++ 0 ∷ []) ≡ some false)
        × ((more : List ℕ) × (parse commands behind later line
              ≡ some (some (shows ((w ++ message) ++ more))))))

cleared_line :
    (k : ℕ) → k < 1024 → (j : ℕ) × (replicate 1024 0 ≡ replicate k 0 ++ 0 ∷ replicate {A = ℕ} j 0)
cleared_line k h =
    let total : 1024 ≡ k + suc (1023 - k) = omega arith in
    (1023 - k, ap (λ n. replicate {A = ℕ} n 0) total ∙ zeros-add k (suc (1023 - k)))

module _ (width height : ℕ) where
  same_reading :
      (m count count' : ℕ) (buffer buffer' line line' keys keys' : List ℕ) (t : Terminal)
      (qs qs' : MessageQueue)
      → buffer ≡ buffer'
      → line' ≡ line
      → keys' ≡ keys
      → count' ≡ count
      → read_keys width height m buffer' 0 t qs
        ≡ some (some (line', count', put_all width height (echoed keys') t, qs'))
      → read_keys width height m buffer 0 t qs
        ≡ some (some (line, count, put_all width height (echoed keys) t, qs'))
  same_reading m count count' buffer buffer' line line' keys keys' t qs qs' e f g k h =
      cc (e, f, g, k, h)

  -- A line that waits in port 1 is carried out: when `postbox_debug` has passed it on, `tty_update` reads it
  -- into its cleared buffer, draws it and finds the newline, and `parse` calls the function of the first word
  -- with all words, if the library has it, or else shows the first word and that there is no such command.
  -- The last message is a newline, and the first word has less than 60 bytes. The names of the library are
  -- texts. The heap has a NUL behind the string of the line at first, and `h`, of one word and less than 2 ^ 30
  -- bytes, up to a NUL once the first word has been copied: of two or more words, the last one ends with `h` in the call, unless a space
  -- ends the line. The messages come from threads other than 0 and are other
  -- than 0, as is the thread of `postbox_debug`; port 2 is empty, no list has gone round, the list of port 2
  -- has room, and each loop has one round more than there are messages.
  pub session_lem :
      (ms : List Message) (s w : List ℕ) (ws : List (List ℕ)) (n m thread_id : ℕ) (t : Terminal)
      (qs : MessageQueue) (from to : MessageList) (commands : List CmdPair) (z h y : List ℕ)
      (later : Text → List ℕ)
      → payloads ms ≡ s ++ 10 ∷ []
      → words 32 false s ≡ w ∷ ws
      → later (text_of w) ≡ h ++ 0 ∷ y
      → AreOthers 32 h
      → length h < 2 ^ 30
      → length w < 60
      → AreNames commands
      → mailbox qs 1 ≡ some from
      → mailbox qs 2 ≡ some to
      → IsStraight from
      → IsStraight to
      → contents from ≡ ms
      → contents to ≡ []
      → AreKeys ms
      → thread_id ≢ 0
      → to.head_index + to.list_size + length ms ≤ max_messages
      → length ms < n
      → length ms < m
      → (qs' : MessageQueue) × (qs'' : MessageQueue) × (line : List ℕ) × (relay n thread_id qs
          ≡ some (some qs'))
        × (read_keys width height m (replicate 1024 0) 0 t qs'
            ≡ some (some (line, length ms, put_all width height (echoed (s ++ 10 ∷ [])) t, qs'')))
        × (has_newline line ≡ true)
        × Answers commands (0 ∷ z) later line w (if ends_in 32 s then ws else extend_last h ws)
  session_lem ms s w ws n m thread_id t qs from to commands z h y later typed split heap others few
        short names h1 h2 ok1 ok2 holds none_left keys other room fuel fuel' =
      let (j, cleared) = cleared_line (length ms) (omega arith) in
      let (qs', qs'', relays, reads, gone1, gone2) =
        relay-read_keys width height ms n m thread_id 0 [] (replicate (length ms) 0)
          (0 ∷ replicate j 0) t qs from to h1 h2 ok1 ok2 holds none_left keys other room refl
          (zeros-length (length ms)) fuel fuel' in
      let text = IsText-left s (10 ∷ []) (subst IsText typed (payloads-IsText ms keys)) in
      let size : length s + 1 ≡ length ms =
        omega (arith, ap length typed, length-append s (10 ∷ []), length-payloads ms) in
      let whole : payloads ms ++ 0 ∷ replicate j 0 ≡ s ++ 10 ∷ 0 ∷ replicate j 0 =
        ap (λ l. l ++ 0 ∷ replicate j 0) typed ∙ append_assoc s (10 ∷ []) (0 ∷ replicate j 0) in
      (
        qs',
        qs'',
        s ++ 10 ∷ 0 ∷ replicate j 0,
        relays,
        same_reading m (length ms) (0 + length ms) (replicate 1024 0)
            (replicate (length ms) 0 ++ 0 ∷ replicate j 0) (s ++ 10 ∷ 0 ∷ replicate j 0)
            (payloads ms ++ 0 ∷ replicate j 0) (s ++ 10 ∷ []) (payloads ms) t qs' qs'' cleared whole
            typed (omega arith) reads,
        has_newline_lem s (0 ∷ replicate j 0),
        parse_lem commands s w (replicate j 0) z h y ws later names text others (omega arith) split
            heap short,
      )
