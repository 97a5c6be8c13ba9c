-- ===== src/Tty/Tests.antt =====
-- A grid of three columns and two rows, and a line of keys.
use muk.Prelude.{◌+◌, ◌*◌, ℕ, List, ◌++◌, true, ◌≡◌, refl, [], ◌∷◌, some, replicate, arith}
use muk.Proc.Message.{Message, MessageList, message_null}
use muk.Proc.Message.Ports.{MessageQueue, mailbox, search, relay}
use muk.Proc.Message.Fifo.{IsStraight}
use muk.Tty.{Terminal, putchar, put_all, write_string, read_keys}
use muk.Tty.Cells.{IsOn, numbered, filled, put_all-filled}
use muk.Env.{CmdPair}
use muk.Std.Text.{Text}
use muk.Std.Text.Roundtrip.{text_of}
use muk.Std.Tokens.Words.{words}
use muk.Tty.{has_newline}
use muk.Tty.Keys.{echoed}
use muk.Tty.Session.{Answers, session_lem}

abbrev last_cell : Terminal
last_cell = record { row = 1; column = 2; cursor_x = 0; cursor_y = 0; drawn = [] }

last_cell-IsOn : IsOn 3 2 last_cell
last_cell-IsOn = record { column_in = omega arith; row_in = omega arith }

put_all-filled_example :
    (numbered 3 (put_all 3 2 (97 ∷ 98 ∷ []) last_cell).drawn ≡ filled 6 (97 ∷ 98 ∷ []) 5 [])
    × IsOn 3 2 (put_all 3 2 (97 ∷ 98 ∷ []) last_cell)
put_all-filled_example =
    put_all-filled 3 2 (97 ∷ 98 ∷ []) last_cell (omega arith) (omega arith) last_cell-IsOn (
      (λ e. omega arith, λ e. omega arith, λ e. omega arith),
      ((λ e. omega arith, λ e. omega arith, λ e. omega arith), tt),
    )

-- A tab passes the last column, and the character behind it is drawn outside of the grid.
tab_leaves : (putchar 3 2 9 last_cell).column ≡ 12
unfolding putchar
tab_leaves = refl

-- The text behind a scroll starts one row above the last.
scrolls :
    write_string 3 2 1 [] (record last_cell { row = 2 }) []
    ≡ some (record last_cell { row = 0 }, [])
unfolding write_string put_all muk.Tty.scrollup muk.Proc.Message.Ports.send_message
    muk.Proc.Message.Ports.search
scrolls = refl

abbrev home : Terminal
home = record { row = 0; column = 0; cursor_x = 0; cursor_y = 0; drawn = [] }

abbrev no_keys : MessageList
no_keys = record { head_index = 0; list_size = 0; list = replicate 32 message_null }

no_keys-IsStraight : IsStraight no_keys
no_keys-IsStraight = record { storage = refl; head_in = omega arith; fits = omega arith }

-- "ls /a", and a library that has "ls"
abbrev ls_line : List ℕ
ls_line = 108 ∷ 115 ∷ 32 ∷ 47 ∷ 97 ∷ []

abbrev key_of : ℕ → Message
key_of c = record { source_thread = 1; payload = c }

abbrev ls_keys : List Message
ls_keys = key_of 108 ∷ key_of 115 ∷ key_of 32 ∷ key_of 47 ∷ key_of 97 ∷ key_of 10 ∷ []

abbrev ls_waiting : MessageList
ls_waiting = record { head_index = 0; list_size = 6; list = ls_keys ++ replicate 26 message_null }

ls_waiting-IsStraight : IsStraight ls_waiting
ls_waiting-IsStraight = record { storage = refl; head_in = omega arith; fits = omega arith }

abbrev full_postbox : MessageQueue
full_postbox =
    record { port = 1; messages = ls_waiting } ∷ record { port = 2; messages = no_keys } ∷ []

abbrev library : List CmdPair
library = record { cmd = text_of (108 ∷ 115 ∷ []); ptr = 4096 } ∷ []

-- The header of the block that is allocated for a word: its size, and that it is in use
abbrev header : Text → List ℕ
header w = (2 * (w.size + 12) + 1) ∷ 0 ∷ 0 ∷ 0 ∷ []

session_lem_example :
    (qs' : MessageQueue) × (qs'' : MessageQueue) × (line : List ℕ) × (relay 7 2 full_postbox
      ≡ some (some qs'))
    × (read_keys 80 25 7 (replicate 1024 0) 0 home qs'
        ≡ some (some (line, 6, put_all 80 25 (echoed (ls_line ++ 10 ∷ [])) home, qs'')))
    × (has_newline line ≡ true)
    × Answers library (0 ∷ []) header line (108 ∷ 115 ∷ []) ((47 ∷ 97 ∷ 29 ∷ []) ∷ [])
unfolding search words
session_lem_example =
    session_lem 80 25 ls_keys ls_line (108 ∷ 115 ∷ []) ((47 ∷ 97 ∷ []) ∷ []) 7 7 2 home full_postbox
      ls_waiting no_keys library [] (29 ∷ []) (0 ∷ 0 ∷ []) header refl refl refl (omega arith)
      (omega arith) (omega arith)
      ((108 ∷ 115 ∷ [], (omega arith, (omega arith, tt)), omega arith, refl), tt) refl refl
      ls_waiting-IsStraight no_keys-IsStraight refl refl
      (
        omega arith,
        omega arith,
        (
          omega arith,
          omega arith,
          (
            omega arith,
            omega arith,
            (omega arith, omega arith, (omega arith, omega arith, (omega arith, omega arith, tt))),
          ),
        ),
      )
      (omega arith) (omega arith) (omega arith) (omega arith)
