-- ===== src/Tty.antt =====
-- The terminal: kernel/tty.cpp. Its grid has `width` columns and `height` rows, which gfx/surface.cpp sets.
-- What is drawn is the list of the characters with their cells, the newest first.
pub mod Cells
pub mod Keys
pub mod Relayed
pub mod Session
pub mod Shell
mod Tests
use muk.Prelude.{
  ℕ, zero, suc, ◌+◌, ◌-◌, ◌*◌, ◌%◌, List, [], ◌∷◌, Option, none, some, Bool, true, false, ◌==◌,
  if◌then◌else◌, leb, ◌>>=◌, ◌&&◌, not,
}
use muk.Std.Vector.{put}
use muk.Proc.Message.{Message, message_ne, message_null}
use muk.Proc.Message.Ports.{MessageQueue, send_message, receive_from}
use muk.Word.{u32, sub32}

pub record Cell : Type 0 where
  pub char : ℕ
  pub x : ℕ
  pub y : ℕ

pub record Terminal : Type 0 where
  pub row : ℕ
  pub column : ℕ
  pub cursor_x : ℕ
  pub cursor_y : ℕ
  pub drawn : List Cell

abbrev pub tab_width : ℕ
tab_width = 12

pub update_cursor : ℕ → ℕ → Terminal → Terminal
update_cursor row col t = record t { cursor_x = u32 (col + 1); cursor_y = row }

pub set_cursor_x : ℕ → Terminal → Terminal
set_cursor_x x t = update_cursor t.row x (record t { column = x })

pub put_entry_at : ℕ → ℕ → ℕ → Terminal → Terminal
put_entry_at c x y t = record t { drawn = record { char = c; x = x; y = y } ∷ t.drawn }

module _ (width height : ℕ) where
  -- `++terminal_column`, with its wraps to the next row and to the first
  pub advance : Terminal → Terminal
  advance t =
      let column = u32 (t.column + 1) in
      let row = u32 (t.row + 1) in
      if column == width
      then record t { column = 0; row = if row == height then 0 else row }
      else record t { column = column }

  pub putchar : ℕ → Terminal → Terminal
  putchar c t =
      if c == 10
      then record t { column = 0; row = u32 (t.row + 1) }
      else if c == 13
      then record t { column = 0 }
      else if c == 9
      then record t { column = u32 (t.column + (tab_width - t.column % tab_width)) }
      else let t = advance (put_entry_at c t.column t.row t) in update_cursor t.row t.column t

  -- The loop of `terminal_writestring`, over the bytes before the NUL
  unfoldable pub put_all : List ℕ → Terminal → Terminal
  put_all [] t = t
  put_all (c ∷ text) t = put_all text (putchar c t)

  -- With the postbox, for `SendMessage(3, 1)` of the thread
  pub scrollup : ℕ → Terminal → MessageQueue → Option (Terminal × MessageQueue)
  scrollup thread_id t qs =
      send_message qs 3 (record { source_thread = thread_id; payload = 1 }) >>= λ qs.
      some (record t { row = sub32 height 1 }, qs)

  pub write_string : ℕ → List ℕ → Terminal → MessageQueue → Option (Terminal × MessageQueue)
  write_string thread_id text t qs =
      (if t.row == height
        then (scrollup thread_id t qs >>= λ (t, qs). some (record t { row = sub32 t.row 1 }, qs))
        else some (t, qs))
      >>= λ (t, qs). some (put_all text t, qs)

  -- The loop of `tty_update` on port 2, with fuel for `n` messages: the line so far, its length, the
  -- terminal and the postbox. The outer `none` is that the fuel has run out, the inner one an access
  -- outside of a buffer.
  unfoldable pub read_keys :
      ℕ
      → List ℕ
      → ℕ
      → Terminal
      → MessageQueue
      → Option (Option (List ℕ × ℕ × Terminal × MessageQueue))
  read_keys zero tty_buffer tty_idx t qs = none
  read_keys (suc n) tty_buffer tty_idx t qs = elim (receive_from qs 2) [
    | none ↦ some none
    | some (msg, qs) ↦
        if not (message_ne msg message_null)
        then some (some (tty_buffer, tty_idx, t, qs))
        else elim (put tty_buffer tty_idx msg.payload) [
          | none ↦ some none
          | some line ↦
              read_keys n line (tty_idx + 1)
                (if msg.payload == 10 then t else putchar msg.payload t) qs
        ]
  ]

-- The test for a newline in the 1024 bytes of the line
pub has_newline : List ℕ → Bool
has_newline [] = false
has_newline (c ∷ cs) = let rest = has_newline cs in if c == 10 then true else rest
