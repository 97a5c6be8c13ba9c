-- ===== src/Tty/Shell.antt =====
-- `parse` of kernel/tty.cpp, and `Command::split` of kernel/command.cpp. `none` is an access outside of a buffer.
-- A string has no final NUL, so `strtok` on `data()` reads on in the heap: those bytes are the parameter `behind`, and
-- `later word` once the first word has been copied to the heap.
pub mod Lines
mod Tests
use muk.Prelude.{
  ℕ, List, [], ◌∷◌, ◌++◌, Option, none, some, Bool, true, false, if◌then◌else◌, ◌>>=◌, replicate,
}
use muk.Env.{CmdPair, present, get_command}
use muk.Std.Cstring.{strlen}
use muk.Std.Format.{text_arg, vsprintf}
use muk.Std.Text.{Text, of_chars, to_chars, substr}
use muk.Std.Tokens.{tokens_of, tokens_in}
use muk.Word.{sub32}

abbrev pub space : List ℕ
space = 32 ∷ 0 ∷ []

-- `Command::split`
unfoldable pub split : List ℕ → Option (Option (List Text))
split command = tokens_of command space

-- "%s: command not found\n"
abbrev pub not_found_format : List ℕ
not_found_format =
    37 ∷ 115 ∷ 58 ∷ 32 ∷ 99 ∷ 111 ∷ 109 ∷ 109 ∷ 97 ∷ 110 ∷ 100 ∷ 32 ∷ 110 ∷ 111 ∷ 116 ∷ 32 ∷ 102
    ∷ 111 ∷ 117 ∷ 110 ∷ 100 ∷ 10 ∷ 0 ∷ []

-- `terminal_printf`: the buffer that is written to the terminal
unfoldable pub printf_buffer : List ℕ → List ℕ → Option (List ℕ)
printf_buffer format text = vsprintf (replicate 80 0) format (text_arg text ∷ []) >>= λ r.
    r >>= λ (buffer, written). some buffer

-- What a line does: it calls a function with the words of the line, or shows a message.
pub data Reply : Type 0 where
  calls : ℕ → List Text → Reply
  shows : List ℕ → Reply

-- The line without its newline
unfoldable pub clip_line : List ℕ → Option Text
clip_line buffer = of_chars buffer >>= λ str.
    to_chars str >>= λ chars. strlen chars >>= λ len. substr str 0 (sub32 len 1)

unfoldable pub reply : List CmdPair → List Text → Option Reply
reply commands [] = none
reply commands (arg ∷ args) = to_chars arg >>= λ name. present commands name >>= λ found.
    if found
    then (get_command commands name >>= λ fn. some (calls fn (arg ∷ args)))
    else printf_buffer not_found_format name >>= λ buffer. some (shows buffer)

unfoldable pub parse : List CmdPair → List ℕ → (Text → List ℕ) → List ℕ → Option (Option Reply)
parse commands behind later buffer = elim (clip_line buffer) [
  | none ↦ some none
  | some clipped ↦
      tokens_in clipped.buff behind later space >>= λ args. some (args >>= reply commands)
]
