-- ===== src/Tty/Shell/Tests.antt =====
-- Lines of the terminal.
use muk.Prelude.{ℕ, ◌+◌, ◌*◌, ◌≡◌, refl, List, [], ◌∷◌, ◌++◌, some, true, false, arith, ◌⊎◌}
use muk.Env.{CmdPair, present, get_command}
use muk.Std.Text.{Text}
use muk.Std.Text.Roundtrip.{text_of}
use muk.Std.Tokens.Words.{words}
use muk.Tty.Shell.{calls, shows, parse}
use muk.Tty.Shell.Lines.{message, parse_lem}

-- "ls /a"
abbrev line : List ℕ
line = 108 ∷ 115 ∷ 32 ∷ 47 ∷ 97 ∷ []

abbrev ls : List ℕ
ls = 108 ∷ 115 ∷ []

abbrev commands : List CmdPair
commands = record { cmd = text_of ls; ptr = 4096 } ∷ []

-- The header of the block that is allocated for a word: its size, and that it is in use
abbrev header : Text → List ℕ
header w = (2 * (w.size + 12) + 1) ∷ 0 ∷ 0 ∷ 0 ∷ []

parse_lem_example :
    ((present commands (ls ++ 0 ∷ []) ≡ some true)
      × ((fn : ℕ) × (get_command commands (ls ++ 0 ∷ []) ≡ some fn)
          × (parse commands (0 ∷ []) header (line ++ 10 ∷ 0 ∷ [])
              ≡ some (some (calls fn (text_of ls ∷ text_of (47 ∷ 97 ∷ 29 ∷ []) ∷ []))))))
    ⊎ ((present commands (ls ++ 0 ∷ []) ≡ some false)
        × ((behind : List ℕ) × (parse commands (0 ∷ []) header (line ++ 10 ∷ 0 ∷ [])
              ≡ some (some (shows ((ls ++ message) ++ behind))))))
unfolding words
parse_lem_example =
    parse_lem commands line ls [] [] (29 ∷ []) (0 ∷ 0 ∷ []) ((47 ∷ 97 ∷ []) ∷ []) header
      ((ls, omega arith, omega arith, refl), tt) (omega arith) (omega arith) (omega arith) refl refl
      (omega arith)
