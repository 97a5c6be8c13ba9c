-- ===== src/Std/Tokens/Tests.antt =====
-- The words of a command line.
use muk.Prelude.{◌≡◌, refl, [], ◌∷◌, ◌++◌, some, false, arith}
use muk.Std.Text.Roundtrip.{text_of}
use muk.Std.Tokens.Words.{words}
use muk.Std.Tokens.Split.{tokens_of-words}
use muk.Std.Tokens.{strpbrk, strtok, strtok_next, tokens_of}

-- "a  b": "a", then "b" at index 3.
two_words :
    (strtok 9 (97 ∷ 32 ∷ 32 ∷ 98 ∷ 0 ∷ []) (32 ∷ 0 ∷ [])
      ≡ some (some (record { text = 97 ∷ 0 ∷ 0 ∷ 98 ∷ 0 ∷ []; nxt = 2; size = 2 })))
    × (strtok_next 9 (32 ∷ 0 ∷ []) (record { text = 97 ∷ 0 ∷ 0 ∷ 98 ∷ 0 ∷ []; nxt = 2; size = 2 })
        ≡ some (some (some 3, record { text = 97 ∷ 0 ∷ 0 ∷ 98 ∷ 0 ∷ []; nxt = 4; size = 0 })))
    × (strpbrk (97 ∷ 98 ∷ 0 ∷ []) (98 ∷ 0 ∷ []) ≡ some (some 1))
unfolding strtok strtok_next strpbrk muk.Std.Tokens.advance muk.Std.Tokens.end_token
    muk.Std.Tokens.blank_run muk.Std.Tokens.end_here muk.Std.Tokens.step_on muk.Std.Tokens.step_back
    muk.Std.Tokens.above muk.Std.Cstring.strlen muk.Std.Cstring.strspn muk.Std.Cstring.accepts
    muk.Std.Vector.put
two_words = (refl, refl, refl)

-- "ls  a/b", whose words are "ls" and "a/b"
tokens_of-words_example :
    tokens_of ((108 ∷ 115 ∷ 32 ∷ 32 ∷ 97 ∷ 47 ∷ 98 ∷ []) ++ 0 ∷ 7 ∷ []) (32 ∷ 0 ∷ [])
    ≡ some (some (text_of (108 ∷ 115 ∷ []) ∷ text_of (97 ∷ 47 ∷ 98 ∷ []) ∷ []))
unfolding words
tokens_of-words_example =
    tokens_of-words (108 ∷ 115 ∷ 32 ∷ 32 ∷ 97 ∷ 47 ∷ 98 ∷ []) (7 ∷ []) [] 32 (omega arith)
      (omega arith) (omega arith)

-- A delimiter at the front stands behind an empty word, and one at the end counts for nothing.
edges : words 32 false (32 ∷ 97 ∷ 32 ∷ []) ≡ [] ∷ (97 ∷ []) ∷ []
unfolding words
edges = refl
