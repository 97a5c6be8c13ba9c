-- ===== src/Std/Text/Tests.antt =====
-- Strings of a few bytes.
use muk.Prelude.{ℕ, ◌-◌, ◌^◌, ◌≡◌, refl, List, [], ◌∷◌, none, some, arith}
use muk.Std.Cstring.{IsText}
use muk.Std.Text.{find, find_last_of, substr, of_chars, to_chars, equals}
use muk.Std.Text.Roundtrip.{text_of}

-- "/a/b"
abbrev small_path : List ℕ
small_path = 47 ∷ 97 ∷ 47 ∷ 98 ∷ []

abbrev slash : List ℕ
slash = 47 ∷ []

small_path-IsText : IsText small_path
small_path-IsText =
    (λ e. omega arith, (λ e. omega arith, (λ e. omega arith, (λ e. omega arith, tt))))

-- "b" is found, and so is "bc", which goes on behind the end of the string.
finds_too_much : find (text_of small_path) (text_of (98 ∷ 99 ∷ [])) 0 ≡ some 3
unfolding find muk.Std.Text.find_forward muk.Std.Text.compare muk.Std.Text.compare_loop
    muk.Std.Text.clip muk.Std.Text.char_lt muk.Std.Text.is_zero
finds_too_much = refl

-- The last slash, but never the first byte; and a comparison of a buffer that has no NUL.
searches :
    (find_last_of (text_of small_path) (text_of slash) (2 ^ 32 - 1) ≡ some 2)
    × (find_last_of (text_of (47 ∷ 97 ∷ [])) (text_of slash) (2 ^ 32 - 1) ≡ some (2 ^ 32 - 1))
    × (equals (text_of slash) (47 ∷ 0 ∷ []) ≡ none)
    × (substr (text_of small_path) 1 2 ≡ some (text_of (97 ∷ 47 ∷ [])))
unfolding find_last_of equals substr muk.Std.Text.find_back muk.Std.Text.compare
    muk.Std.Text.compare_loop muk.Std.Text.clip muk.Std.Text.char_lt muk.Std.Text.is_zero
    muk.Std.Text.copy_part muk.Std.Text.of_chars muk.Std.Text.strncpy muk.Std.Vector.put
    muk.Std.Cstring.strcmp muk.Std.Cstring.strlen
searches = (refl, refl, refl, refl)
