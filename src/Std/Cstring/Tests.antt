-- ===== src/Std/Cstring/Tests.antt =====
-- Concrete texts.
use muk.Prelude.{ℕ, ◌≡◌, refl, List, [], ◌∷◌, ◌++◌, some, arith, length}
use muk.Std.Cstring.{strlen, strcmp, strncmp, strstr, strspn, strcat, IsText}
use muk.Std.Cstring.Compare.{strlen-text}

abbrev ls_text : List ℕ
ls_text = 108 ∷ 115 ∷ []

abbrev lsx_text : List ℕ
lsx_text = 108 ∷ 120 ∷ []

ls_text-IsText : IsText ls_text
ls_text-IsText = (omega arith, (omega arith, tt))

lsx_text-IsText : IsText lsx_text
lsx_text-IsText = (omega arith, (omega arith, tt))

strlen-text_example : strlen (ls_text ++ 0 ∷ 7 ∷ []) ≡ some (length ls_text)
strlen-text_example = strlen-text ls_text (7 ∷ []) ls_text-IsText

finds_at_one : strstr (7 ∷ 108 ∷ 115 ∷ 0 ∷ []) (108 ∷ 115 ∷ 0 ∷ []) ≡ some (some 1)
unfolding strstr muk.Std.Cstring.strstr_from muk.Std.Cstring.matches
finds_at_one = refl

spans_two : strspn (1 ∷ 2 ∷ 3 ∷ 0 ∷ []) (2 ∷ 1 ∷ 0 ∷ []) ≡ some 2
unfolding strspn muk.Std.Cstring.accepts
spans_two = refl

appends_in_place : strcat (5 ∷ 0 ∷ 9 ∷ 9 ∷ 9 ∷ []) (6 ∷ 7 ∷ 0 ∷ []) ≡ some (5 ∷ 6 ∷ 7 ∷ 0 ∷ 9 ∷ [])
unfolding strcat muk.Std.Cstring.copy_text
appends_in_place = refl
