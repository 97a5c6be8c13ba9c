-- ===== src/Std/Cstring.antt =====
-- The functions on C strings of kernel/std/stdlib.cpp. A pointer is the list of the bytes from it to
-- the end of its array, and `none` is a read past that end.
pub mod Compare
pub mod Search
mod Tests
use muk.Prelude.{
  ℕ, zero, suc, ◌+◌, List, [], ◌∷◌, ◌++◌, Option, none, some, Bool, true, false, ◌&&◌, not, ◌==◌,
  if◌then◌else◌, ltb, ◌>>=◌, ◌≢◌, ℤ, pos, negsuc, ◌⊖◌, leb,
}

unfoldable pub strlen : List ℕ → Option ℕ
strlen [] = none
strlen (c ∷ p) = let rest = strlen p in if c == 0 then some 0 else rest >>= λ len. some (len + 1)

unfoldable pub strcmp : List ℕ → List ℕ → Option ℤ
strcmp [] s2 = none
strcmp (a ∷ s1) [] = none
strcmp (a ∷ s1) (b ∷ s2) =
    let rest = strcmp s1 s2 in if not (a == 0) && a == b then rest else some (a ⊖ b)

pub strncmp : List ℕ → List ℕ → ℕ → Option ℤ
strncmp s1 s2 zero = some (pos 0)
strncmp [] s2 (suc n) = none
strncmp (a ∷ s1) [] (suc n) = none
strncmp (a ∷ s1) (b ∷ s2) (suc n) =
    let rest = strncmp s1 s2 n in
    if not (a == b)
    then some (if ltb a b then negsuc 0 else pos 1)
    else if a == 0
    then some (pos 0)
    else rest

-- The destination after `strcat`: what it holds up to its NUL stays, then the source with its NUL.
pub copy_text : List ℕ → List ℕ → Option (List ℕ)
copy_text dest [] = none
copy_text [] (c ∷ src) = none
copy_text (d ∷ dest) (c ∷ src) =
    let rest = copy_text dest src in if c == 0 then some (c ∷ dest) else rest >>= λ r. some (c ∷ r)

unfoldable pub strcat : List ℕ → List ℕ → Option (List ℕ)
strcat [] src = none
strcat (d ∷ dest) src =
    let rest = strcat dest src in
    if d == 0 then copy_text (d ∷ dest) src else rest >>= λ r. some (d ∷ r)

-- The loop `while (1)` of `strstr`
pub matches : List ℕ → List ℕ → Option Bool
matches a [] = none
matches a (y ∷ b) =
    if y == 0
    then some true
    else elim a [ [] ↦ none | x ∷ a ↦ if not (x == y) then some false else matches a b ]

-- The loop over `string`, which is `i` bytes on.
pub strstr_from : ℕ → List ℕ → ℕ → List ℕ → Option (Option ℕ)
strstr_from i [] first substring = none
strstr_from i (c ∷ string) first substring =
    let rest = strstr_from (i + 1) string first substring in
    if c == 0
    then some none
    else if not (c == first)
    then rest
    else matches (c ∷ string) substring >>= λ found. if found then some (some i) else rest

-- The result is an offset from `string`, and `some none` is the null pointer.
unfoldable pub strstr : List ℕ → List ℕ → Option (Option ℕ)
strstr string [] = none
strstr string (b ∷ substring) =
    if b == 0 then some (some 0) else strstr_from 0 string b (b ∷ substring)

-- The inner loop of `strspn`: whether it stops before the NUL of `accept`.
unfoldable pub accepts : List ℕ → ℕ → Option Bool
accepts [] c = none
accepts (a ∷ accept) c =
    let rest = accepts accept c in if a == 0 then some false else if c == a then some true else rest

unfoldable pub strspn : List ℕ → List ℕ → Option ℕ
strspn [] accept = none
strspn (c ∷ s) accept =
    let rest = strspn s accept in
    if c == 0
    then some 0
    else accepts accept c >>= λ found.
        if found then (rest >>= λ count. some (count + 1)) else some 0

unfoldable pub tolower : ℕ → ℕ
tolower upper = if leb upper 90 && leb 65 upper then upper + 32 else upper

-- The bytes of a C string before its NUL.
abbrev pub IsText : List ℕ → Type 0
IsText [] = Unit
IsText (c ∷ s) = (c ≢ 0) × IsText s
