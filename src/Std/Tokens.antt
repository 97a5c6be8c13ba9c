-- ===== src/Std/Tokens.antt =====
-- `strtok` and `strpbrk` of kernel/std/stdlib.cpp. A call of `strtok` leaves the array and where it
-- stopped to the next one; the array is a list of bytes, and a pointer into it is an index.
pub mod Between
pub mod Copied
pub mod Ends
pub mod Gaps
pub mod Rounds
pub mod Shape
pub mod Split
pub mod Over
pub mod Touched
pub mod Words
mod Tests
use muk.Prelude.{
  ℕ, zero, suc, ◌+◌, ◌^◌, List, [], ◌∷◌, Option, none, some, Bool, ◌&&◌, not, ◌==◌, if◌then◌else◌,
  ltb, ◌>>=◌, get_elem?, drop, length, take, ◌++◌,
}
use muk.Std.Cstring.{strlen, strspn, accepts}
use muk.Std.Text.{Text, of_chars}
use muk.Std.Vector.{put}
use muk.Word.{add32, sub32}

pub strpbrk : List ℕ → List ℕ → Option (Option ℕ)
strpbrk [] accept = none
strpbrk (c ∷ s) accept =
    let rest = strpbrk s accept in
    if c == 0
    then some none
    else accepts accept c >>= λ found.
        if found
        then some (some 0)
        else rest >>= λ r. some (elim r [ none ↦ none | some i ↦ some (i + 1) ])

-- The static variables `nxt` and `size`, and the array; `size` is the word of an int.
pub record Tokens : Type 0 where
  pub text : List ℕ
  pub nxt : ℕ
  pub size : ℕ

-- `*nxt = '\0'`
unfoldable pub end_here : Tokens → Option Tokens
end_here t = put t.text t.nxt 0 >>= λ text. some (record t { text = text })

unfoldable pub step_on : Tokens → Tokens
step_on t = record t { nxt = add32 t.nxt 1; size = sub32 t.size 1 }

unfoldable pub step_back : Tokens → Tokens
step_back t = record t { nxt = sub32 t.nxt 1; size = add32 t.size 1 }

-- `x > k` on an int
unfoldable pub above : ℕ → ℕ → Bool
above k x = ltb k x && ltb x (2 ^ 31)

-- `while(i > 1)`, with `n` rounds left
unfoldable pub blank_run : ℕ → Tokens → Option Tokens
blank_run zero t = some t
blank_run (suc n) t = end_here t >>= λ t. blank_run n (step_on t)

-- The rest of a round, after `i` delimiters were counted
unfoldable pub end_token : ℕ → Tokens → Option Tokens
end_token zero t = some (step_on t)
end_token (suc i) t = blank_run i t >>= λ t.
    end_here t >>= λ t. some (step_on (if above 1 t.size then step_back t else t))

-- `while(*nxt)`, with fuel for `n` rounds. The outer `none` is that the fuel has run out, the inner one
-- an access outside of an array.
unfoldable pub advance : ℕ → List ℕ → Tokens → Option (Option Tokens)
advance zero delim t = none
advance (suc n) delim t = elim (get_elem? t.text t.nxt) [
  | none ↦ some none
  | some c ↦ elim (strspn (drop t.nxt t.text) delim >>= λ i. end_token i t) [
    | none ↦ if c == 0 then some (some t) else some none
    | some later ↦ let rest = advance n delim later in if c == 0 then some (some t) else rest
  ]
]

-- `strtok(str, delim)`: the token starts at index 0.
unfoldable pub strtok : ℕ → List ℕ → List ℕ → Option (Option Tokens)
strtok fuel str delim = elim (strlen str) [
  | none ↦ some none
  | some size ↦ advance fuel delim (record { text = str; nxt = 0; size = size })
]

-- `strtok(NULL, delim)`: the index where the token starts, if there is one, and what is left.
unfoldable pub strtok_next : ℕ → List ℕ → Tokens → Option (Option (Option ℕ × Tokens))
strtok_next fuel delim t =
    let found = above 0 t.size in
    let t = if found then step_on t else t in
    advance fuel delim t >>= λ later.
    some (later >>= λ s. some (if found then some t.nxt else none, s))

-- The loop that keeps the tokens as strings: `at` is where a token starts, with fuel for `n` tokens.
unfoldable pub collect : ℕ → ℕ → List ℕ → ℕ → Tokens → Option (Option (List Text))
collect zero fuel delim at t = none
collect (suc n) fuel delim at t = elim (of_chars (drop at t.text)) [
  | none ↦ some none
  | some word ↦ strtok_next fuel delim t >>= λ r. elim r [
    | none ↦ some none
    | some (next, later) ↦ elim next [
      | none ↦ some (some (word ∷ []))
      | some i ↦
          collect n fuel delim i later >>= λ rest. some (rest >>= λ words. some (word ∷ words))
    ]
  ]
]

-- All tokens of `str`. There are at most as many as bytes, and a round of `strtok` uses up a byte.
unfoldable pub tokens_of : List ℕ → List ℕ → Option (Option (List Text))
tokens_of str delim = strtok (length str + 2) str delim >>= λ r. elim r [
  | none ↦ some none
  | some t ↦ collect (length str + 2) (length str + 2) delim 0 t
]

-- The rounds behind the first one, whose token is `word`
unfoldable pub tokens_behind : ℕ → Text → List ℕ → Tokens → Option (Option (List Text))
tokens_behind fuel word delim t = strtok_next fuel delim t >>= λ r. elim r [
  | none ↦ some none
  | some (next, left) ↦ elim next [
    | none ↦ some (some (word ∷ []))
    | some i ↦
        collect fuel fuel delim i left >>= λ rest. some (rest >>= λ words. some (word ∷ words))
  ]
]

-- The same loop on a string whose buffer `buff` has no NUL: `behind` stands behind it in the heap, and `later word`
-- once the first word has been copied, when the header of the block that is allocated for it stands there.
-- Blocks that are allocated after it lie further on.
unfoldable pub tokens_in : List ℕ → List ℕ → (Text → List ℕ) → List ℕ → Option (Option (List Text))
tokens_in buff behind later delim =
    strtok (length (buff ++ behind) + 2) (buff ++ behind) delim >>= λ r. elim r [
      | none ↦ some none
      | some t ↦ elim (of_chars t.text) [
        | none ↦ some none
        | some word ↦
            let text = take (length buff) t.text ++ later word in
            tokens_behind (length text + 2) word delim (record t { text = text })
      ]
    ]
