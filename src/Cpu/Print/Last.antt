-- ===== src/Cpu/Print/Last.antt =====
-- The values that `snprintf` and `asprintf` return.
use mathlib.Core.List.{append_assoc, append-nil}
use native.Mathlib.Decide.{ℕ_discrete}
use muk.Prelude.{
  ℕ, zero, suc, ◌+◌, ◌-◌, ◌^◌, ◌<◌, ◌≤◌, ◌≡◌, ◌≢◌, refl, ap, ◌∙◌, List, [], ◌∷◌, ◌++◌, some, true,
  false, ◌==◌, if◌then◌else◌, ltb, get_elem?, length, length-append, replicate, arith, subst,
}
use muk.Std.Cstring.{IsText}
use muk.Std.Format.{Arg}
use muk.Std.Format.Copies.{split_list}
use muk.Std.Format.Lines.{Renders}
use muk.Std.Text.{strncpy}
use muk.Std.Text.Roundtrip.{strncpy_lem, zeros-length}
use muk.Cpu.Print.{last_byte, snprintf, asprintf}
use muk.Cpu.Print.Sent.{Left, left_lem}

get_elem?_zero :
    (w : List ℕ) (m j : ℕ)
    → length w ≤ j
    → j < length w + m
    → get_elem? (w ++ replicate m 0) j ≡ some 0
get_elem?_zero [] zero j h k = absurd (omega arith)
get_elem?_zero [] (suc m) zero h k = refl
get_elem?_zero [] (suc m) (suc j) h k = get_elem?_zero [] m j (omega arith) (omega arith)
get_elem?_zero (c ∷ w) m zero h k = absurd (omega arith)
get_elem?_zero (c ∷ w) m (suc j) h k = get_elem?_zero w m j (omega arith) (omega arith)

get_elem?_real :
    (w r : List ℕ) (j : ℕ)
    → IsText w
    → j < length w
    → (c : ℕ) × (get_elem? (w ++ r) j ≡ some c) × (c ≢ 0)
get_elem?_real [] r j text h = absurd (omega arith)
get_elem?_real (c ∷ w) r zero (real, text) h = (c, refl, real)
get_elem?_real (c ∷ w) r (suc j) (real, text) h = get_elem?_real w r j text (omega arith)

-- Where the text ends, less one, if this is not at the first byte
abbrev pub value_of : ℕ → List ℕ → ℕ
value_of value w = if ltb 1 (length w) then length w - 1 else value

value_of-within : (w : List ℕ) → value_of 0 w ≤ length w
value_of-within w = ground arith

last_byte_lem :
    (i value : ℕ) (w : List ℕ) (m : ℕ)
    → IsText w
    → length w ≤ suc i
    → suc i ≤ length w + m
    → last_byte i value (w ++ replicate m 0) ≡ some (value_of value w)
unfolding last_byte
last_byte_lem zero value w m text h k =
    let small : ltb 1 (length w) ≡ false = ground arith in cc small
last_byte_lem (suc i) value w m text h k = elim (ℕ_discrete (length w) (suc (suc i))) [
  | yes e ↦
      let (c, here, real) = get_elem?_real w (replicate m 0) (suc i) text (omega arith) in
      let go : (c == 0) ≡ false = ground arith in
      let large : ltb 1 (length w) ≡ true = ground arith in
      let size : length w - 1 ≡ suc i = omega arith in cc (here, go, large, size)
  | no ne ↦
      let nul = get_elem?_zero w m (suc i) (omega arith) (omega arith) in
      cc (nul, last_byte_lem i value w m text (omega arith) (omega arith))
]

copy_all :
    (n : ℕ) (temp buffer : List ℕ)
    → length temp ≡ n
    → length buffer ≡ n
    → strncpy n 0 0 temp buffer ≡ some temp
copy_all n temp buffer e k =
    let copied = strncpy_lem temp [] [] [] buffer [] 0 0 refl refl (omega arith) in
    cc (e, copied, append-nil temp, append-nil buffer)

-- `snprintf` into a buffer of `n` bytes, less than 2 ^ 31, of a format of plain runs and of the conversions %c, %d and %s, whose text
-- has no NUL and at most `n - 2` bytes, leaves this text and NULs in the buffer, or this text, a percent sign
-- and NULs. It returns one less than the number of bytes before the NULs, and -1 where there is one or none.
pub snprintf_lem :
    (n : ℕ) (format : List ℕ) (args : List Arg) (t buffer : List ℕ)
    → Renders format args t
    → IsText t
    → length t + 1 < n
    → n < 2 ^ 31
    → length buffer ≡ n
    → (w : List ℕ) × (m : ℕ) × (snprintf buffer n format args
        ≡ some (w ++ replicate m 0, value_of (2 ^ 32 - 1) w))
      × Left t w
      × (length w + m ≡ n)
unfolding snprintf
snprintf_lem n format args t buffer shows text fits small size =
    let (w, m, run, text', left, total) = left_lem n format args t shows text fits small in
    let temp = w ++ replicate (suc m) 0 in
    let all : length temp ≡ n =
      omega (arith, length-append w (replicate (suc m) 0), zeros-length (suc m)) in
    let copied = copy_all n temp buffer all size in
    let value = last_byte_lem (n - 1) (2 ^ 32 - 1) w (suc m) text' (omega arith) (omega arith) in
    (w, suc m, cc (run, copied, value), left, total)

-- `asprintf` of a format of plain runs and of the conversions %c, %d and %s, whose text has no NUL and at most 126
-- bytes, leaves the caller's pointer as it was. Of this text, or of this text and a percent sign, it
-- allocates all but the last byte, or nothing where there is only one byte, and returns their number.
pub asprintf_lem :
    (buffer : ℕ) (format : List ℕ) (args : List Arg) (t : List ℕ)
    → Renders format args t
    → IsText t
    → length t + 1 < 128
    → (rs rest : List ℕ) × (asprintf buffer format args
        ≡ some (buffer, rs, value_of 0 (rs ++ rest)))
      × Left t (rs ++ rest)
      × (length rs ≡ value_of 0 (rs ++ rest))
unfolding asprintf
asprintf_lem buffer format args t shows text fits =
    let (w, m, run, text', left, total) =
      left_lem 128 format args t shows text fits (omega arith) in
    let value = last_byte_lem 127 0 w (suc m) text' (omega arith) (omega arith) in
    let (rs, rest, split, size) = split_list (value_of 0 w) w (value_of-within w) in
    let copied =
      strncpy_lem rs [] (rest ++ replicate (suc m) 0) [] (replicate (length rs) 0) [] 0 0 refl refl
        (zeros-length (length rs)) in
    (
      rs,
      rest,
      cc (
        run,
        value,
        split,
        size,
        copied,
        append_assoc rs rest (replicate (suc m) 0),
        append-nil (replicate {A = ℕ} (length rs) 0),
        append-nil rs,
      ),
      subst (Left t) split left,
      size ∙ ap (value_of 0) split,
    )
