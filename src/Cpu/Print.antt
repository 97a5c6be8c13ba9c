-- ===== src/Cpu/Print.antt =====
-- The functions of kernel/cpu.cpp that print: the text goes through a buffer of NULs on the stack, and `none` is an
-- access outside of an array. An int is its 32-bit word.
pub mod Sent
pub mod Last
mod Tests
use muk.Prelude.{
  ℕ, zero, suc, ◌-◌, ◌^◌, List, [], ◌∷◌, Option, none, some, not, ◌==◌, if◌then◌else◌, ◌>>=◌,
  get_elem?, replicate,
}
use muk.Std.Format.{Arg, vsprintf}
use muk.Std.Text.{strncpy}

-- The bytes that go to port 0xe9. The first one goes there before it is looked at.
unfoldable pub bochs_console_print : List ℕ → Option (List ℕ)
bochs_console_print [] = none
bochs_console_print (c ∷ []) = none
bochs_console_print (c ∷ d ∷ s) =
    let rest = bochs_console_print (d ∷ s) in
    if not (d == 0) then (rest >>= λ sent. some (c ∷ sent)) else some (c ∷ [])

unfoldable pub bcprintf : List ℕ → List Arg → Option (List ℕ)
bcprintf fmt args = vsprintf (replicate 80 0) fmt args >>= λ r.
    r >>= λ (temp_buffer, written). bochs_console_print temp_buffer

-- `for (int i = ...; i > 0; i--)`: the last byte that is no NUL, but for the first, or else `value`
unfoldable pub last_byte : ℕ → ℕ → List ℕ → Option ℕ
last_byte zero value temp_buffer = some value
last_byte (suc i) value temp_buffer =
    let rest = last_byte i value temp_buffer in
    get_elem? temp_buffer (suc i) >>= λ c. if not (c == 0) then some (suc i) else rest

-- The buffer after the call, and what is returned. `n` is less than 2 ^ 31.
unfoldable pub snprintf : List ℕ → ℕ → List ℕ → List Arg → Option (List ℕ × ℕ)
snprintf buffer n fmt args = vsprintf (replicate n 0) fmt args >>= λ r.
    r >>= λ (temp_buffer, written). strncpy n 0 0 temp_buffer buffer >>= λ buffer.
    last_byte (n - 1) (2 ^ 32 - 1) temp_buffer >>= λ value. some (buffer, value)

-- The pointer that `buffer` points to, the text that is allocated, and what is returned. The assignment to
-- `buffer` changes only the parameter.
unfoldable pub asprintf : ℕ → List ℕ → List Arg → Option (ℕ × List ℕ × ℕ)
asprintf buffer fmt args = vsprintf (replicate 128 0) fmt args >>= λ r.
    r >>= λ (temp_buffer, written). last_byte 127 0 temp_buffer >>= λ s.
    strncpy s 0 0 temp_buffer (replicate s 0) >>= λ rs. some (buffer, rs, s)
