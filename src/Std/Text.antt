-- ===== src/Std/Text.antt =====
-- `std::string` of include/std/string.hpp: a length and a buffer without a final NUL. `new char[n]` is
-- `n` bytes of 0, `none` is an access outside of a buffer, and `npos` is the largest size_t.
pub mod Equal
pub mod Last
pub mod Parts
pub mod Roundtrip
pub mod Searches
mod Tests
use muk.Prelude.{
  ℕ, zero, suc, ◌+◌, ◌-◌, ◌^◌, List, [], ◌∷◌, Option, none, some, Bool, ◌||◌, not, ◌==◌, min,
  if◌then◌else◌, ltb, ◌>>=◌, get_elem?, replicate, ℤ, pos, negsuc,
}
use muk.Std.Cstring.{strlen, strcmp}
use muk.Std.Vector.{put}
use muk.Word.{u8, u32, sub32}

pub record Text : Type 0 where
  pub size : ℕ
  pub buff : List ℕ

abbrev pub npos : ℕ
npos = 2 ^ 32 - 1

-- `strncpy(dest + at, src, n)`, from index `i`, with `n` rounds left
unfoldable pub strncpy : ℕ → ℕ → ℕ → List ℕ → List ℕ → Option (List ℕ)
strncpy zero i at src dest = some dest
strncpy (suc n) i at src dest =
    get_elem? src i >>= λ c. put dest (at + i) c >>= strncpy n (i + 1) at src

pub empty_text : Text
empty_text = record { size = 0; buff = [] }

unfoldable pub of_chars : List ℕ → Option Text
of_chars init_val = strlen init_val >>= λ size.
    strncpy size 0 0 init_val (replicate size 0) >>= λ buff.
    some (record { size = size; buff = buff })

pub of_char : ℕ → Text
of_char init_val = record { size = 1; buff = init_val ∷ [] }

-- The copy constructor, and `operator=` on two strings
pub copy_of : Text → Option Text
copy_of other = strncpy other.size 0 0 other.buff (replicate other.size 0) >>= λ buff.
    some (record { size = other.size; buff = buff })

-- `<` on char, which is signed
unfoldable pub char_lt : ℕ → ℕ → Bool
char_lt a b = ltb (u8 (a + 128)) (u8 (b + 128))

-- The loop of `compare`, from `p`, with `n` rounds left
unfoldable pub compare_loop : ℕ → ℕ → List ℕ → ℕ → List ℕ → Option ℤ
compare_loop zero p buff pos1 str = some (pos 0)
compare_loop (suc n) p buff pos1 str =
    let rest = compare_loop n (p + 1) buff pos1 str in
    get_elem? buff (u32 (p + pos1)) >>= λ a. get_elem? str p >>= λ b.
    if char_lt b a then some (pos 1) else if char_lt a b then some (negsuc 0) else rest

-- `count1`, clipped to the string
unfoldable pub clip : ℕ → ℕ → ℕ → ℕ
clip size pos1 count1 =
    if ltb size (u32 (pos1 + count1)) || count1 == npos then sub32 size pos1 else count1

unfoldable pub compare : Text → ℕ → ℕ → Text → Option ℤ
compare s pos1 count1 str =
    compare_loop (min (clip s.size pos1 count1) str.size) 0 s.buff pos1 str.buff

unfoldable pub is_zero : ℤ → Bool
is_zero (pos n) = n == 0
is_zero (negsuc n) = Bool.false

-- `for(i = ...; i > 0; i--)`
unfoldable pub find_back : Text → Text → ℕ → Option ℕ
find_back s str zero = some npos
find_back s str (suc i) =
    let rest = find_back s str i in
    compare s (suc i) str.size str >>= λ r. if is_zero r then some (suc i) else rest

unfoldable pub find_last_of : Text → Text → ℕ → Option ℕ
find_last_of s str start = find_back s str (sub32 (if start == npos then s.size else start) 1)

-- `for(i = ...; i < size; ++i)`, with `n` rounds left
pub find_forward : Text → Text → ℕ → ℕ → Option ℕ
find_forward s str zero i = some npos
find_forward s str (suc n) i =
    let rest = find_forward s str n (i + 1) in
    compare s i npos str >>= λ r. if is_zero r then some i else rest

pub find : Text → Text → ℕ → Option ℕ
find s str start = find_forward s str (s.size - start) start

-- The loop of `substr`, from `p`, with `n` rounds left
unfoldable pub copy_part : ℕ → ℕ → ℕ → List ℕ → List ℕ → Option (List ℕ)
copy_part zero p start buff dest = some dest
copy_part (suc n) p start buff dest =
    get_elem? buff (u32 (start + p)) >>= λ c. put dest p c >>= copy_part n (p + 1) start buff

unfoldable pub substr : Text → ℕ → ℕ → Option Text
substr s start count =
    let count = clip s.size start count in
    copy_part count 0 start s.buff (replicate (u32 (count + 1)) 0) >>= λ dest.
    put dest count 0 >>= of_chars

-- `operator+=` on a string
pub append : Text → Text → Option Text
append s s2 = strncpy s.size 0 0 s.buff (replicate (u32 (s.size + s2.size)) 0) >>= λ fresh.
    strncpy s2.size 0 s.size s2.buff fresh >>= λ fresh.
    some (record { size = u32 (s.size + s2.size); buff = fresh })

-- `operator+=` on a char
pub append_char : Text → ℕ → Option Text
append_char s c = strncpy s.size 0 0 s.buff (replicate (u32 (s.size + 1)) 0) >>= λ fresh.
    put fresh s.size c >>= λ fresh. some (record { size = u32 (s.size + 1); buff = fresh })

-- `operator char*`
unfoldable pub to_chars : Text → Option (List ℕ)
to_chars s = strncpy s.size 0 0 s.buff (replicate (u32 (s.size + 1)) 0) >>= λ null_buffer.
    put null_buffer s.size 0

-- `operator==`, on the buffers
pub equals : Text → List ℕ → Option Bool
equals s rhs = strcmp s.buff rhs >>= λ r. some (is_zero r)
