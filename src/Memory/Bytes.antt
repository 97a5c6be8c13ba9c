-- ===== src/Memory/Bytes.antt =====
-- The functions on ranges of bytes of kernel/memory/alloc.cpp. Memory is a function from addresses to
-- bytes, and a range does not wrap round the end of the address space.
pub mod Copies
pub mod Order
mod Tests
use muk.Prelude.{ℕ, zero, suc, ◌+◌, ◌==◌, if◌then◌else◌, ltb, ℤ, pos, negsuc}
use muk.Word.{u8}

pub store_byte : (ℕ → ℕ) → ℕ → ℕ → ℕ → ℕ
store_byte memory address byte = λ other. if other == address then byte else memory other

-- `for (i = 0; i < size; i++) dst[i] = src[i]`, from `i`, with `n` rounds left
pub copy_up : ℕ → ℕ → ℕ → ℕ → (ℕ → ℕ) → ℕ → ℕ
copy_up zero i dst src memory = memory
copy_up (suc n) i dst src memory =
    copy_up n (i + 1) dst src (store_byte memory (dst + i) (memory (src + i)))

-- `for (i = size; i != 0; i--) dst[i-1] = src[i-1]`, from `i`
pub copy_down : ℕ → ℕ → ℕ → (ℕ → ℕ) → ℕ → ℕ
copy_down zero dst src memory = memory
copy_down (suc i) dst src memory =
    copy_down i dst src (store_byte memory (dst + i) (memory (src + i)))

pub memcpy : ℕ → ℕ → ℕ → (ℕ → ℕ) → ℕ → ℕ
memcpy dst src size memory = copy_up size 0 dst src memory

pub memmove : ℕ → ℕ → ℕ → (ℕ → ℕ) → ℕ → ℕ
memmove dst src size memory =
    if ltb dst src then copy_up size 0 dst src memory else copy_down size dst src memory

-- `for (i = 0; i < size; i++) buf[i] = (unsigned char) value`
pub fill : ℕ → ℕ → ℕ → ℕ → (ℕ → ℕ) → ℕ → ℕ
fill zero i buf value memory = memory
fill (suc n) i buf value memory = fill n (i + 1) buf value (store_byte memory (buf + i) (u8 value))

pub memset : ℕ → ℕ → ℕ → (ℕ → ℕ) → ℕ → ℕ
memset buf value size memory = fill size 0 buf value memory

-- The loop of `memcmp`, from `i`, with `n` rounds left
pub compare_from : ℕ → ℕ → ℕ → ℕ → (ℕ → ℕ) → ℤ
compare_from zero i a b memory = pos 0
compare_from (suc n) i a b memory =
    let rest = compare_from n (i + 1) a b memory in
    if ltb (memory (a + i)) (memory (b + i))
    then negsuc 0
    else if ltb (memory (b + i)) (memory (a + i))
    then pos 1
    else rest

pub memcmp : ℕ → ℕ → ℕ → (ℕ → ℕ) → ℤ
memcmp a b size memory = compare_from size 0 a b memory
