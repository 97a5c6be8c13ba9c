-- ===== src/Memory/Bytes/Tests.antt =====
-- A memory whose bytes are their addresses.
use muk.Prelude.{ℕ, ◌+◌, ◌-◌, ◌%◌, ◌^◌, ◌≡◌, refl, ◌&&◌, if◌then◌else◌, ltb, leb}
use muk.Memory.Bytes.{memcpy, memmove, memcmp}
use muk.Memory.Bytes.Copies.{memmove_lem}

abbrev counting : ℕ → ℕ
counting a = a % 2 ^ 8

-- The ranges from 101 and from 100 overlap.
memmove_lem_example :
    memmove 101 100 8 counting 105
    ≡ (if leb 101 105 && ltb 105 (101 + 8) then counting (100 + (105 - 101)) else counting 105)
memmove_lem_example = memmove_lem 101 100 8 counting 105

-- Copied upwards into itself, the range repeats its first byte.
memcpy_smears : memcpy 101 100 3 counting 103 ≡ 100
unfolding memcpy muk.Memory.Bytes.copy_up muk.Memory.Bytes.store_byte
memcpy_smears = refl
