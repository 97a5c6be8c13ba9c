-- ===== src/Fs/Directory.antt =====
-- `FAT16::readDirectory` on a sector, of kernel/fs/fat16.cpp. `none` is an access outside of a buffer.
pub mod Names
pub mod Lengths
pub mod Bounds
pub mod Dotted
pub mod Sample
mod Tests
use muk.Prelude.{
  ℕ, zero, suc, ◌+◌, List, [], ◌∷◌, ◌++◌, Option, none, some, Bool, true, false, ◌&&◌, ◌||◌, not,
  ◌==◌, if◌then◌else◌, ltb, ◌>>=◌, get_elem?, replicate, ◌⊖◌,
}
use muk.Fs.{to_16bit, to_32bit}
use muk.Std.Cstring.{tolower}
use muk.Std.Bitset.{new_bitset, test}
use muk.Std.Vector.{put}

pub record DirectoryEntry : Type 0 where
  pub name : List ℕ
  pub attributes : ℕ
  pub location : ℕ
  pub fsize : ℕ

-- `FATAttributes`
abbrev pub no_entry : ℕ
no_entry = 0

abbrev pub short_name_file : ℕ
short_name_file = 32

abbrev pub short_name : ℕ
short_name = 16

abbrev pub long_name : ℕ
long_name = 15

unfoldable pub new_entry : ℕ → DirectoryEntry
new_entry attributes = record {
  name = replicate 32 0;
  attributes = attributes;
  location = 0;
  fsize = 0;
}

pub put_separator : List ℕ → ℕ → Bool → Option (List ℕ × ℕ)
put_separator name length false = some (name, length)
put_separator name length true = put name length 46 >>= λ name. some (name, length + 1)

-- The separator, if one is due, and the character
pub put_kept : List ℕ → ℕ → Bool → ℕ → Option (List ℕ × ℕ × Bool)
put_kept name length separator c = put_separator name length separator >>= λ (name, length).
    put name length (tolower c) >>= λ name. some (name, length + 1, false)

-- The loop over the 11 bytes of a short name and the next one, from `offset`, with `n` rounds left: the
-- name, which ends with a NUL.
pub short_loop : ℕ → ℕ → List ℕ → ℕ → Bool → List ℕ → Option (List ℕ)
short_loop zero at dir_bytes length separator name = put name length 0
short_loop (suc n) at dir_bytes length separator name = get_elem? dir_bytes at >>= λ c.
    (if not (c == 32) && not (c == 16)
      then put_kept name length separator c
      else some (name, length, true))
    >>= λ (name, length, separator). short_loop n (at + 1) dir_bytes length separator name

-- The loop over the 33 bytes of a long name from `index` on, from byte `j`, with `n` rounds left
pub long_loop : ℕ → ℕ → ℕ → List ℕ → List ℕ → ℕ → List ℕ → Option (List ℕ)
long_loop zero j index bit_mask dir_bytes length name = put name length 0
long_loop (suc n) j index bit_mask dir_bytes length name = test bit_mask (31 ⊖ j) >>= λ chosen.
    (if chosen
      then (get_elem? dir_bytes (index + j) >>= λ c.
          if not (c == 255) && not (c == 0)
          then (put name length c >>= λ name. some (name, length + 1))
          else some (name, length))
      else some (name, length))
    >>= λ (name, length). long_loop n (j + 1) index bit_mask dir_bytes length name

unfoldable pub with_place : List ℕ → ℕ → DirectoryEntry → Option DirectoryEntry
with_place dir_bytes index e = to_16bit dir_bytes (index + 26) >>= λ location.
    to_32bit dir_bytes (index + 28) >>= λ fsize.
    some (record e { location = location; fsize = fsize })

pub read_short : List ℕ → ℕ → DirectoryEntry → Option DirectoryEntry
read_short dir_bytes index e = with_place dir_bytes index e >>= λ e.
    short_loop 12 index dir_bytes 0 false e.name >>= λ name. some (record e { name = name })

-- The long name at `index`, and the rest of the entry 32 bytes on
pub read_long : List ℕ → ℕ → DirectoryEntry → Option DirectoryEntry
read_long dir_bytes index e = new_bitset 32 1430432394 >>= λ bit_mask.
    long_loop 33 0 index bit_mask dir_bytes 0 e.name >>= λ name.
    get_elem? dir_bytes (index + 32 + 11) >>= λ attributes.
    with_place dir_bytes (index + 32) (record e { name = name; attributes = attributes })

-- The entry at `index`, if there is one, and the next index
pub read_entry : List ℕ → ℕ → Option (Option DirectoryEntry × ℕ)
read_entry dir_bytes index = get_elem? dir_bytes (index + 11) >>= λ attributes.
    if attributes == short_name || attributes == short_name_file
    then (read_short dir_bytes index (new_entry attributes) >>= λ e. some (some e, index + 32))
    else if attributes == long_name
    then (read_long dir_bytes index (new_entry attributes) >>= λ e. some (some e, index + 64))
    else if attributes == no_entry
    then some (none, index + 32)
    else some (some (new_entry attributes), index + 32)

pub push_entry : List DirectoryEntry → Option DirectoryEntry → List DirectoryEntry
push_entry dir none = dir
push_entry dir (some e) = dir ++ e ∷ []

-- `while(index < 512)`, with fuel for `n` rounds
pub read_loop : ℕ → List ℕ → ℕ → List DirectoryEntry → Option (List DirectoryEntry)
read_loop zero dir_bytes index dir = if ltb index 512 then none else some dir
read_loop (suc n) dir_bytes index dir =
    if ltb index 512
    then (read_entry dir_bytes index >>= λ (e, next). read_loop n dir_bytes next (push_entry dir e))
    else some dir

pub read_directory : (ℕ → List ℕ) → ℕ → Option (List DirectoryEntry)
read_directory read_u8 sector_index = read_loop 16 (read_u8 sector_index) 0 []
