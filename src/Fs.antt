-- ===== src/Fs.antt =====
-- The file system: include/kernel/converter.hpp, include/kernel/fs.hpp, include/kernel/fs/fat16.hpp and
-- kernel/fs/fat16.cpp. The device is a parameter, the function that gives the 512 bytes of a sector.
pub mod Table
pub mod Directory
pub mod Path
pub mod Listing
use muk.Prelude.{
  ℕ, zero, suc, ◌+◌, ◌-◌, ◌*◌, ◌/◌, ◌^◌, List, [], ◌∷◌, ◌++◌, Option, none, some, Bool, true, false,
  not, ◌&&◌, ◌==◌, if◌then◌else◌, ltb, ◌>>=◌, get_elem?, bit_or, map,
}
use muk.Word.{u16, u32, sub32, shl32}

-- A short and an int are their words.
unfoldable pub to_16bit : List ℕ → ℕ → Option ℕ
to_16bit bytes start = get_elem? bytes start >>= λ a.
    get_elem? bytes (start + 1) >>= λ b. some (u16 (bit_or a (shl32 b 8)))

unfoldable pub to_32bit : List ℕ → ℕ → Option ℕ
to_32bit bytes start = get_elem? bytes start >>= λ a. get_elem? bytes (start + 1) >>= λ b.
    get_elem? bytes (start + 2) >>= λ c. get_elem? bytes (start + 3) >>= λ d.
    some (bit_or (bit_or (bit_or a (shl32 b 8)) (shl32 c 16)) (shl32 d 24))

pub record FatHeader : Type 0 where
  pub sector_size : ℕ
  pub sec_per_cluster : ℕ
  pub num_reserved_sectors : ℕ
  pub num_fats : ℕ
  pub num_sectors_per_fat : ℕ
  pub num_directories : ℕ
  pub num_sectors : ℕ

pub record Fat16 : Type 0 where
  pub header_bytes : List ℕ
  pub header_info : FatHeader
  pub table_offset : ℕ
  pub table : List ℕ
  pub volume_serial : ℕ

pub header : List ℕ
header = 235 ∷ 60 ∷ 144 ∷ []

-- The loop that compares the first bytes with `header`
pub starts_with : List ℕ → List ℕ → Bool
starts_with [] bytes = true
starts_with (h ∷ hs) [] = false
starts_with (h ∷ hs) (b ∷ bytes) = b == h && starts_with hs bytes

-- A short that becomes a 32-bit word keeps its sign.
unfoldable pub widen : ℕ → ℕ
widen s = if ltb s (2 ^ 15) then s else s + (2 ^ 32 - 2 ^ 16)

pub read_header : List ℕ → Option FatHeader
read_header bytes = to_16bit bytes 11 >>= λ sector_size. get_elem? bytes 13 >>= λ sec_per_cluster.
    to_16bit bytes 14 >>= λ num_reserved_sectors. get_elem? bytes 13 >>= λ num_fats.
    to_16bit bytes 17 >>= λ num_directories. to_16bit bytes 19 >>= λ num_sectors.
    to_16bit bytes 21 >>= λ num_sectors_per_fat. some (record {
      sector_size = sector_size;
      sec_per_cluster = sec_per_cluster;
      num_reserved_sectors = widen num_reserved_sectors;
      num_fats = num_fats;
      num_sectors_per_fat = num_sectors_per_fat;
      num_directories = num_directories;
      num_sectors = widen num_sectors;
    })

module _ (read_u8 : ℕ → List ℕ) where
  pub open_fat16 : Fat16 → Option (Fat16 × Bool)
  open_fat16 fs =
      let bytes = read_u8 0 in
      let fs = record fs { header_bytes = bytes } in
      if not (starts_with header bytes)
      then some (fs, false)
      else read_header bytes >>= λ info. to_32bit bytes 39 >>= λ serial.
          some (record fs { header_info = info; volume_serial = serial }, true)

  unfoldable pub get_fat : Fat16 → Fat16
  get_fat fs = record fs {
    table_offset = fs.header_info.num_reserved_sectors;
    table = read_u8 fs.header_info.num_reserved_sectors;
  }

-- The chain from `current` on, with fuel for `n` rounds: a round reads one entry of the table. The outer
-- `none` is that the fuel has run out, the inner one is a read outside of the table.
unfoldable pub walk : ℕ → List ℕ → ℕ → Option (Option (List ℕ))
walk zero table current = if ltb current 248 then none else some (some [])
walk (suc n) table current =
    if ltb current 248
    then elim (get_elem? table (current * 2)) [
      | none ↦ some none
      | some next ↦ walk n table next >>= λ rest. some (rest >>= λ chain. some (current ∷ chain))
    ]
    else some (some [])

-- `(chain[i] - 2) * secPerCluster + dataStart`, on the words of ints
unfoldable pub sector_of : FatHeader → ℕ → ℕ
sector_of info cluster =
    let data_start = u16 (512 + info.num_directories * 32 / info.sector_size) in
    u32 (sub32 cluster 2 * info.sec_per_cluster + data_start)

-- A sector size of 0 is a division by 0.
unfoldable pub walk_sectors : (ℕ → List ℕ) → ℕ → Fat16 → ℕ → Option (Fat16 × Option (List ℕ))
walk_sectors read_u8 fuel fs start_sector =
    let fs = get_fat read_u8 fs in
    walk fuel fs.table start_sector >>= λ chain. some (
      fs,
      if fs.header_info.sector_size == 0
          then none
          else (chain >>= λ c. some (map (sector_of fs.header_info) c)),
    )
