-- ===== src/Fs/Path.antt =====
-- The operations of `FAT16` on a path, of kernel/fs/fat16.cpp, and `splitPath` of kernel/fs.cpp. The outer `none` is that
-- the chain of a folder does not end, the inner one an access outside of a buffer. A string has no final NUL, so
-- `strtok` on `data()` reads on in the heap: those bytes are the parameter `behind`, and `later word` once the first
-- word of a path has been copied to the heap.
pub mod Folders
pub mod Files
mod Tests
use muk.Prelude.{
  ℕ, ◌+◌, ◌-◌, ◌^◌, List, [], ◌∷◌, ◌++◌, Option, none, some, Bool, true, false, not, ◌==◌,
  if◌then◌else◌, ltb, ◌>>=◌, get_elem?, take, ◌/◌,
}
use muk.Fs.{Fat16, walk_sectors, widen}
use muk.Fs.Directory.{DirectoryEntry, read_directory}
use muk.Std.Cstring.{strlen, strcmp}
use muk.Std.Text.{Text, of_chars, to_chars, substr, find, find_last_of, is_zero, npos}
use muk.Std.Tokens.{tokens_in}
use muk.Word.{add32, sub32}

abbrev pub slash : List ℕ
slash = 47 ∷ 0 ∷ []

abbrev pub root_sector : ℕ
root_sector = 512

-- `find_if` with the test of the names; `some none` is the end of the directory.
unfoldable pub find_folder : List DirectoryEntry → List ℕ → Option (Option DirectoryEntry)
find_folder [] folder = some none
find_folder (e ∷ dir) folder =
    let rest = find_folder dir folder in
    strcmp e.name folder >>= λ order. if is_zero order then some (some e) else rest

-- The path without its first slash. `str[0]` of an empty string lies behind its buffer.
unfoldable pub relative : List ℕ → List ℕ → Option Text
relative behind path = of_chars path >>= λ str. get_elem? (str.buff ++ behind) 0 >>= λ c.
    if c == 47 then substr str 1 (sub32 str.size 1) else some str

module _ (read_u8 : ℕ → List ℕ) where
  -- The loop over the folders: the sector that is reached, or `none` for a folder that is not found
  unfoldable pub descend : List Text → ℕ → Fat16 → Option (Option (Fat16 × Option ℕ))
  descend [] sector fs = some (some (fs, some sector))
  descend (folder ∷ folders) sector fs =
      elim (to_chars folder >>= λ name.
      read_directory read_u8 sector >>= λ dir. find_folder dir name) [
        | none ↦ some none
        | some found ↦ elim found [
          | none ↦ some (some (fs, none))
          | some e ↦ elim (walk_sectors read_u8 248 fs e.location) [
            | none ↦ none
            | some (later, sectors) ↦ elim (sectors >>= λ s. get_elem? s 0) [
              | none ↦ some none
              | some next ↦ descend folders next later
            ]
          ]
        ]
      ]

  -- The entries of the directory that is reached, none if there is none
  unfoldable pub list_at : Fat16 × Option ℕ → Option (Fat16 × List DirectoryEntry)
  list_at (fs, none) = some (fs, [])
  list_at (fs, some sector) = read_directory read_u8 sector >>= λ dir. some (fs, dir)

  -- The folders of a path of `len` bytes; one of two bytes or less is the root.
  unfoldable pub follow : ℕ → List Text → Fat16 → Option (Option (Fat16 × List DirectoryEntry))
  follow len folders fs =
      (if ltb 2 len then descend folders root_sector fs else some (some (fs, some root_sector)))
      >>= λ r. some (r >>= list_at)

  -- `FAT16::readDirectory` on a path
  unfoldable pub read_directory_path :
      List ℕ → (Text → List ℕ) → List ℕ → Fat16 → Option (Option (Fat16 × List DirectoryEntry))
  read_directory_path behind later path fs = elim (relative behind path) [
    | none ↦ some none
    | some str ↦ tokens_in str.buff behind later slash >>= λ tokens. elim tokens [
      | none ↦ some none
      | some folders ↦ elim (strlen path) [ none ↦ some none | some len ↦ follow len folders fs ]
    ]
  ]

-- A FileEntry. A size_t of a short keeps its sign.
pub record FileEntry : Type 0 where
  pub name : List ℕ
  pub location : ℕ
  pub size : ℕ

-- `nfile`
abbrev pub no_file : FileEntry
no_file = record { name = []; location = npos; size = npos }

-- The loop over the directory. `==` compares the buffer of a string, which has no NUL of its own.
unfoldable pub find_file : List ℕ → List DirectoryEntry → List ℕ → Option FileEntry
find_file behind [] file = some no_file
find_file behind (e ∷ dir) file =
    let rest = find_file behind dir file in
    of_chars e.name >>= λ name. strcmp (name.buff ++ behind) file >>= λ order.
    if is_zero order
    then (strlen e.name >>= λ len.
        some (record { name = take len e.name; location = widen e.location; size = e.fsize }))
    else rest

-- The folder and the file of a path
unfoldable pub split_path : List ℕ → Option (List ℕ × List ℕ)
split_path path = of_chars path >>= λ p. of_chars slash >>= λ str.
    find_last_of p str npos >>= λ last.
    let at = add32 last 1 in
    substr p 0 at >>= λ folder. substr p at npos >>= λ file.
    to_chars folder >>= λ folder. to_chars file >>= λ file. some (folder, file)

-- `FAT16::readFile`
unfoldable pub read_file :
    (ℕ → List ℕ) → List ℕ → (Text → List ℕ) → List ℕ → Fat16 → Option (Option (Fat16 × FileEntry))
read_file read_u8 behind later path fs = elim (split_path path) [
  | none ↦ some none
  | some (folder, file) ↦ read_directory_path read_u8 behind later folder fs >>= λ r.
      some (r >>= λ (fs, dir). find_file behind dir file >>= λ fe. some (fs, fe))
]

-- `FAT16::read_u8`
unfoldable pub read_sector : (ℕ → List ℕ) → ℕ → List ℕ
read_sector read_u8 offset = read_u8 (offset / 512)

-- `splitPath`: the drive is "0" with a colon and without one.
unfoldable pub drive_of : Text → Option Text
drive_of path = of_chars (58 ∷ 0 ∷ []) >>= λ colon. find path colon 0 >>= λ at.
    if not (at == npos) then of_chars (48 ∷ 0 ∷ []) else of_chars (48 ∷ 0 ∷ [])
