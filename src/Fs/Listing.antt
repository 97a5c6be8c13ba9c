-- ===== src/Fs/Listing.antt =====
-- `ls` of kernel/bin/ls.cpp. The outer `none` is that the chain of a folder does not end, the inner one an access
-- outside of a buffer; `behind` and `later` are the heap behind the string of the path.
pub mod Trimmed
use muk.Prelude.{
  ℕ, List, [], ◌∷◌, Option, none, some, Bool, true, false, not, ◌==◌, if◌then◌else◌, ◌>>=◌,
  get_elem?, replicate,
}
use muk.Fs.{Fat16}
use muk.Fs.Directory.{DirectoryEntry, short_name_file}
use muk.Fs.Path.{read_directory_path}
use muk.Std.Format.{Arg, int_arg, text_arg, vsprintf}
use muk.Std.Text.{Text, to_chars, substr, append_char}
use muk.Word.{sub32}

-- "%s- %x\t %d \tMay 14 17:04\t"
abbrev pub row_format : List ℕ
row_format =
    37 ∷ 115 ∷ 45 ∷ 32 ∷ 37 ∷ 120 ∷ 9 ∷ 32 ∷ 37 ∷ 100 ∷ 32 ∷ 9 ∷ 77 ∷ 97 ∷ 121 ∷ 32 ∷ 49 ∷ 52 ∷ 32
    ∷ 49 ∷ 55 ∷ 58 ∷ 48 ∷ 52 ∷ 9 ∷ 0 ∷ []

-- "%s\n"
abbrev pub name_format : List ℕ
name_format = 37 ∷ 115 ∷ 10 ∷ 0 ∷ []

-- The buffer that `terminal_printf` and `terminal_printf_rgba` write to the terminal
unfoldable pub printed : List ℕ → List Arg → Option (List ℕ)
printed format args =
    vsprintf (replicate 80 0) format args >>= λ r. r >>= λ (buffer, written). some buffer

-- The two buffers of an entry
unfoldable pub list_entry : DirectoryEntry → Option (List ℕ × List ℕ)
list_entry dir =
    let is_dir = not (dir.attributes == short_name_file) in
    printed row_format (
      text_arg (if is_dir then 100 ∷ 0 ∷ [] else 45 ∷ 0 ∷ [])
      ∷ int_arg dir.location
      ∷ int_arg dir.fsize
      ∷ [])
    >>= λ row. printed name_format (text_arg dir.name ∷ []) >>= λ name. some (row, name)

unfoldable pub list_entries : List DirectoryEntry → Option (List (List ℕ × List ℕ))
list_entries [] = some []
list_entries (dir ∷ dirs) =
    list_entry dir >>= λ shown. list_entries dirs >>= λ rest. some (shown ∷ rest)

-- The path without its last byte, with a slash at its end
unfoldable pub trim_path : Text → Option (List ℕ)
trim_path c_path = substr c_path 0 (sub32 c_path.size 1) >>= λ trimmed.
    get_elem? trimmed.buff (sub32 trimmed.size 1) >>= λ last.
    (if not (last == 47) then append_char trimmed 47 else some trimmed) >>= to_chars

unfoldable pub ls :
    (ℕ → List ℕ)
    → List ℕ
    → (Text → List ℕ)
    → List Text
    → Fat16
    → Option (Option (Fat16 × List (List ℕ × List ℕ)))
ls read_u8 behind later args fs = elim (get_elem? args 1 >>= trim_path) [
  | none ↦ some none
  | some path ↦ read_directory_path read_u8 behind later path fs >>= λ r.
      some (r >>= λ (fs, dirs). list_entries dirs >>= λ shown. some (fs, shown))
]
