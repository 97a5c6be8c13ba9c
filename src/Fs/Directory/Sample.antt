-- ===== src/Fs/Directory/Sample.antt =====
-- A directory with one folder, "ab", whose first cluster is 3.
use muk.Prelude.{ℕ, ◌≡◌, refl, List, [], ◌∷◌, ◌++◌, some, replicate, ◌==◌, if◌then◌else◌}
use muk.Fs.{to_16bit, to_32bit}
use muk.Fs.Directory.{
  DirectoryEntry, read_directory, read_loop, read_entry, read_short, short_loop, put_separator,
  put_kept, with_place, new_entry, push_entry,
}
use muk.Std.Cstring.{tolower}
use muk.Std.Vector.{put}

abbrev pub folder_sector : List ℕ
folder_sector =
    (65 ∷ 66 ∷ [])
    ++ replicate 9 32
    ++ (16 ∷ [])
    ++ replicate 14 0
    ++ (3 ∷ 0 ∷ 0 ∷ 0 ∷ 0 ∷ 0 ∷ [])
    ++ replicate 480 0

abbrev pub folder : DirectoryEntry
folder = record {
  name = (97 ∷ 98 ∷ []) ++ replicate 30 0;
  attributes = 16;
  location = 3;
  fsize = 0;
}

-- A device whose sector 1 is the table, with chains of one cluster
abbrev pub device : ℕ → List ℕ
device sector = if sector == 1 then replicate 512 255 else folder_sector

pub device-read :
    (read_directory device 512 ≡ some (folder ∷ []))
    × (read_directory device 548 ≡ some (folder ∷ []))
unfolding read_directory read_loop read_entry read_short short_loop put_separator put_kept
    with_place new_entry push_entry tolower put to_16bit to_32bit
device-read = (refl, refl)
