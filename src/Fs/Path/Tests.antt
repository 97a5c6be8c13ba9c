-- ===== src/Fs/Path/Tests.antt =====
-- Paths on a device with one folder.
use muk.Prelude.{
  ℕ, ◌+◌, ◌*◌, List, ◌≡◌, refl, [], ◌∷◌, ◌++◌, some, none, true, length, ap, replicate, arith,
}
use muk.Fs.{Fat16, FatHeader, walk_sectors, walk, sector_of, get_fat}
use muk.Fs.Directory.Sample.{device, device-read, folder}
use muk.Fs.Path.{list_at, read_directory_path}
use muk.Fs.Path.Folders.{
  HasName, here, past, at_end, loses, Resolves, enters, lead, read_directory_path-Resolves,
}
use muk.Std.Text.{Text}
use muk.Std.Tokens.Words.{words}

abbrev small_header : FatHeader
small_header = record {
  sector_size = 512;
  sec_per_cluster = 4;
  num_reserved_sectors = 1;
  num_fats = 4;
  num_sectors_per_fat = 1;
  num_directories = 512;
  num_sectors = 4096;
}

abbrev opened : Fat16
opened = record {
  header_bytes = [];
  header_info = small_header;
  table_offset = 1;
  table = replicate 512 255;
  volume_serial = 0;
}

folder_walk : walk_sectors device 248 opened 3 ≡ some (opened, some (548 ∷ []))
unfolding walk_sectors walk sector_of get_fat
folder_walk = refl

folder-HasName : HasName folder (97 ∷ 98 ∷ [])
folder-HasName = ((omega arith, (omega arith, tt)), replicate 29 0, refl)

-- The header of the block that is allocated for a word: its size, and that it is in use
abbrev header : Text → List ℕ
header w = (2 * (w.size + 12) + 1) ∷ 0 ∷ 0 ∷ 0 ∷ []

-- "/ab/ab" is looked for as "ab" and then "ab" with the byte 29, which is not there.
ab_ab-Resolves : Resolves device opened 512 ((97 ∷ 98 ∷ []) ∷ (97 ∷ 98 ∷ 29 ∷ []) ∷ []) opened none
ab_ab-Resolves =
    let (root, below) = device-read in
    enters opened 512 (97 ∷ 98 ∷ []) ((97 ∷ 98 ∷ 29 ∷ []) ∷ []) (folder ∷ []) folder opened 548 []
      opened none (omega arith, (omega arith, tt)) (omega arith) root
      (here folder [] (97 ∷ 98 ∷ []) folder-HasName) folder_walk
      (loses opened 548 (97 ∷ 98 ∷ 29 ∷ []) [] (folder ∷ [])
        (omega arith, (omega arith, (omega arith, tt))) (omega arith) below
        (past folder [] (97 ∷ 98 ∷ 29 ∷ []) (97 ∷ 98 ∷ []) folder-HasName
          (λ e. omega (arith, ap length e)) (at_end (97 ∷ 98 ∷ 29 ∷ []))))

read_directory_path-Resolves_example :
    read_directory_path device
      (0 ∷ [])
      header
      (lead true ++ ((97 ∷ 98 ∷ 47 ∷ 97 ∷ 98 ∷ []) ++ 0 ∷ []))
      opened
    ≡ some (list_at device (opened, none))
unfolding words
read_directory_path-Resolves_example =
    read_directory_path-Resolves device true 97 (98 ∷ 47 ∷ 97 ∷ 98 ∷ []) [] [] opened opened none
      (29 ∷ []) (0 ∷ 0 ∷ []) (97 ∷ 98 ∷ []) ((97 ∷ 98 ∷ []) ∷ []) header
      (omega arith, (omega arith, (omega arith, (omega arith, (omega arith, tt))))) (omega arith)
      (omega arith, omega arith, tt) (omega arith) (omega arith) refl refl ab_ab-Resolves
