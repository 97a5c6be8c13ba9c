-- ===== src/Fs/Directory/Tests.antt =====
-- A sector with one record, of a file ls.txt.
use muk.Prelude.{ℕ, ◌≡◌, refl, inr, List, [], ◌∷◌, ◌++◌, some, replicate, arith}
use muk.Fs.Directory.{DirectoryEntry, new_entry, read_short, read_directory}
use muk.Fs.Directory.Bounds.{Named, short_at, int_at, read_directory-some}
use muk.Fs.Directory.Names.{EndsAfter, Reads}
use muk.Fs.Directory.Dotted.{record_bytes, dotted, read_short-record}

abbrev ls_base : List ℕ
ls_base = 76 ∷ 83 ∷ []

abbrev txt_ext : List ℕ
txt_ext = 84 ∷ 88 ∷ 84 ∷ []

abbrev small_sector : List ℕ
small_sector =
    record_bytes ls_base txt_ext 32
    ++ replicate 14 0
    ++ (3 ∷ 0 ∷ 7 ∷ 1 ∷ 0 ∷ 0 ∷ [])
    ++ replicate 480 0

small_sector-Reads : Reads small_sector 0 (record_bytes ls_base txt_ext 32)
small_sector-Reads = (
  refl,
  (refl, (refl, (refl, (refl, (refl, (refl, (refl, (refl, (refl, (refl, (refl, tt))))))))))),
)

read_short-record_example :
    (e : DirectoryEntry) × (read_short small_sector 0 (new_entry 32) ≡ some e)
    × EndsAfter (dotted ls_base txt_ext) e.name
    × (e.location ≡ short_at small_sector 26)
    × (e.fsize ≡ int_at small_sector 28)
read_short-record_example =
    read_short-record small_sector 0 ls_base txt_ext 32 (omega arith) small_sector-Reads
      (refl, (refl, tt)) (refl, (refl, (refl, tt))) (omega arith) (omega arith) (inr refl)

read_directory-some_example :
    (r : List DirectoryEntry) × (read_directory (λ _. small_sector) 512 ≡ some r) × Named r
read_directory-some_example = read_directory-some (λ _. small_sector) 512 refl (λ e. omega arith)
