-- ===== src/Fs/Path/Files.antt =====
-- What `readFile` gives.
use muk.Prelude.{ℕ, List}
use muk.Fs.{widen}
use muk.Fs.Directory.{DirectoryEntry}
use muk.Fs.Path.{FileEntry, no_file}
use muk.Fs.Path.Folders.{First, Missing}
use muk.Std.Text.{Text}

-- The file of a name in a directory: the first entry of this name, or no file.
pub data FileOf : List DirectoryEntry → List ℕ → FileEntry → Type 0 where
  is_file :
      (dir : List DirectoryEntry) (k : List ℕ) (e : DirectoryEntry)
      → First dir k e
      → FileOf dir k (record { name = k; location = widen e.location; size = e.fsize })
  is_none : (dir : List DirectoryEntry) (k : List ℕ) → Missing dir k → FileOf dir k no_file
