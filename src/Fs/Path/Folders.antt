-- ===== src/Fs/Path/Folders.antt =====
-- What `readDirectory` gives for a path.
use mathlib.Core.List.{append_assoc, append-nil}
use muk.Prelude.{
  ℕ, suc, ◌+◌, if◌then◌else◌, ◌-◌, ◌^◌, ◌<◌, ◌≡◌, ◌≢◌, refl, List, [], ◌∷◌, ◌++◌, Option, none,
  some, Bool, true, false, ◌==◌, ltb, length, length-append, map, arith,
}
use muk.Fs.{Fat16, walk_sectors}
use muk.Fs.Directory.{DirectoryEntry, read_directory}
use muk.Std.Cstring.{IsText}
use muk.Std.Cstring.Compare.{strlen-text}
use muk.Std.Text.{Text}
use muk.Std.Text.Equal.{same_text, unlike_texts}
use muk.Std.Text.Parts.{substr_lem}
use muk.Std.Text.Roundtrip.{text_of, of_chars-text, to_chars-text}
use muk.Std.Tokens.Copied.{tokens_in-words}
use muk.Std.Tokens.Ends.{ends_in, extend_last}
use muk.Std.Tokens.Words.{words, AreOthers}
use muk.Word.{sub32}
use muk.Fs.Path.{find_folder, relative, descend, list_at, follow, read_directory_path}

abbrev pub HasName : DirectoryEntry → List ℕ → Type 0
HasName e k = IsText k × (r : List ℕ) × (e.name ≡ k ++ 0 ∷ r)

-- The first entry of a name, and that there is none. Every name is a C string.
pub data First : List DirectoryEntry → List ℕ → DirectoryEntry → Type 0 where
  here :
      (e : DirectoryEntry) (dir : List DirectoryEntry) (k : List ℕ)
      → HasName e k
      → First (e ∷ dir) k e
  later :
      (e : DirectoryEntry) (dir : List DirectoryEntry) (k other : List ℕ) (e' : DirectoryEntry)
      → HasName e other
      → other ≢ k
      → First dir k e'
      → First (e ∷ dir) k e'

pub data Missing : List DirectoryEntry → List ℕ → Type 0 where
  at_end : (k : List ℕ) → Missing [] k
  past :
      (e : DirectoryEntry) (dir : List DirectoryEntry) (k other : List ℕ)
      → HasName e other
      → other ≢ k
      → Missing dir k
      → Missing (e ∷ dir) k

find_folder-First :
    (dir : List DirectoryEntry) (k q : List ℕ) (e : DirectoryEntry)
    → IsText k
    → First dir k e
    → find_folder dir (k ++ 0 ∷ q) ≡ some (some e)
unfolding find_folder
find_folder-First _ _ q _ text (here e dir k (key, r, name)) =
    let (z, run, is) = same_text k r q key in cc (name, run, is)
find_folder-First _ _ q _ text (later e dir k other e' (key, r, name) unlike rest) =
    let (z, run, isnt) = unlike_texts other k r q key text unlike in
    cc (name, run, isnt, find_folder-First dir k q e' text rest)

find_folder-Missing :
    (dir : List DirectoryEntry) (k q : List ℕ)
    → IsText k
    → Missing dir k
    → find_folder dir (k ++ 0 ∷ q) ≡ some none
unfolding find_folder
find_folder-Missing _ _ q text (at_end k) = refl
find_folder-Missing _ _ q text (past e dir k other (key, r, name) unlike rest) =
    let (z, run, isnt) = unlike_texts other k r q key text unlike in
    cc (name, run, isnt, find_folder-Missing dir k q text rest)

-- Where the folders of a path lead from a sector: to the sector of the last one, or nowhere when a folder has no
-- entry. The chain of every folder has a first sector.
pub data Resolves (read_u8 : ℕ → List ℕ)
    : Fat16 → ℕ → List (List ℕ) → Fat16 → Option ℕ → Type 0 where
  arrives : (fs : Fat16) (sector : ℕ) → Resolves read_u8 fs sector [] fs (some sector)
  loses :
      (fs : Fat16) (sector : ℕ) (w : List ℕ) (ws : List (List ℕ)) (dir : List DirectoryEntry)
      → IsText w
      → length w < 2 ^ 32 - 1
      → read_directory read_u8 sector ≡ some dir
      → Missing dir w
      → Resolves read_u8 fs sector (w ∷ ws) fs none
  enters :
      (fs : Fat16) (sector : ℕ) (w : List ℕ) (ws : List (List ℕ)) (dir : List DirectoryEntry)
      (e : DirectoryEntry) (fs' : Fat16) (next : ℕ) (sectors : List ℕ) (fs'' : Fat16)
      (found : Option ℕ)
      → IsText w
      → length w < 2 ^ 32 - 1
      → read_directory read_u8 sector ≡ some dir
      → First dir w e
      → walk_sectors read_u8 248 fs e.location ≡ some (fs', some (next ∷ sectors))
      → Resolves read_u8 fs' next ws fs'' found
      → Resolves read_u8 fs sector (w ∷ ws) fs'' found

descend-Resolves :
    (read_u8 : ℕ → List ℕ) (fs : Fat16) (sector : ℕ) (ws : List (List ℕ)) (fs' : Fat16)
    (found : Option ℕ)
    → Resolves read_u8 fs sector ws fs' found
    → descend read_u8 (map text_of ws) sector fs ≡ some (some (fs', found))
unfolding descend
descend-Resolves read_u8 _ _ _ _ _ (arrives fs sector) = refl
descend-Resolves read_u8 _ _ _ _ _ (loses fs sector w ws dir text small read missing) =
    cc (to_chars-text w small, read, find_folder-Missing dir w [] text missing)
descend-Resolves read_u8 _ _ _ _ _
      (enters fs sector w ws dir e fs' next sectors fs'' found text small read first walk rest) =
    cc (
      to_chars-text w small,
      read,
      find_folder-First dir w [] e text first,
      walk,
      descend-Resolves read_u8 fs' next ws fs'' found rest,
    )

abbrev pub lead : Bool → List ℕ
lead true = 47 ∷ []
lead false = []

lead-IsText : (rooted : Bool) (s : List ℕ) → IsText s → IsText (lead rooted ++ s)
lead-IsText true s h = (omega arith, h)
lead-IsText false s h = h

relative_lem :
    (rooted : Bool) (c : ℕ) (s junk z : List ℕ)
    → IsText (c ∷ s)
    → c ≢ 47
    → length s < 2 ^ 31
    → relative (0 ∷ z) (lead rooted ++ ((c ∷ s) ++ 0 ∷ junk)) ≡ some (text_of (c ∷ s))
unfolding relative
relative_lem true c s junk z text other small =
    let text' : IsText (47 ∷ c ∷ s) = (omega arith, text) in
    let less : sub32 (suc (suc (length s))) 1 ≡ suc (length s) = omega arith in
    cc (
      of_chars-text (47 ∷ c ∷ s) junk text',
      less,
      append-nil s,
      substr_lem (47 ∷ []) (c ∷ s) [] 1 (suc (length s)) text refl refl (omega arith),
    )
relative_lem false c s junk z text other small =
    let go : (c == 47) ≡ false = ground arith in cc (of_chars-text (c ∷ s) junk text, go)

-- For a path of more than two bytes and less than 2 ^ 31, with or without a slash in front, `readDirectory` gives the
-- entries of the directory to which the words between the slashes lead from the root, and none when a word has no
-- entry in its directory. No second slash stands in front. Behind the string of the path the heap has a NUL at
-- first, and `h` up to a NUL once the first word has been copied: of two or more words, the last one that is looked
-- up ends with `h`, unless a slash ends the path. `h` has no slash, and less than 2 ^ 31 bytes with the path.
pub read_directory_path-Resolves :
    (read_u8 : ℕ → List ℕ) (rooted : Bool) (c : ℕ) (s junk z : List ℕ) (fs fs' : Fat16)
    (found : Option ℕ) (h y w : List ℕ) (ws : List (List ℕ)) (copied : Text → List ℕ)
    → IsText (c ∷ s)
    → c ≢ 47
    → AreOthers 47 h
    → length (lead rooted ++ c ∷ s) + length h < 2 ^ 31
    → 2 < length (lead rooted ++ c ∷ s)
    → words 47 false (c ∷ s) ≡ w ∷ ws
    → copied (text_of w) ≡ h ++ 0 ∷ y
    → Resolves read_u8 fs 512 (w ∷ (if ends_in 47 (c ∷ s) then ws else extend_last h ws)) fs' found
    → read_directory_path read_u8 (0 ∷ z) copied (lead rooted ++ ((c ∷ s) ++ 0 ∷ junk)) fs
      ≡ some (list_at read_u8 (fs', found))
unfolding read_directory_path follow
read_directory_path-Resolves read_u8 rooted c s junk z fs fs' found h y w ws copied text other
      others small long split heap leads =
    let size = length-append (lead rooted) (c ∷ s) in
    let start = relative_lem rooted c s junk z text other (omega (arith, size)) in
    let tokens =
      tokens_in-words (c ∷ s) z [] h y w ws copied 47 text (omega arith) others
        (omega (arith, size)) split heap in
    let now = w ∷ (if ends_in 47 (c ∷ s) then ws else extend_last h ws) in
    let reached = descend-Resolves read_u8 fs 512 now fs' found leads in
    let whole : IsText (lead rooted ++ c ∷ s) = lead-IsText rooted (c ∷ s) text in
    let len = strlen-text (lead rooted ++ c ∷ s) junk whole in
    let joined = append_assoc (lead rooted) (c ∷ s) (0 ∷ junk) in
    let deep : ltb 2 (length (lead rooted ++ c ∷ s)) ≡ true = ground arith in
    cc (start, tokens, reached, len, joined, deep)
