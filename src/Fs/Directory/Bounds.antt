-- ===== src/Fs/Directory/Bounds.antt =====
-- A name never outgrows its 32 bytes, and only a long name in the last record of a sector makes
-- `readDirectory` read past the 512 bytes.
use native.Mathlib.Decide.{dec_lt}
use muk.Prelude.{
  ℕ, zero, suc, ◌+◌, ◌*◌, ◌<◌, ◌≤◌, ◌≡◌, ◌≢◌, refl, subst, ◌∙◌, ◌⊎◌, inl, inr, List, [], ◌∷◌,
  Option, none, some, true, false, ◌||◌, ◌==◌, ltb, length, get_or, get_elem?-eq-get_or, Bool-cases,
  bit_or, arith,
}
use muk.Fs.{to_16bit, to_32bit}
use muk.Fs.Directory.{
  DirectoryEntry, new_entry, with_place, read_short, read_long, read_entry, push_entry, read_loop,
  read_directory,
}
use muk.Word.{u16, shl32}
use muk.Fs.Directory.Lengths.{short_loop-some, long_loop-some, long_mask, mask_is, picks, picked}

-- The short and the int at an index.
abbrev pub short_at : List ℕ → ℕ → ℕ
short_at bytes i = u16 (bit_or (get_or bytes i 0) (shl32 (get_or bytes (i + 1) 0) 8))

abbrev pub int_at : List ℕ → ℕ → ℕ
int_at bytes i =
    bit_or
      (bit_or (bit_or (get_or bytes i 0) (shl32 (get_or bytes (i + 1) 0) 8))
        (shl32 (get_or bytes (i + 2) 0) 16))
      (shl32 (get_or bytes (i + 3) 0) 24)

abbrev pub placed : List ℕ → ℕ → DirectoryEntry → DirectoryEntry
placed dir_bytes index e = record e {
  location = short_at dir_bytes (index + 26);
  fsize = int_at dir_bytes (index + 28);
}

pub with_place-some :
    (dir_bytes : List ℕ) (index : ℕ) (e : DirectoryEntry)
    → index + 32 ≤ length dir_bytes
    → with_place dir_bytes index e ≡ some (placed dir_bytes index e)
unfolding with_place to_16bit to_32bit
with_place-some dir_bytes index e h =
    rw
      (
        get_elem?-eq-get_or dir_bytes (index + 26) 0 (omega arith),
        get_elem?-eq-get_or dir_bytes (index + 26 + 1) 0 (omega arith),
        get_elem?-eq-get_or dir_bytes (index + 28) 0 (omega arith),
        get_elem?-eq-get_or dir_bytes (index + 28 + 1) 0 (omega arith),
        get_elem?-eq-get_or dir_bytes (index + 28 + 2) 0 (omega arith),
        get_elem?-eq-get_or dir_bytes (index + 28 + 3) 0 (omega arith),
      )
      refl

read_short-some :
    (dir_bytes : List ℕ) (index : ℕ) (e : DirectoryEntry)
    → index + 32 ≤ length dir_bytes
    → length e.name ≡ 32
    → (r : DirectoryEntry) × (read_short dir_bytes index e ≡ some r) × (length r.name ≡ 32)
unfolding read_short
read_short-some dir_bytes index e h k =
    let (name, done, size) =
      short_loop-some 12 index dir_bytes 0 false e.name (omega arith) (omega arith) in
    (
      record (placed dir_bytes index e) { name = name },
      rw (with_place-some dir_bytes index e h, done) refl,
      size ∙ k,
    )

read_long-some :
    (dir_bytes : List ℕ) (index : ℕ) (e : DirectoryEntry)
    → index + 64 ≤ length dir_bytes
    → length e.name ≡ 32
    → (r : DirectoryEntry) × (read_long dir_bytes index e ≡ some r) × (length r.name ≡ 32)
unfolding read_long
read_long-some dir_bytes index e h k =
    let (name, done, size) =
      long_loop-some picks 0 index long_mask dir_bytes 0 e.name picked (omega arith)
        (omega arith) in
    let attributes = get_or dir_bytes (index + 32 + 11) 0 in
    (
      placed dir_bytes (index + 32) (record e { name = name; attributes = attributes }),
      rw
          (
            mask_is,
            done,
            get_elem?-eq-get_or dir_bytes (index + 32 + 11) 0 (omega arith),
            with_place-some dir_bytes (index + 32)
                (record e { name = name; attributes = attributes }) (omega arith),
          )
          refl,
      size ∙ k,
    )

-- The name of every entry is in 32 bytes.
abbrev pub Named : List DirectoryEntry → Type 0
Named [] = Unit
Named (e ∷ es) = (length e.name ≡ 32) × Named es

abbrev NamedEntry : Option DirectoryEntry → Type 0
NamedEntry none = Unit
NamedEntry (some e) = length e.name ≡ 32

push_entry-Named :
    (dir : List DirectoryEntry) (e : Option DirectoryEntry)
    → Named dir
    → NamedEntry e
    → Named (push_entry dir e)
unfolding push_entry
push_entry-Named dir none h k = h
push_entry-Named [] (some e) h k = (k, tt)
push_entry-Named (d ∷ dir) (some e) (p, h) k = (p, push_entry-Named dir (some e) h k)

-- What `readDirectory` does in a round: it goes on by one record or two.
read_entry-some :
    (dir_bytes : List ℕ) (index : ℕ)
    → index + 32 ≤ length dir_bytes
    → (get_or dir_bytes (index + 11) 0 ≡ 15 → index + 64 ≤ length dir_bytes)
    → (e : Option DirectoryEntry) × (next : ℕ) × (read_entry dir_bytes index ≡ some (e, next))
      × NamedEntry e
      × ((next ≡ index + 32) ⊎ ((next ≡ index + 64) × (index + 64 ≤ length dir_bytes)))
unfolding read_entry new_entry
read_entry-some dir_bytes index h k =
    let a = get_or dir_bytes (index + 11) 0 in
    let there = get_elem?-eq-get_or dir_bytes (index + 11) 0 (omega arith) in
    elim (Bool-cases (a == 16 || a == 32)) [
      | inl short ↦
          let (r, done, size) = read_short-some dir_bytes index (new_entry a) h refl in
          (some r, index + 32, rw (there, short, done) refl, size, inl refl)
      | inr other ↦ elim (Bool-cases (a == 15)) [
        | inl long ↦
            let fits = k (ground arith) in
            let (r, done, size) = read_long-some dir_bytes index (new_entry a) fits refl in
            (some r, index + 64, rw (there, other, long, done) refl, size, inr (refl, fits))
        | inr short ↦ elim (Bool-cases (a == 0)) [
          | inl free ↦ (none, index + 32, rw (there, other, short, free) refl, tt, inl refl)
          | inr used ↦
              (some (new_entry a), index + 32, rw (there, other, short, used) refl, refl, inl refl)
        ]
      ]
    ]

read_loop-step :
    (n index : ℕ) (dir_bytes : List ℕ) (dir : List DirectoryEntry) (e : Option DirectoryEntry)
    (next index' : ℕ) (r : List DirectoryEntry)
    → index < 512
    → read_entry dir_bytes index ≡ some (e, next)
    → next ≡ index'
    → read_loop n dir_bytes index' (push_entry dir e) ≡ some r
    → read_loop (suc n) dir_bytes index dir ≡ some r
unfolding read_loop
read_loop-step n index dir_bytes dir e next index' r h done at rest =
    let inside : ltb index 512 ≡ true = ground arith in rw (inside, done, at) rest

read_loop-some :
    (n k : ℕ) (dir_bytes : List ℕ) (dir : List DirectoryEntry)
    → length dir_bytes ≡ 512
    → get_or dir_bytes 491 0 ≢ 15
    → k ≤ 16
    → 16 ≤ k + n
    → Named dir
    → (r : List DirectoryEntry) × (read_loop n dir_bytes (32 * k) dir ≡ some r) × Named r
unfolding read_loop
read_loop-some zero k dir_bytes dir len last h enough named =
    let done : ltb (32 * k) 512 ≡ false = ground arith in (dir, rw done refl, named)
read_loop-some (suc n) k dir_bytes dir len last h enough named = elim (dec_lt k 16) [
  | no over ↦ let done : ltb (32 * k) 512 ≡ false = ground arith in (dir, rw done refl, named)
  | yes more ↦
      let fits : get_or dir_bytes (32 * k + 11) 0 ≡ 15 → 32 * k + 64 ≤ length dir_bytes = λ long.
        elim (dec_lt k 15) [
          | yes early ↦ omega (arith, len)
          | no late ↦ absurd (last (subst (λ i. get_or dir_bytes i 0 ≡ 15) (omega arith) long))
        ] in
      let (e, next, done, good, where_next) =
        read_entry-some dir_bytes (32 * k) (omega (arith, len)) fits in
      let longer = push_entry-Named dir e named good in
      elim where_next [
        | inl one ↦
            let at : next ≡ 32 * (k + 1) = omega arith in
            let (r, finished, all) =
              read_loop-some n (k + 1) dir_bytes (push_entry dir e) len last (omega arith)
                (omega arith) longer in
            (
              r,
              read_loop-step n (32 * k) dir_bytes dir e next _ r (omega arith) done at finished,
              all,
            )
        | inr (two, room) ↦
            let at : next ≡ 32 * (k + 2) = omega arith in
            let (r, finished, all) =
              read_loop-some n (k + 2) dir_bytes (push_entry dir e) len last (omega (arith, len))
                (omega arith) longer in
            (
              r,
              read_loop-step n (32 * k) dir_bytes dir e next _ r (omega arith) done at finished,
              all,
            )
      ]
]

-- On a sector of 512 bytes whose last record is not a long name, `readDirectory` ends within its sixteen
-- rounds, never reads or writes outside of a buffer, and leaves every name in its 32 bytes.
pub read_directory-some :
    (read_u8 : ℕ → List ℕ) (sector_index : ℕ)
    → length (read_u8 sector_index) ≡ 512
    → get_or (read_u8 sector_index) 491 0 ≢ 15
    → (r : List DirectoryEntry) × (read_directory read_u8 sector_index ≡ some r) × Named r
unfolding read_directory
read_directory-some read_u8 sector_index len last =
    read_loop-some 16 0 (read_u8 sector_index) [] len last (omega arith) (omega arith) tt
