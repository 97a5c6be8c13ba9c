-- ===== src/Fs/Directory/Dotted.antt =====
-- The records of names of at most eight and three characters, as `readDirectory` reads them.
use mathlib.Core.List.{append-nil}
use muk.Prelude.{
  ℕ, zero, suc, ◌+◌, ◌-◌, ◌<◌, ◌≤◌, ◌≡◌, refl, ap, subst, ◌∙◌, ◌⊎◌, inl, inr, List, [], ◌∷◌, ◌++◌,
  map, some, Bool, true, false, ◌&&◌, not, if◌then◌else◌, ltb, length, length-append,
  length-replicate, replicate, arith,
}
use muk.Fs.Directory.{DirectoryEntry, new_entry, read_short, short_loop}
use muk.Fs.Directory.Bounds.{short_at, int_at, with_place-some}
use muk.Fs.Directory.Names.{short_text, is_kept, EndsAfter, Reads, short_loop-text}
use muk.Std.Cstring.{tolower}

-- The bytes are characters of a name.
abbrev pub AllKept : List ℕ → Type 0
AllKept [] = Unit
AllKept (c ∷ cs) = (is_kept c ≡ true) × AllKept cs

abbrev pub is_nil : List ℕ → Bool
is_nil [] = true
is_nil (c ∷ cs) = false

-- The twelve bytes of a record: the name and the extension, each filled up with spaces, and the attributes.
abbrev pub record_bytes : List ℕ → List ℕ → ℕ → List ℕ
record_bytes base ext attributes =
    base
    ++ (replicate (8 - length base) 32
        ++ (ext ++ (replicate (3 - length ext) 32 ++ attributes ∷ [])))

-- The text they stand for: no point is set behind a name of eight characters.
abbrev pub dotted : List ℕ → List ℕ → List ℕ
dotted base ext =
    map tolower base
    ++ (if ltb (length base) 8 && not (is_nil ext) then 46 ∷ map tolower ext else map tolower ext)

text-kept_all :
    (cs ys : List ℕ)
    → AllKept cs
    → short_text (cs ++ ys) false ≡ map tolower cs ++ short_text ys false
text-kept_all [] ys h = refl
text-kept_all (c ∷ cs) ys (kept, h) = rw (kept, text-kept_all cs ys h) refl

text-spaces : (k : ℕ) (ys : List ℕ) → short_text (replicate k 32 ++ ys) true ≡ short_text ys true
text-spaces zero ys = refl
text-spaces (suc k) ys = text-spaces k ys

-- What is left of a record behind the name.
text-padding_end :
    (k a : ℕ) (separator : Bool)
    → (a ≡ 16) ⊎ (a ≡ 32)
    → short_text (replicate k 32 ++ a ∷ []) separator ≡ []
text-padding_end zero a separator h = elim h [ inl e ↦ rw e refl | inr e ↦ rw e refl ]
text-padding_end (suc k) a separator h = text-padding_end k a true h

-- The part of the text from the padding of the name on.
text-rest :
    (k m a : ℕ) (ext : List ℕ)
    → AllKept ext
    → (a ≡ 16) ⊎ (a ≡ 32)
    → short_text (replicate k 32 ++ (ext ++ (replicate m 32 ++ a ∷ []))) false
      ≡ (if ltb 0 k && not (is_nil ext) then 46 ∷ map tolower ext else map tolower ext)
text-rest zero m a ext h at =
    text-kept_all ext (replicate m 32 ++ a ∷ []) h
    ∙ ap (λ t. map tolower ext ++ t) (text-padding_end m a false at)
    ∙ append-nil (map tolower ext)
text-rest (suc k) m a [] h at =
    let more : ltb 0 (suc k) ≡ true = ground arith in
    rw more (text-spaces k (replicate m 32 ++ a ∷ []) ∙ text-padding_end m a true at)
text-rest (suc k) m a (c ∷ ext) (kept, h) at =
    let more : ltb 0 (suc k) ≡ true = ground arith in
    let whole = replicate m 32 ++ a ∷ [] in
    rw more (
      text-spaces k ((c ∷ ext) ++ whole)
      ∙ rw kept (
          ap (λ t. 46 ∷ tolower c ∷ t)
            (text-kept_all ext whole h
              ∙ ap (λ t. map tolower ext ++ t) (text-padding_end m a false at)
              ∙ append-nil (map tolower ext))))

record-text :
    (base ext : List ℕ) (a : ℕ)
    → AllKept base
    → AllKept ext
    → length base ≤ 8
    → (a ≡ 16) ⊎ (a ≡ 32)
    → short_text (record_bytes base ext a) false ≡ dotted base ext
record-text base ext a hb he fits at =
    let same : ltb 0 (8 - length base) ≡ ltb (length base) 8 = ground arith in
    text-kept_all base
      (replicate (8 - length base) 32 ++ (ext ++ (replicate (3 - length ext) 32 ++ a ∷ []))) hb
    ∙ ap (λ t. map tolower base ++ t)
        (text-rest (8 - length base) (3 - length ext) a ext he at
          ∙ ap (λ b. if b && not (is_nil ext) then 46 ∷ map tolower ext else map tolower ext) same)

length-map : (cs : List ℕ) → length (map tolower cs) ≡ length cs
length-map [] = refl
length-map (c ∷ cs) = ap suc (length-map cs)

length-record_bytes :
    (base ext : List ℕ) (a : ℕ)
    → length base ≤ 8
    → length ext ≤ 3
    → length (record_bytes base ext a) ≡ 12
length-record_bytes base ext a h k = omega (
  arith,
  length-append base
      (replicate (8 - length base) 32 ++ (ext ++ (replicate (3 - length ext) 32 ++ a ∷ []))),
  length-append (replicate (8 - length base) 32) (ext ++ (replicate (3 - length ext) 32 ++ a ∷ [])),
  length-append ext (replicate (3 - length ext) 32 ++ a ∷ []),
  length-append (replicate (3 - length ext) 32) (a ∷ []),
  length-replicate {A = ℕ} (8 - length base) 32,
  length-replicate {A = ℕ} (3 - length ext) 32,
)

length-dotted :
    (base ext : List ℕ) → length base ≤ 8 → length ext ≤ 3 → length (dotted base ext) < 32
length-dotted base ext h k = ground (
  arith,
  length-append (map tolower base) (46 ∷ map tolower ext),
  length-append (map tolower base) (map tolower ext),
  length-map base,
  length-map ext,
)

-- A record of a name of at most eight characters and an extension of at most three, none of them a
-- space or the byte 16, is read as the name and the extension in lower case with a NUL behind them, and a
-- point between them where there is an extension and the name is shorter than eight; the place and the
-- size are the short at 26 and the int at 28.
pub read_short-record :
    (dir_bytes : List ℕ) (index : ℕ) (base ext : List ℕ) (a : ℕ)
    → index + 32 ≤ length dir_bytes
    → Reads dir_bytes index (record_bytes base ext a)
    → AllKept base
    → AllKept ext
    → length base ≤ 8
    → length ext ≤ 3
    → (a ≡ 16) ⊎ (a ≡ 32)
    → (e : DirectoryEntry) × (read_short dir_bytes index (new_entry a) ≡ some e)
      × EndsAfter (dotted base ext) e.name
      × (e.location ≡ short_at dir_bytes (index + 26))
      × (e.fsize ≡ int_at dir_bytes (index + 28))
unfolding read_short new_entry
read_short-record dir_bytes index base ext a inside read hb he fb fe at =
    let text = record-text base ext a hb he fb at in
    let (r, done, ends) =
      short_loop-text (record_bytes base ext a) dir_bytes index 0 false [] (replicate 32 0) read
        refl (omega (arith, ap length text, length-dotted base ext fb fe)) in
    let loop : short_loop 12 index dir_bytes 0 false (replicate 32 0) ≡ some r =
      subst (λ n. short_loop n index dir_bytes 0 false (replicate 32 0) ≡ some r)
        (length-record_bytes base ext a fb fe) done in
    (
      record {
        name = r;
        attributes = a;
        location = short_at dir_bytes (index + 26);
        fsize = int_at dir_bytes (index + 28);
      },
      rw (with_place-some dir_bytes index (new_entry a) inside, loop) refl,
      subst (λ t. EndsAfter t r) text ends,
      refl,
      refl,
    )
