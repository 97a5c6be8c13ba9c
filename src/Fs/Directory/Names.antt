-- ===== src/Fs/Directory/Names.antt =====
-- What `readDirectory` makes of a name of eight and three characters.
use mathlib.Core.List.{append_assoc, append-nil}
use muk.Prelude.{
  ℕ, ◌+◌, ◌<◌, ◌≤◌, ◌≡◌, refl, sym, ap, subst, ◌∙◌, inl, inr, List, [], ◌∷◌, ◌++◌, some, Bool, true,
  false, ◌&&◌, not, ◌==◌, if◌then◌else◌, length, length-append, get_elem?, Bool-cases, arith,
}
use muk.Fs.Directory.{short_loop, put_separator, put_kept}
use muk.Std.Cstring.{tolower}
use muk.Std.Vector.Writes.{put_next}

-- The text of the bytes that are no padding, in lower case; `separator` is that padding came before.
abbrev pub short_text : List ℕ → Bool → List ℕ
short_text [] separator = []
short_text (c ∷ cs) separator =
    if not (c == 32) && not (c == 16)
    then (if separator
        then 46 ∷ tolower c ∷ short_text cs false
        else tolower c ∷ short_text cs false)
    else short_text cs true

-- `pre ++ 0 ∷ rest`, for some rest of the buffer.
abbrev pub EndsAfter : List ℕ → List ℕ → Type 0
EndsAfter pre r = (rest : List ℕ) × (r ≡ pre ++ 0 ∷ rest)

-- The bytes of the sector from an index on.
abbrev pub Reads : List ℕ → ℕ → List ℕ → Type 0
Reads dir_bytes at [] = Unit
Reads dir_bytes at (c ∷ cs) = (get_elem? dir_bytes at ≡ some c) × Reads dir_bytes (at + 1) cs

EndsAfter-snoc :
    (pre : List ℕ) (v : ℕ) (t r : List ℕ)
    → EndsAfter ((pre ++ v ∷ []) ++ t) r
    → EndsAfter (pre ++ v ∷ t) r
EndsAfter-snoc pre v t r (rest, e) =
    (rest, e ∙ ap (λ p. p ++ 0 ∷ rest) (append_assoc pre (v ∷ []) t))

abbrev pub is_kept : ℕ → Bool
is_kept c = not (c == 32) && not (c == 16)

-- The text that a kept byte adds.
abbrev piece : Bool → ℕ → List ℕ
piece true c = 46 ∷ tolower c ∷ []
piece false c = tolower c ∷ []

text-kept :
    (c : ℕ) (cs : List ℕ) (separator : Bool)
    → is_kept c ≡ true
    → short_text (c ∷ cs) separator ≡ piece separator c ++ short_text cs false
text-kept c cs true kept = rw kept refl
text-kept c cs false kept = rw kept refl

text-padding :
    (c : ℕ) (cs : List ℕ) (separator : Bool)
    → is_kept c ≡ false
    → short_text (c ∷ cs) separator ≡ short_text cs true
text-padding c cs separator padding = rw padding refl

-- The two writes of a kept byte.
put_piece :
    (c : ℕ) (separator : Bool) (len : ℕ) (pre gap : List ℕ)
    → len ≡ length pre
    → length (piece separator c) ≤ length gap
    → (gap' : List ℕ) × (put_kept (pre ++ gap) len separator c
        ≡ some ((pre ++ piece separator c) ++ gap', length (pre ++ piece separator c), false))
      × (length gap' + length (piece separator c) ≡ length gap)
unfolding put_separator put_kept
put_piece c false len pre [] l h = absurd (omega arith)
put_piece c true len pre [] l h = absurd (omega arith)
put_piece c true len pre (g ∷ []) l h = absurd (omega arith)
put_piece c false len pre (g ∷ gap) l h =
    let at : len + 1 ≡ length (pre ++ tolower c ∷ []) =
      omega (arith, length-append pre (tolower c ∷ [])) in
    (
      gap,
      rw (put_next pre g gap len (tolower c) l, append_assoc pre (tolower c ∷ []) gap, at) refl,
      omega arith,
    )
put_piece c true len pre (g ∷ g' ∷ gap) l h =
    let ends = 46 ∷ tolower c ∷ [] in
    let at : len + 1 + 1 ≡ length (pre ++ ends) = omega (arith, length-append pre ends) in
    let next : len + 1 ≡ length (pre ++ 46 ∷ []) = omega (arith, length-append pre (46 ∷ [])) in
    (
      gap,
      rw
          (
            put_next pre g (g' ∷ gap) len 46 l,
            sym (append_assoc pre (46 ∷ []) (g' ∷ gap)),
            put_next (pre ++ 46 ∷ []) g' gap (len + 1) (tolower c) next,
            append_assoc pre (46 ∷ []) (tolower c ∷ gap),
            append_assoc pre ends gap,
            at,
          )
          refl,
      omega arith,
    )

pub short_loop-text :
    (cs : List ℕ) (dir_bytes : List ℕ) (at len : ℕ) (separator : Bool) (pre gap : List ℕ)
    → Reads dir_bytes at cs
    → len ≡ length pre
    → length (short_text cs separator) < length gap
    → (r : List ℕ) × (short_loop (length cs) at dir_bytes len separator (pre ++ gap) ≡ some r)
      × EndsAfter (pre ++ short_text cs separator) r
unfolding short_loop
short_loop-text [] dir_bytes at len separator pre [] read l h = absurd (omega arith)
short_loop-text [] dir_bytes at len separator pre (g ∷ gap) read l h = (
  pre ++ 0 ∷ gap,
  put_next pre g gap len 0 l,
  (gap, ap (λ p. p ++ 0 ∷ gap) (sym (append-nil pre))),
)
short_loop-text (c ∷ cs) dir_bytes at len separator pre gap (there, read) l h =
    elim (Bool-cases (is_kept c)) [
      | inr padding ↦
          let same = text-padding c cs separator padding in
          let (r, done, text) =
            short_loop-text cs dir_bytes (at + 1) len true pre gap read l
              (omega (arith, ap length same)) in
          (r, rw (there, padding) done, subst (λ t. EndsAfter (pre ++ t) r) (sym same) text)
      | inl kept ↦
          let same = text-kept c cs separator kept in
          let size = ap length same ∙ length-append (piece separator c) (short_text cs false) in
          let (gap', put_it, left) = put_piece c separator len pre gap l (omega (arith, size)) in
          let (r, done, (rest, text)) =
            short_loop-text cs dir_bytes (at + 1) (length (pre ++ piece separator c)) false
              (pre ++ piece separator c) gap' read refl (omega (arith, size, left)) in
          (
            r,
            rw (there, kept, put_it) done,
            (
              rest,
              text
                  ∙ ap (λ p. p ++ 0 ∷ rest)
                      (append_assoc pre (piece separator c) (short_text cs false)
                        ∙ ap (λ t. pre ++ t) (sym same)),
            ),
          )
    ]
