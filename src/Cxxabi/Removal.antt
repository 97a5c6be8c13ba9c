-- ===== src/Cxxabi/Removal.antt =====
-- The calls of one function at exit, and what they leave in the table.
use mathlib.Core.List.{append_assoc, append-nil}
use muk.Prelude.{
  ℕ, zero, suc, ◌≡◌, ◌≢◌, refl, sym, ap, List, [], ◌∷◌, ◌++◌, some, inl, inr, false, ◌==◌,
  if◌then◌else◌, map, length, length-append, arith, Bool-cases,
}
use muk.Std.Vector.Writes.{put_next, get_elem?_next}
use muk.Cxxabi.{ExitFunc, ExitFuncs, Call, call_one, cxa_finalize}
use muk.Cxxabi.Order.{Holds}

-- An entry when the function `f` has been taken out.
abbrev pub cleared : ℕ → ExitFunc → ExitFunc
cleared f e = record {
  destructor_func = (if e.destructor_func == f then 0 else e.destructor_func);
  obj_ptr = e.obj_ptr;
  dso_handle = e.dso_handle;
}

abbrev one_call : ℕ → ExitFunc → List Call
one_call f e = if e.destructor_func == f then (f, e.obj_ptr) ∷ [] else []

-- The calls of the function `f`, the last entry first.
unfoldable pub one_calls : ℕ → List ExitFunc → List Call
one_calls f [] = []
one_calls f (e ∷ es) = one_calls f es ++ one_call f e

one_calls-append :
    (f : ℕ) (xs ys : List ExitFunc) → one_calls f (xs ++ ys) ≡ one_calls f ys ++ one_calls f xs
unfolding one_calls
one_calls-append f [] ys = sym (append-nil (one_calls f ys))
one_calls-append f (x ∷ xs) ys =
    cc (one_calls-append f xs ys, append_assoc (one_calls f ys) (one_calls f xs) (one_call f x))

map-append :
    (f : ExitFunc → ExitFunc) (xs ys : List ExitFunc) → map f (xs ++ ys) ≡ map f xs ++ map f ys
map-append f [] ys = refl
map-append f (x ∷ xs) ys = ap (λ l. f x ∷ l) (map-append f xs ys)

last_of :
    (n : ℕ) (xs : List ExitFunc)
    → length xs ≡ suc n
    → (pre : List ExitFunc) × (y : ExitFunc) × (xs ≡ pre ++ y ∷ []) × (length pre ≡ n)
last_of n [] e = absurd (omega arith)
last_of zero (x ∷ []) e = ([], x, refl, refl)
last_of zero (x ∷ y ∷ xs) e = absurd (omega arith)
last_of (suc n) (x ∷ xs) e =
    let (pre, y, split, size) = last_of n xs (omega arith) in
    (x ∷ pre, y, ap (λ l. x ∷ l) split, ap suc size)

call_one_lem :
    (f n : ℕ) (xs ys : List ExitFunc)
    → length xs ≡ n
    → call_one f n (xs ++ ys) ≡ some (one_calls f xs, map (cleared f) xs ++ ys)
unfolding call_one one_calls
call_one_lem f zero [] ys e = refl
call_one_lem f zero (x ∷ xs) ys e = absurd (omega arith)
call_one_lem f (suc n) xs ys e =
    let (pre, y, split, size) = last_of n xs e in
    let whole = append_assoc pre (y ∷ []) ys in
    let here = get_elem?_next pre y ys n (sym size) in
    let made = one_calls-append f pre (y ∷ []) in
    let kept = map-append (cleared f) pre (y ∷ []) in
    let joined = append_assoc (map (cleared f) pre) (cleared f y ∷ []) ys in
    elim (Bool-cases (y.destructor_func == f)) [
      | inl found ↦ cc (
        split,
        whole,
        here,
        found,
        made,
        kept,
        joined,
        put_next pre y ys n (cleared f y) (sym size),
        call_one_lem f n pre (cleared f y ∷ ys) size,
      )
      | inr other ↦
          cc (split, whole, here, other, made, kept, joined, call_one_lem f n pre (y ∷ ys) size)
    ]

cleared_other : (f : ℕ) (e : ExitFunc) → f ≢ 0 → ((cleared f e).destructor_func == f) ≡ false
cleared_other f e h = ground arith

one_calls-cleared : (f : ℕ) (es : List ExitFunc) → f ≢ 0 → one_calls f (map (cleared f) es) ≡ []
unfolding one_calls
one_calls-cleared f [] h = refl
one_calls-cleared f (e ∷ es) h = cc (cleared_other f e h, one_calls-cleared f es h)

cleared_again :
    (f : ℕ) (es : List ExitFunc) → f ≢ 0 → map (cleared f) (map (cleared f) es) ≡ map (cleared f) es
cleared_again f [] h = refl
cleared_again f (e ∷ es) h = cc (cleared_other f e h, cleared_again f es h)

length-map : (f : ExitFunc → ExitFunc) (xs : List ExitFunc) → length (map f xs) ≡ length xs
length-map f [] = refl
length-map f (x ∷ xs) = ap suc (length-map f xs)

-- `__cxa_finalize` of a function calls its entries, each with its object, the last one first, and takes this function
-- out of them; all other entries stay. A second `__cxa_finalize` of it calls nothing and changes nothing.
pub finalize_once :
    (f : ℕ) (es : List ExitFunc) (t : ExitFuncs)
    → f ≢ 0
    → Holds t es
    → (t' : ExitFuncs) × (cxa_finalize t f ≡ some (one_calls f es, t'))
      × Holds t' (map (cleared f) es)
      × (cxa_finalize t' f ≡ some ([], t'))
unfolding cxa_finalize
finalize_once f es t h (rest, e, n, size) =
    let go : (f == 0) ≡ false = ground arith in
    let size' = length-map (cleared f) es in
    let twice : call_one f t.func_count (map (cleared f) es ++ rest)
        ≡ some ([], map (cleared f) es ++ rest) =
      cc (
        call_one_lem f t.func_count (map (cleared f) es) rest (omega (arith, n, size')),
        one_calls-cleared f es h,
        cleared_again f es h,
      ) in
    (
      record { funcs = map (cleared f) es ++ rest; func_count = t.func_count },
      cc (go, e, call_one_lem f t.func_count es rest (sym n)),
      (
        rest,
        refl,
        omega (arith, n, size'),
        omega (
          arith,
          ap length e,
          size,
          size',
          length-append es rest,
          length-append (map (cleared f) es) rest,
        ),
      ),
      cc (go, twice),
    )
