-- ===== src/Cxxabi/Order.antt =====
-- The order in which the functions run at exit.
use mathlib.Core.List.{append_assoc, append-nil}
use muk.Prelude.{
  ℕ, suc, ◌+◌, ◌≤◌, ◌≡◌, refl, sym, ap, subst, List, [], ◌∷◌, ◌++◌, Option, some, Bool, true, false,
  ◌==◌, if◌then◌else◌, leb, ◌>>=◌, length, length-append, arith,
}
use muk.Std.Vector.{put}
use muk.Std.Vector.Writes.{put_next, get_elem?_next}
use muk.Cxxabi.{ExitFunc, ExitFuncs, Call, call_all, cxa_atexit, cxa_finalize}

abbrev call_of : ExitFunc → List Call
call_of e = if e.destructor_func == 0 then [] else (e.destructor_func, e.obj_ptr) ∷ []

-- The calls that a row of entries stands for, the last entry first.
unfoldable pub calls_back : List ExitFunc → List Call
calls_back [] = []
calls_back (e ∷ es) = calls_back es ++ call_of e

if-append :
    (b : Bool) (c : Call) (calls : List Call)
    → (if b then calls else c ∷ calls) ≡ (if b then [] else c ∷ []) ++ calls
if-append true c calls = refl
if-append false c calls = refl

call_next :
    (pre : List ExitFunc) (x : ExitFunc) (gap : List ExitFunc) (calls : List Call)
    → call_all (length pre) (pre ++ x ∷ gap) ≡ some calls
    → call_all (suc (length pre)) (pre ++ x ∷ gap) ≡ some (call_of x ++ calls)
unfolding call_all
call_next pre x gap calls h = cc (
  get_elem?_next pre x gap (length pre) refl,
  h,
  if-append (x.destructor_func == 0) (x.destructor_func, x.obj_ptr) calls,
)

call_all_lem :
    (pre es rest : List ExitFunc) (i : ℕ) (calls : List Call)
    → call_all (length pre) (pre ++ (es ++ rest)) ≡ some calls
    → i ≡ length pre + length es
    → call_all i (pre ++ (es ++ rest)) ≡ some (calls_back es ++ calls)
unfolding calls_back
call_all_lem pre [] rest i calls h e = let same : i ≡ length pre = omega arith in rw same h
call_all_lem pre (x ∷ es) rest i calls h e =
    let more : length (pre ++ x ∷ []) ≡ suc (length pre) =
      omega (arith, length-append pre (x ∷ [])) in
    let moved = append_assoc pre (x ∷ []) (es ++ rest) in
    let start : call_all (length (pre ++ x ∷ [])) ((pre ++ x ∷ []) ++ (es ++ rest))
        ≡ some (call_of x ++ calls) =
      cc (more, moved, call_next pre x (es ++ rest) calls h) in
    cc (
      moved,
      call_all_lem (pre ++ x ∷ []) es rest i (call_of x ++ calls) start (omega arith),
      append_assoc (calls_back es) (call_of x) calls,
    )

-- The entries of a table
abbrev pub Holds : ExitFuncs → List ExitFunc → Type 0
Holds t es =
    (rest : List ExitFunc) × (t.funcs ≡ es ++ rest)
    × (t.func_count ≡ length es)
    × (length t.funcs ≡ 128)

-- Every entry is passed to `cxa_atexit`, the first one first, and each call returns 0.
unfoldable pub register_all : List ExitFunc → ExitFuncs → Option ExitFuncs
register_all [] t = some t
register_all (e ∷ es) t =
    cxa_atexit t e.destructor_func e.obj_ptr e.dso_handle >>= λ (result, t). register_all es t

register_lem :
    (es before : List ExitFunc) (t : ExitFuncs)
    → Holds t before
    → length before + length es ≤ 128
    → (t' : ExitFuncs) × (register_all es t ≡ some t') × Holds t' (before ++ es)
unfolding register_all cxa_atexit
register_lem [] before t (rest, e, n, size) h =
    let none_left = append-nil before in
    (t, refl, (rest, cc (e, none_left), cc (n, none_left), size))
register_lem (x ∷ es) before t ([], e, n, size) h =
    absurd (omega (arith, ap length e, length-append before []))
register_lem (x ∷ es) before t (g ∷ rest, e, n, size) h =
    let room : leb 128 t.func_count ≡ false = ground arith in
    let stored : put t.funcs t.func_count x ≡ some (before ++ x ∷ rest) =
      cc (e, put_next before g rest t.func_count x n) in
    let (t', run, holds) =
      register_lem es (before ++ x ∷ [])
        (record { funcs = before ++ x ∷ rest; func_count = t.func_count + 1 })
        (
          rest,
          sym (append_assoc before (x ∷ []) rest),
          omega (arith, length-append before (x ∷ [])),
          omega (
            arith,
            length-append before (x ∷ rest),
            length-append before (g ∷ rest),
            ap length e,
          ),
        )
        (omega (arith, length-append before (x ∷ []))) in
    (t', cc (room, stored, run), subst (Holds t') (append_assoc before (x ∷ []) es) holds)

-- When at most 128 functions are registered one after the other in an empty table, each registration succeeds, and
-- then `__cxa_finalize` of no function calls them all, each with its object, the last one first, but those whose
-- address is 0.
pub finalize-register_all :
    (es : List ExitFunc) (t : ExitFuncs)
    → Holds t []
    → length es ≤ 128
    → (t' : ExitFuncs) × (register_all es t ≡ some t')
      × (cxa_finalize t' 0 ≡ some (calls_back es, t'))
unfolding cxa_finalize call_all
finalize-register_all es t holds h =
    let (t', run, (rest, e, n, size)) = register_lem es [] t holds (omega arith) in
    (
      t',
      run,
      cc (
        e,
        call_all_lem [] es rest t'.func_count [] refl (omega (arith, n)),
        append-nil (calls_back es),
      ),
    )
