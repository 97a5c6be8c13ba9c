-- ===== src/Cxxabi.antt =====
-- kernel/icxxabi.cpp and include/kernel/icxxabi.hpp: the table of the functions that run at exit. A pointer is
-- its address, and a call of a function is an entry of a list of calls.
pub mod Order
pub mod Removal
mod Tests
use muk.Prelude.{
  ℕ, zero, suc, ◌+◌, ◌-◌, ◌^◌, List, [], ◌∷◌, Option, some, Bool, ◌==◌, if◌then◌else◌, leb, ◌>>=◌,
  get_elem?,
}
use muk.Std.Vector.{put}

-- An `atexit_func_entry_t`
pub record ExitFunc : Type 0 where
  pub destructor_func : ℕ
  pub obj_ptr : ℕ
  pub dso_handle : ℕ

pub record ExitFuncs : Type 0 where
  pub funcs : List ExitFunc
  pub func_count : ℕ

abbrev pub atexit_max_funcs : ℕ
atexit_max_funcs = 128

-- `__cxa_atexit`, with the value that it returns
unfoldable pub cxa_atexit : ExitFuncs → ℕ → ℕ → ℕ → Option (ℕ × ExitFuncs)
cxa_atexit t f obj dso =
    if leb atexit_max_funcs t.func_count
    then some (2 ^ 32 - 1, t)
    else put t.funcs t.func_count (record { destructor_func = f; obj_ptr = obj; dso_handle = dso })
      >>= λ funcs. some (0, record { funcs = funcs; func_count = t.func_count + 1 })

-- A function and its argument
abbrev pub Call : Type 0
Call = ℕ × ℕ

-- The loop that calls every function that is left
unfoldable pub call_all : ℕ → List ExitFunc → Option (List Call)
call_all zero funcs = some []
call_all (suc i) funcs = get_elem? funcs i >>= λ e. call_all i funcs >>= λ calls.
    some (if e.destructor_func == 0 then calls else (e.destructor_func, e.obj_ptr) ∷ calls)

-- The loop that calls the entries of one function and takes them out
unfoldable pub call_one : ℕ → ℕ → List ExitFunc → Option (List Call × List ExitFunc)
call_one f zero funcs = some ([], funcs)
call_one f (suc i) funcs = get_elem? funcs i >>= λ e.
    (if e.destructor_func == f
      then put funcs i
          (record { destructor_func = 0; obj_ptr = e.obj_ptr; dso_handle = e.dso_handle })
      else some funcs)
    >>= λ funcs. call_one f i funcs >>= λ (calls, funcs).
        some (if e.destructor_func == f then (f, e.obj_ptr) ∷ calls else calls, funcs)

-- `__cxa_finalize`, with the calls that it makes
unfoldable pub cxa_finalize : ExitFuncs → ℕ → Option (List Call × ExitFuncs)
cxa_finalize t f =
    if f == 0
    then (call_all t.func_count t.funcs >>= λ calls. some (calls, t))
    else call_one f t.func_count t.funcs >>= λ (calls, funcs).
        some (calls, record { funcs = funcs; func_count = t.func_count })
