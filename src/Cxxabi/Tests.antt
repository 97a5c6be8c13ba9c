-- ===== src/Cxxabi/Tests.antt =====
-- Registrations and their calls.
use muk.Prelude.{◌≡◌, refl, List, [], ◌∷◌, ◌++◌, some, replicate, map, arith}
use muk.Cxxabi.{ExitFunc, ExitFuncs, cxa_finalize}
use muk.Cxxabi.Removal.{cleared, one_calls, finalize_once}
use muk.Cxxabi.Order.{Holds}

abbrev no_func : ExitFunc
no_func = record { destructor_func = 0; obj_ptr = 0; dso_handle = 0 }

abbrev no_funcs : ExitFuncs
no_funcs = record { funcs = replicate 128 no_func; func_count = 0 }

abbrev streams : ExitFunc
streams = record { destructor_func = 4096; obj_ptr = 7; dso_handle = 0 }

abbrev screen : ExitFunc
screen = record { destructor_func = 8192; obj_ptr = 9; dso_handle = 0 }

abbrev three : List ExitFunc
three = streams ∷ screen ∷ record { destructor_func = 4096; obj_ptr = 8; dso_handle = 0 } ∷ []

finalize_once_example :
    (t' : ExitFuncs) × (cxa_finalize
        (record { funcs = three ++ replicate 125 no_func; func_count = 3 })
        4096
      ≡ some ((4096, 8) ∷ (4096, 7) ∷ [], t'))
    × Holds t' (map (cleared 4096) three)
    × (cxa_finalize t' 4096 ≡ some ([], t'))
unfolding one_calls
finalize_once_example =
    finalize_once 4096 three (record { funcs = three ++ replicate 125 no_func; func_count = 3 })
      (omega arith) (replicate 125 no_func, refl, refl, refl)
