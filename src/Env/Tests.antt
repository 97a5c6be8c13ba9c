-- ===== src/Env/Tests.antt =====
-- The environment and the commands on concrete texts.
use muk.Prelude.{◌≡◌, ◌≢◌, refl, ap, List, [], ◌∷◌, ◌++◌, ℕ, some, arith}
use muk.Std.Text.Roundtrip.{text_of}
use muk.Env.{Variable, CmdPair, get_variable, set_variable}
use muk.Env.Lookup.{set_variable_lem}

-- "cd" and "/"
abbrev cd : List ℕ
cd = 99 ∷ 100 ∷ []

abbrev root : List ℕ
root = 47 ∷ []

-- "ps" and "ls"
abbrev ps : List ℕ
ps = 112 ∷ 115 ∷ []

abbrev ls : List ℕ
ls = 108 ∷ 115 ∷ []

abbrev first_env : List Variable
first_env = record { key = cd ++ 0 ∷ []; value = text_of [] } ∷ []

abbrev first : List ℕ → ℕ
first [] = 0
first (c ∷ s) = c

ls-cd : ls ≢ cd
ls-cd e = let same : 108 ≡ 99 = ap first e in omega (arith, same)

ps-ls : ps ≢ ls
ps-ls e = let same : 112 ≡ 108 = ap first e in omega (arith, same)

set_variable_lem_example :
    (env' : List Variable) × (set_variable first_env (text_of cd) (text_of root) ≡ some env')
    × (get_variable env' (cd ++ 0 ∷ []) ≡ some (text_of root))
    × (get_variable env' (ls ++ 0 ∷ []) ≡ get_variable first_env (ls ++ 0 ∷ []))
set_variable_lem_example =
    set_variable_lem first_env cd root ls [] []
      ((cd, [], (omega arith, (omega arith, tt)), refl), tt) (omega arith, (omega arith, tt))
      (omega arith, (omega arith, tt)) ls-cd (omega arith) (omega arith)

abbrev first_commands : List CmdPair
first_commands = record { cmd = text_of ps; ptr = 4096 } ∷ []
