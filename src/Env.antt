-- ===== src/Env.antt =====
-- kernel/user/env.cpp, the environment, and kernel/ext.cpp, the commands. A vector is the list of its elements,
-- as Std/Vector has it, and a key the bytes from its pointer on. `none` is a read outside of an array.
pub mod Commands
pub mod Lookup
mod Tests
use muk.Prelude.{ℕ, List, [], ◌∷◌, Option, none, some, Bool, true, false, if◌then◌else◌, ◌>>=◌}
use muk.Std.Cstring.{strcmp}
use muk.Std.Text.{Text, of_chars, to_chars, copy_of, is_zero}

-- A `pair`
pub record Variable : Type 0 where
  pub key : List ℕ
  pub value : Text

-- `ENV::get`
unfoldable pub get_variable : List Variable → List ℕ → Option Text
get_variable [] name = of_chars (0 ∷ [])
get_variable (v ∷ env) name =
    let rest = get_variable env name in
    strcmp v.key name >>= λ order. if is_zero order then copy_of v.value else rest

-- `ENV::set`
unfoldable pub set_variable : List Variable → Text → Text → Option (List Variable)
set_variable [] name val = to_chars name >>= λ key.
    copy_of val >>= λ value. some (record { key = key; value = value } ∷ [])
set_variable (v ∷ env) name val =
    let rest = set_variable env name val in
    to_chars name >>= λ key. strcmp v.key key >>= λ order.
    if is_zero order
    then (copy_of val >>= λ value. some (record { key = v.key; value = value } ∷ env))
    else rest >>= λ env. some (v ∷ env)

-- A `CmdPair`: a name, and the address of its function
pub record CmdPair : Type 0 where
  pub cmd : Text
  pub ptr : ℕ

-- `Library::add`
unfoldable pub add_command : List CmdPair → List ℕ → ℕ → Option (List CmdPair)
add_command [] cmd ptr = of_chars cmd >>= λ name. some (record { cmd = name; ptr = ptr } ∷ [])
add_command (c ∷ commands) cmd ptr =
    add_command commands cmd ptr >>= λ commands. some (c ∷ commands)

-- `Library::present`. getCmd copies the string.
unfoldable pub present : List CmdPair → List ℕ → Option Bool
present [] cmd = some false
present (c ∷ commands) cmd =
    let rest = present commands cmd in
    copy_of c.cmd >>= λ name.
    to_chars name >>= λ name. strcmp name cmd >>= λ order. if is_zero order then some true else rest

-- `Library::get`, 0 for the null pointer
unfoldable pub get_command : List CmdPair → List ℕ → Option ℕ
get_command [] cmd = some 0
get_command (c ∷ commands) cmd =
    let rest = get_command commands cmd in
    copy_of c.cmd >>= λ name. to_chars name >>= λ name.
    strcmp name cmd >>= λ order. if is_zero order then some c.ptr else rest
