-- ===== src/Env/Commands.antt =====
-- What is found in the library of commands.
use muk.Prelude.{
  ℕ, ◌-◌, ◌^◌, ◌<◌, ◌≡◌, ◌≢◌, refl, sym, List, [], ◌∷◌, ◌++◌, some, Bool, true, false,
  if◌then◌else◌, length, inl, inr,
}
use muk.Std.Cstring.{IsText}
use muk.Std.Text.Roundtrip.{text_of, to_chars-text, of_chars-text}
use muk.Env.{CmdPair, add_command, present, get_command}
use muk.Std.Text.Equal.{compared, copied, same_text, unlike_texts}

-- Every name is a text.
abbrev pub AreNames : List CmdPair → Type 0
AreNames [] = Unit
AreNames (c ∷ commands) =
    ((k : List ℕ) × IsText k × (length k < 2 ^ 32 - 1) × (c.cmd ≡ text_of k)) × AreNames commands

-- A command that has been added is present, and `get` gives its function, or the one that was added first
-- if the name was there before. Every other name is present or not, and has its function, as before. All
-- names are texts of less than 2 ^ 32 - 1 bytes.
pub add_command_lem :
    (commands : List CmdPair) (name other r p q : List ℕ) (ptr : ℕ)
    → AreNames commands
    → IsText name
    → IsText other
    → other ≢ name
    → length name < 2 ^ 32 - 1
    → (commands' : List CmdPair) × (there : Bool) × (add_command commands (name ++ 0 ∷ r) ptr
        ≡ some commands')
      × (present commands (name ++ 0 ∷ p) ≡ some there)
      × (present commands' (name ++ 0 ∷ p) ≡ some true)
      × (get_command commands' (name ++ 0 ∷ p)
          ≡ (if there then get_command commands (name ++ 0 ∷ p) else some ptr))
      × (present commands' (other ++ 0 ∷ q) ≡ present commands (other ++ 0 ∷ q))
      × (get_command commands' (other ++ 0 ∷ q) ≡ get_command commands (other ++ 0 ∷ q))
unfolding add_command present get_command
add_command_lem [] name other r p q ptr names text text' differ small =
    let (x, now, is) = same_text name [] p text in
    let (y, then_other, isnt) = unlike_texts name other [] q text text' (λ e. differ (sym e)) in
    let copy = copied name small in
    let chars = to_chars-text name small in
    (
      record { cmd = text_of name; ptr = ptr } ∷ [],
      false,
      cc (of_chars-text name r text),
      refl,
      cc (copy, chars, now, is),
      cc (copy, chars, now, is),
      cc (copy, chars, then_other, isnt),
      cc (copy, chars, then_other, isnt),
    )
add_command_lem (c ∷ commands) name other r p q ptr ((k, key, fits, e), names) text text' differ
      small =
    let (commands', there, added, was, is_there, got, same_other, same_get) =
      add_command_lem commands name other r p q ptr names text text' differ small in
    let (x, now, answer) = compared k name [] p key text in
    let (y, then_other, any) = compared k other [] q key text' in
    let copy = copied k fits in
    let chars = to_chars-text k fits in
    elim answer [
      | inl (same, is) ↦ (
        c ∷ commands',
        true,
        cc added,
        cc (e, copy, chars, now, is),
        cc (e, copy, chars, now, is),
        cc (e, copy, chars, now, is),
        cc (e, copy, chars, then_other, same_other),
        cc (e, copy, chars, then_other, same_get),
      )
      | inr (unlike, isnt) ↦ (
        c ∷ commands',
        there,
        cc added,
        cc (e, copy, chars, now, isnt, was),
        cc (e, copy, chars, now, isnt, is_there),
        cc (e, copy, chars, now, isnt, got),
        cc (e, copy, chars, then_other, same_other),
        cc (e, copy, chars, then_other, same_get),
      )
    ]
