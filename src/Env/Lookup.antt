-- ===== src/Env/Lookup.antt =====
-- What is found in the environment.
use muk.Prelude.{ℕ, ◌-◌, ◌^◌, ◌<◌, ◌≡◌, ◌≢◌, sym, ◌∙◌, List, [], ◌∷◌, ◌++◌, some, length, inl, inr}
use muk.Std.Cstring.{IsText}
use muk.Std.Text.Roundtrip.{text_of, to_chars-text}
use muk.Std.Text.Equal.{compared, copied, same_text, unlike_texts}
use muk.Env.{Variable, get_variable, set_variable}

-- Every key is a C string.
abbrev pub AreKeys : List Variable → Type 0
AreKeys [] = Unit
AreKeys (v ∷ env) = ((k : List ℕ) × (r : List ℕ) × IsText k × (v.key ≡ k ++ 0 ∷ r)) × AreKeys env

-- After a variable has been set to a value, it has this value, and every other variable has the value that it had,
-- or the empty one if it was not there. The keys are C strings, and the name and the value have less than
-- 2 ^ 32 - 1 bytes.
pub set_variable_lem :
    (env : List Variable) (name val other p q : List ℕ)
    → AreKeys env
    → IsText name
    → IsText other
    → other ≢ name
    → length name < 2 ^ 32 - 1
    → length val < 2 ^ 32 - 1
    → (env' : List Variable) × (set_variable env (text_of name) (text_of val) ≡ some env')
      × (get_variable env' (name ++ 0 ∷ p) ≡ some (text_of val))
      × (get_variable env' (other ++ 0 ∷ q) ≡ get_variable env (other ++ 0 ∷ q))
unfolding set_variable get_variable
set_variable_lem [] name val other p q keys text text' differ small fits =
    let (z, run, is) = same_text name [] p text in
    let (y, run', isnt) = unlike_texts name other [] q text text' (λ e. differ (sym e)) in
    (
      record { key = name ++ 0 ∷ []; value = text_of val } ∷ [],
      cc (to_chars-text name small, copied val fits),
      cc (run, is, copied val fits),
      cc (run', isnt),
    )
set_variable_lem (v ∷ env) name val other p q ((k, r, key, e), keys) text text' differ small fits =
    let (z, run, answer) = compared k name r [] key text in
    let chars = to_chars-text name small in
    let value = copied val fits in
    elim answer [
      | inl (same, is) ↦
          let (x, now, found) = same_text k r p key in
          let (y, then_other, isnt) =
            unlike_texts k other r q key text' (λ e'. differ (sym e' ∙ same)) in
          (
            record { key = v.key; value = text_of val } ∷ env,
            cc (chars, e, run, is, value),
            cc (e, same, now, found, value),
            cc (e, then_other, isnt),
          )
      | inr (unlike, isnt) ↦
          let (env', put_there, got, kept) =
            set_variable_lem env name val other p q keys text text' differ small fits in
          let (x, now, missed) = unlike_texts k name r p key text unlike in
          let (y, then_other, any) = compared k other r q key text' in
          (
            v ∷ env',
            cc (chars, e, run, isnt, put_there),
            cc (e, now, missed, got),
            cc (e, then_other, kept),
          )
    ]
