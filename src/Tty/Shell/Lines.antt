-- ===== src/Tty/Shell/Lines.antt =====
-- What a line of the terminal does.
use mathlib.Core.List.{append_assoc}
use muk.Prelude.{
  if◌then◌else◌, ℕ, ◌+◌, ◌^◌, ◌<◌, ◌≤◌, ◌≡◌, refl, ap, subst, List, [], ◌∷◌, ◌++◌, some, Bool, true,
  false, length, length-append, replicate, map, arith, inl, inr, ◌⊎◌, Bool-cases,
}
use muk.Env.{CmdPair, present, get_command}
use muk.Std.Text.Equal.{compared, copied}
use muk.Env.Commands.{AreNames}
use muk.Std.Cstring.{IsText}
use muk.Std.Cstring.Compare.{strlen-text, IsText-append, IsText-left}
use muk.Std.Format.{text_arg}
use muk.Std.Format.Copies.{ArePlain}
use muk.Std.Format.Lines.{Renders, ends, plain, converts, vsprintf_lem}
use muk.Std.Format.Rendered.{as_text}
use muk.Std.Text.Parts.{substr_lem}
use muk.Std.Text.Roundtrip.{text_of, of_chars-text, to_chars-text}
use muk.Std.Tokens.Copied.{tokens_in-words}
use muk.Std.Tokens.Ends.{ends_in, extend_last}
use muk.Std.Text.{Text}
use muk.Std.Tokens.Words.{words, cut, AreOthers}
use muk.Word.{sub32}
use muk.Tty.Shell.{calls, shows, clip_line, reply, parse, not_found_format, printf_buffer}

clip_line_lem :
    (s junk : List ℕ)
    → IsText s
    → length s < 2 ^ 31
    → clip_line (s ++ 10 ∷ 0 ∷ junk) ≡ some (text_of s)
unfolding clip_line
clip_line_lem s junk text small =
    let line = s ++ 10 ∷ [] in
    let line_text = IsText-append s (10 ∷ []) text (omega arith) in
    let size : length line ≡ length s + 1 = length-append s (10 ∷ []) in
    let whole = append_assoc s (10 ∷ []) (0 ∷ junk) in
    let less : sub32 (length line) 1 ≡ length s = omega (arith, size) in
    cc (
      whole,
      of_chars-text line junk line_text,
      to_chars-text line (omega (arith, size)),
      strlen-text line [] line_text,
      less,
      substr_lem [] s (10 ∷ []) 0 (length s) text refl refl (omega arith),
    )

-- A library of texts answers for every name.
answers :
    (commands : List CmdPair) (name : List ℕ)
    → AreNames commands
    → IsText name
    → (found : Bool) × (fn : ℕ) × (present commands (name ++ 0 ∷ []) ≡ some found)
      × (get_command commands (name ++ 0 ∷ []) ≡ some fn)
unfolding present get_command
answers [] name h text = (false, 0, refl, refl)
answers (c ∷ commands) name ((k, key, fits, e), h) text =
    let (z, run, answer) = compared k name [] [] key text in
    let copy = copied k fits in
    let chars = to_chars-text k fits in
    let (found, fn, is_there, got) = answers commands name h text in
    elim answer [
      | inl (same, is) ↦ (true, c.ptr, cc (e, copy, chars, run, is), cc (e, copy, chars, run, is))
      | inr (unlike, isnt) ↦
          (found, fn, cc (e, copy, chars, run, isnt, is_there), cc (e, copy, chars, run, isnt, got))
    ]

-- ": command not found\n"
abbrev pub message : List ℕ
message =
    58 ∷ 32 ∷ 99 ∷ 111 ∷ 109 ∷ 109 ∷ 97 ∷ 110 ∷ 100 ∷ 32 ∷ 110 ∷ 111 ∷ 116 ∷ 32 ∷ 102 ∷ 111 ∷ 117
    ∷ 110 ∷ 100 ∷ 10 ∷ []

message-ArePlain : ArePlain message
message-ArePlain = ground arith

printf_buffer_lem :
    (w : List ℕ)
    → IsText w
    → length w < 60
    → (behind : List ℕ) × (printf_buffer not_found_format (w ++ 0 ∷ [])
        ≡ some ((w ++ message) ++ behind))
unfolding printf_buffer
printf_buffer_lem w text short =
    let size : length (w ++ message) ≡ length w + 20 = length-append w message in
    let shown : Renders (message ++ 0 ∷ []) [] (message ++ []) =
      plain 58
        (32 ∷ 99 ∷ 111 ∷ 109 ∷ 109 ∷ 97 ∷ 110 ∷ 100 ∷ 32 ∷ 110 ∷ 111 ∷ 116 ∷ 32 ∷ 102 ∷ 111 ∷ 117
          ∷ 110 ∷ 100 ∷ 10 ∷ [])
        0 message-ArePlain refl (ends [] []) in
    let (behind, run, total) =
      vsprintf_lem not_found_format (text_arg (w ++ 0 ∷ []) ∷ []) (w ++ message) [] (replicate 79 0)
        (converts 115 (text_arg (w ++ 0 ∷ [])) w (as_text [] text) shown) tt (omega (arith, size))
        (omega (arith, size)) in
    (behind, cc run)

first_word :
    (d : ℕ) (s w : List ℕ) (ws : List (List ℕ))
    → IsText s
    → words d false s ≡ w ∷ ws
    → IsText w × (length w ≤ length s)
first_word d s w ws text h =
    let k = cut d s text in
    let same : k.word ≡ w = cc (h, k.reads) in
    let begins : IsText (k.word ++ (replicate k.gap d ++ k.after)) = subst IsText k.parts text in
    (
      subst IsText same (IsText-left k.word (replicate k.gap d ++ k.after) begins),
      omega (
        arith,
        ap length same,
        ap length k.parts,
        length-append k.word (replicate k.gap d ++ k.after),
      ),
    )

-- On a line of less than 2 ^ 31 bytes with its newline, `parse` calls the function of the first word with all words,
-- if the library has it; if not, it shows the first word and that there is no such command. The heap has a NUL behind
-- the string of the line at first, and `h` up to a NUL once the first word has been copied: of two or more words, the
-- last one ends with `h` in the call, unless a space ends the line. `h` is of one word, it has less than 2 ^ 31 bytes
-- with the line, the names of the library are texts and the first word has less than 60 bytes.
pub parse_lem :
    (commands : List CmdPair) (s w junk z h y : List ℕ) (ws : List (List ℕ)) (later : Text → List ℕ)
    → AreNames commands
    → IsText s
    → AreOthers 32 h
    → length s + length h < 2 ^ 31
    → words 32 false s ≡ w ∷ ws
    → later (text_of w) ≡ h ++ 0 ∷ y
    → length w < 60
    → ((present commands (w ++ 0 ∷ []) ≡ some true)
        × ((fn : ℕ) × (get_command commands (w ++ 0 ∷ []) ≡ some fn)
            × (parse commands (0 ∷ z) later (s ++ 10 ∷ 0 ∷ junk)
                ≡ some (
                    some (
                      calls fn
                        (map text_of (w ∷ (if ends_in 32 s then ws else extend_last h ws))))))))
      ⊎ ((present commands (w ++ 0 ∷ []) ≡ some false)
          × ((behind : List ℕ) × (parse commands (0 ∷ z) later (s ++ 10 ∷ 0 ∷ junk)
                ≡ some (some (shows ((w ++ message) ++ behind))))))
unfolding parse reply
parse_lem commands s w junk z h y ws later names text others small split heap short =
    let (word, below) = first_word 32 s w ws text split in
    let clipped = clip_line_lem s junk text (omega arith) in
    let tokens =
      tokens_in-words s z [] h y w ws later 32 text (omega arith) others small split heap in
    let chars = to_chars-text w (omega arith) in
    let (found, fn, is_there, got) = answers commands w names word in
    let (behind, printed) = printf_buffer_lem w word short in
    elim (Bool-cases found) [
      | inl is ↦ inl (cc (is_there, is), (fn, got, cc (clipped, tokens, chars, is_there, is, got)))
      | inr isnt ↦
          inr (cc (is_there, isnt), (behind, cc (clipped, tokens, chars, is_there, isnt, printed)))
    ]
