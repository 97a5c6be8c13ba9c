-- ===== src/Std/Tokens/Words.antt =====
-- What it means to split a text at a delimiter.
use muk.Prelude.{
  ℕ, suc, ◌≡◌, ◌≢◌, refl, List, [], ◌∷◌, ◌++◌, Bool, true, false, ◌==◌, if◌then◌else◌, replicate,
  arith, inl, inr, Bool-cases,
}
use muk.Std.Cstring.{IsText}

abbrev add_first : ℕ → List (List ℕ) → List (List ℕ)
add_first c [] = (c ∷ []) ∷ []
add_first c (w ∷ ws) = (c ∷ w) ∷ ws

-- The words of a text. A row of delimiters parts two words, one at the front stands behind an empty
-- word, and one at the end counts for nothing. `gap` is that a row of delimiters has just been read.
unfoldable pub words : ℕ → Bool → List ℕ → List (List ℕ)
words d true [] = []
words d false [] = [] ∷ []
words d gap (c ∷ s) = elim (c == d) [
  | true ↦ if gap then words d true s else [] ∷ words d true s
  | false ↦ add_first c (words d false s)
]

-- The words of what stands behind a row of delimiters.
abbrev pub rest_words : ℕ → List ℕ → List (List ℕ)
rest_words d [] = []
rest_words d (c ∷ s) = words d false (c ∷ s)

abbrev pub StartsOther : ℕ → List ℕ → Type 0
StartsOther d [] = Unit
StartsOther d (c ∷ s) = c ≢ d

-- Characters of one word
abbrev pub AreOthers : ℕ → List ℕ → Type 0
AreOthers d [] = Unit
AreOthers d (c ∷ s) = (c ≢ 0) × (c ≢ d) × AreOthers d s

-- A text that is taken apart into its first word, a row of delimiters and the rest.
pub record Cut (d : ℕ) (s : List ℕ) : Type 0 where
  pub word : List ℕ
  pub gap : ℕ
  pub after : List ℕ
  pub parts : s ≡ word ++ (replicate gap d ++ after)
  pub others : AreOthers d word
  pub ends_word : gap ≡ 0 → after ≡ []
  pub starts : StartsOther d after
  pub text : IsText after
  pub reads : words d false s ≡ word ∷ rest_words d after

pub record Gap (d : ℕ) (s : List ℕ) : Type 0 where
  pub gap : ℕ
  pub after : List ℕ
  pub parts : s ≡ replicate gap d ++ after
  pub starts : StartsOther d after
  pub text : IsText after
  pub reads : words d true s ≡ rest_words d after

skip : (d : ℕ) (s : List ℕ) → IsText s → Gap d s
unfolding words
skip d [] h = record { gap = 0; after = []; parts = refl; starts = tt; text = tt; reads = refl }
skip d (c ∷ s) (c_lem, h) = elim (Bool-cases (c == d)) [
  | inl same ↦
      let rest = skip d s h in
      let equal : c ≡ d = ground arith in
      record {
        gap = suc rest.gap;
        after = rest.after;
        parts = cc (equal, rest.parts);
        starts = rest.starts;
        text = rest.text;
        reads = cc (same, rest.reads);
      }
  | inr other ↦ record {
    gap = 0;
    after = c ∷ s;
    parts = refl;
    starts = ground arith;
    text = (c_lem, h);
    reads = cc other;
  }
]

-- Every text has a first word.
pub cut : (d : ℕ) (s : List ℕ) → IsText s → Cut d s
unfolding words
cut d [] h = record {
  word = [];
  gap = 0;
  after = [];
  parts = refl;
  others = tt;
  ends_word = λ e. refl;
  starts = tt;
  text = tt;
  reads = refl;
}
cut d (c ∷ s) (c_lem, h) = elim (Bool-cases (c == d)) [
  | inl same ↦
      let rest = skip d s h in
      let equal : c ≡ d = ground arith in
      record {
        word = [];
        gap = suc rest.gap;
        after = rest.after;
        parts = cc (equal, rest.parts);
        others = tt;
        ends_word = λ e. absurd (omega (arith, e));
        starts = rest.starts;
        text = rest.text;
        reads = cc (same, rest.reads);
      }
  | inr other ↦
      let rest = cut d s h in
      record {
        word = c ∷ rest.word;
        gap = rest.gap;
        after = rest.after;
        parts = cc rest.parts;
        others = (c_lem, (ground arith), rest.others);
        ends_word = rest.ends_word;
        starts = rest.starts;
        text = rest.text;
        reads = cc (other, rest.reads);
      }
]
