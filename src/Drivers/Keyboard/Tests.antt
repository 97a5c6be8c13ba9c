-- ===== src/Drivers/Keyboard/Tests.antt =====
-- Two keys on an empty buffer of four places.
use muk.Prelude.{ℕ, ◌≡◌, refl, List, [], ◌∷◌, some, replicate, length, arith}
use muk.Std.Ringbuffer.{Buffer}
use muk.Std.Ringbuffer.Refine.{IsValid, contents}
use muk.Drivers.Keyboard.{keyboard_map, interrupts, getc, kb_line}
use muk.Drivers.Keyboard.Keys.{typed, offered, getc-interrupts}
use muk.Proc.Message.Ports.{MessageQueue}

abbrev empty_buffer : Buffer
empty_buffer = record { head = 3; tail = 3; size = 4; buffer = replicate 4 0 }

empty_buffer-IsValid : IsValid empty_buffer
empty_buffer-IsValid = record {
  storage = omega arith;
  head_in = omega arith;
  tail_in = omega arith;
}

-- l is pressed and released, then s is pressed.
abbrev ls_keys : List (ℕ × ℕ)
ls_keys = (1, 38) ∷ (1, 166) ∷ (29, 31) ∷ []

full_map : length keyboard_map ≡ 128
unfolding keyboard_map
full_map = refl

ls_keys-typed : typed ls_keys ≡ 108 ∷ 115 ∷ []
unfolding keyboard_map
ls_keys-typed = refl

abbrev never : ℕ → List (ℕ × ℕ)
never k = []

nobody_listens :
    muk.Proc.Message.Ports.send_message [] 1 (record { source_thread = 1; payload = 108 }) ≡ some []
unfolding muk.Proc.Message.Ports.send_message muk.Proc.Message.Ports.search
nobody_listens = refl

getc-interrupts_example :
    (b' : Buffer) × (getc never 1 (interrupts ls_keys empty_buffer) [] ≡ some (some 108, b', []))
    × (108 ∷ contents b' ≡ offered 3 [] (108 ∷ 115 ∷ []))
getc-interrupts_example =
    getc-interrupts never 1 ls_keys empty_buffer [] [] 108 (115 ∷ []) empty_buffer-IsValid
      (omega arith) refl ls_keys-typed (λ e. omega arith) nobody_listens

-- Each character takes two places of the line.
gaps : kb_line (97 ∷ 98 ∷ 10 ∷ []) 0 (replicate 6 0) ≡ some (97 ∷ 0 ∷ 98 ∷ 0 ∷ 0 ∷ 0 ∷ [])
unfolding kb_line muk.Std.Vector.put
gaps = refl
