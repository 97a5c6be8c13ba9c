-- ===== src/Drivers/Keyboard/Keys.antt =====
-- The characters of the pressed keys wait in the buffer in their order, and `getc` takes the first.
use muk.Prelude.{
  ℕ, zero, suc, ◌+◌, ◌-◌, ◌≤◌, ◌≡◌, ◌≢◌, refl, sym, ap, ap₂, subst, ◌∙◌, inl, inr, List, [], ◌∷◌,
  ◌++◌, none, some, Bool, true, false, ◌||◌, ◌==◌, if◌then◌else◌, leb, ltb, length, get_or, bit_and,
  Bool-cases, arith,
}
use muk.Std.Ringbuffer.{Buffer, buffer_read, buffer_write}
use muk.Std.Ringbuffer.Refine.{
  IsValid, contents, queue_write, write_refines, read_refines, size-buffer_write,
}
use muk.Drivers.Keyboard.{keyboard_map, keyboard_irq, interrupts, getc_loop, getc}
use muk.Proc.Message.Ports.{MessageQueue, send_message}

-- The characters of the interrupts that bring a pressed key.
abbrev pub typed : List (ℕ × ℕ) → List ℕ
typed [] = []
typed ((status, keycode) ∷ irqs) =
    if bit_and status 1 == 0 || leb 128 keycode
    then typed irqs
    else get_or keyboard_map keycode 0 ∷ typed irqs

-- A queue with room for `room` bytes, after the bytes were offered to it: a full one refuses.
abbrev pub offered : ℕ → List ℕ → List ℕ → List ℕ
offered room q [] = q
offered room q (c ∷ cs) = offered room (queue_write room q c).1 cs

-- One interrupt
irq_lem :
    (status keycode : ℕ) (b : Buffer)
    → IsValid b
    → (contents (keyboard_irq status keycode b)
        ≡ offered (b.size - 1) (contents b) (typed ((status, keycode) ∷ [])))
      × IsValid (keyboard_irq status keycode b)
      × ((keyboard_irq status keycode b).size ≡ b.size)
unfolding keyboard_irq
irq_lem status keycode b ok = elim (Bool-cases (bit_and status 1 == 0)) [
  | inl mute ↦ (cc mute, subst (λ t. IsValid (if t then b else pressed)) (sym mute) ok, cc mute)
  | inr ready ↦ elim (Bool-cases (leb 128 keycode)) [
    | inl released ↦ (
      cc (ready, released),
      subst (λ t. IsValid (if bit_and status 1 == 0 then b else if t then b else written))
          (sym released) (subst (λ t. IsValid (if t then b else b)) (sym ready) ok),
      cc (ready, released),
    )
    | inr down ↦
        let (e, ok') = write_refines b c ok in
        (
          cc (ready, down, ap (λ r. r.1) e),
          rw (ready, down) ok',
          cc (ready, down, size-buffer_write b c),
        )
  ]
]
  where
    c : ℕ
    c = get_or keyboard_map keycode 0

    written : Buffer
    written = (buffer_write b c).1

    pressed : Buffer
    pressed = if leb 128 keycode then b else written

offered_one :
    (room : ℕ) (nothing : Bool) (q rest : List ℕ) (c : ℕ)
    → offered room (offered room q (if nothing then [] else c ∷ [])) rest
      ≡ offered room q (if nothing then rest else c ∷ rest)
offered_one room true q rest c = refl
offered_one room false q rest c = refl

-- Whatever interrupts come, the buffer holds what a queue of `size - 1` bytes holds that was offered the
-- characters of the pressed keys, in their order; releases of keys and other interrupts change nothing.
pub interrupts_lem :
    (irqs : List (ℕ × ℕ)) (b : Buffer)
    → IsValid b
    → (contents (interrupts irqs b) ≡ offered (b.size - 1) (contents b) (typed irqs))
      × IsValid (interrupts irqs b)
unfolding interrupts
interrupts_lem [] b ok = (refl, ok)
interrupts_lem ((status, keycode) ∷ irqs) b ok =
    let (e, ok', size) = irq_lem status keycode b ok in
    let (rest, last) = interrupts_lem irqs (keyboard_irq status keycode b) ok' in
    (
      rest
          ∙ ap (λ n. offered (n - 1) (contents (keyboard_irq status keycode b)) (typed irqs)) size
          ∙ ap (λ q. offered (b.size - 1) q (typed irqs)) e
          ∙ offered_one (b.size - 1) (bit_and status 1 == 0 || leb 128 keycode) (contents b)
              (typed irqs) (get_or keyboard_map keycode 0),
      last,
    )

-- The oldest character stays the oldest.
offered-cons : (room c : ℕ) (q cs : List ℕ) → (q' : List ℕ) × (offered room (c ∷ q) cs ≡ c ∷ q')
offered-cons room c q [] = (q, refl)
offered-cons room c q (d ∷ cs) = elim (Bool-cases (ltb (length (c ∷ q)) room)) [
  | inl free ↦ let (q', e) = offered-cons room c (q ++ d ∷ []) cs in (q', rw free e)
  | inr full ↦ let (q', e) = offered-cons room c q cs in (q', rw full e)
]

step_ready :
    (n loops : ℕ) (halts : ℕ → List (ℕ × ℕ)) (thread_id : ℕ) (b : Buffer) (qs qs' : MessageQueue)
    (c : ℕ)
    → (buffer_read b).0 ≡ some c
    → c ≢ 255
    → send_message qs 1 (record { source_thread = thread_id; payload = c }) ≡ some qs'
    → getc_loop (suc n) loops halts thread_id b qs ≡ some (some c, (buffer_read b).1, qs')
unfolding getc_loop
step_ready n loops halts thread_id b qs qs' c first other sent =
    let key : (c == 255) ≡ false = ground arith in cc (first, key, sent)

step_empty :
    (n loops : ℕ) (halts : ℕ → List (ℕ × ℕ)) (thread_id : ℕ) (b : Buffer) (qs : MessageQueue)
    → (buffer_read b).0 ≡ none
    → getc_loop (suc n) loops halts thread_id b qs
      ≡ getc_loop n (loops + 1) halts thread_id (interrupts (halts loops) (buffer_read b).1) qs
unfolding getc_loop
step_empty n loops halts thread_id b qs nothing = cc nothing

-- `getc` on a buffer that holds a character
getc_ready :
    (halts : ℕ → List (ℕ × ℕ)) (thread_id : ℕ) (b : Buffer) (qs qs' : MessageQueue) (c : ℕ)
    (q : List ℕ)
    → IsValid b
    → contents b ≡ c ∷ q
    → c ≢ 255
    → send_message qs 1 (record { source_thread = thread_id; payload = c }) ≡ some qs'
    → (getc halts thread_id b qs ≡ some (some c, (buffer_read b).1, qs'))
      × (contents (buffer_read b).1 ≡ q)
unfolding getc
getc_ready halts thread_id b qs qs' c q ok holds other sent =
    let (e, ok') = read_refines b ok in
    let first : (buffer_read b).0 ≡ some c = cc (e, holds) in
    (step_ready 1023 0 halts thread_id b qs qs' c first other sent, cc (e, holds))

-- After interrupts on a valid buffer of at least two bytes that holds nothing, where the first key that was pressed
-- has a character other than 255 and port 1 takes it, `getc` returns this character and sends it to port 1,
-- without waiting. It leaves in the buffer those of the later characters that a queue of one byte less
-- than the buffer took behind it, in their order; the others are lost.
pub getc-interrupts :
    (halts : ℕ → List (ℕ × ℕ)) (thread_id : ℕ) (irqs : List (ℕ × ℕ)) (b : Buffer)
    (qs qs' : MessageQueue) (c : ℕ) (cs : List ℕ)
    → IsValid b
    → 2 ≤ b.size
    → contents b ≡ []
    → typed irqs ≡ c ∷ cs
    → c ≢ 255
    → send_message qs 1 (record { source_thread = thread_id; payload = c }) ≡ some qs'
    → (b' : Buffer) × (getc halts thread_id (interrupts irqs b) qs ≡ some (some c, b', qs'))
      × (c ∷ contents b' ≡ offered (b.size - 1) [] (c ∷ cs))
getc-interrupts halts thread_id irqs b qs qs' c cs ok size empty keys other sent =
    let (e, ok') = interrupts_lem irqs b ok in
    let free : ltb 0 (b.size - 1) ≡ true = ground arith in
    let (q, same) = offered-cons (b.size - 1) c [] cs in
    let whole : offered (b.size - 1) [] (c ∷ cs) ≡ c ∷ q = rw free same in
    let holds : contents (interrupts irqs b) ≡ c ∷ q =
      e ∙ ap₂ (λ q ks. offered (b.size - 1) q ks) empty keys ∙ whole in
    let (done, left) =
      getc_ready halts thread_id (interrupts irqs b) qs qs' c q ok' holds other sent in
    ((buffer_read (interrupts irqs b)).1, done, ap (λ l. c ∷ l) left ∙ sym whole)

-- While no key is pressed the loop goes on to its end.
idle_loop :
    (n loops : ℕ) (halts : ℕ → List (ℕ × ℕ)) (thread_id : ℕ) (b : Buffer) (qs : MessageQueue)
    → IsValid b
    → contents b ≡ []
    → ((k : ℕ) → typed (halts k) ≡ [])
    → (b' : Buffer) × (getc_loop n loops halts thread_id b qs ≡ some (none, b', qs))
      × (contents b' ≡ [])
unfolding getc_loop
idle_loop zero loops halts thread_id b qs ok empty idle = (b, refl, empty)
idle_loop (suc n) loops halts thread_id b qs ok empty idle =
    let (e, ok') = read_refines b ok in
    let nothing : (buffer_read b).0 ≡ none = cc (e, empty) in
    let still : contents (buffer_read b).1 ≡ [] = cc (e, empty) in
    let (fed, ok'') = interrupts_lem (halts loops) (buffer_read b).1 ok' in
    let (b', done, left) =
      idle_loop n (loops + 1) halts thread_id (interrupts (halts loops) (buffer_read b).1) qs ok''
        (fed ∙ ap₂ (λ q ks. offered ((buffer_read b).1.size - 1) q ks) still (idle loops)) idle in
    (b', step_empty n loops halts thread_id b qs nothing ∙ done, left)

-- When no key is pressed, `getc` comes to the end of its 1024 rounds, where it returns no value, and sends
-- nothing.
pub getc_idle :
    (halts : ℕ → List (ℕ × ℕ)) (thread_id : ℕ) (b : Buffer) (qs : MessageQueue)
    → IsValid b
    → contents b ≡ []
    → ((k : ℕ) → typed (halts k) ≡ [])
    → (b' : Buffer) × (getc halts thread_id b qs ≡ some (none, b', qs)) × (contents b' ≡ [])
unfolding getc
getc_idle halts thread_id b qs ok empty idle = idle_loop 1024 0 halts thread_id b qs ok empty idle
