-- ===== src/Drivers/Ata/Overrun.antt =====
-- `read_u8` of two blocks or more writes outside of `buffer_short`.
use native.Mathlib.Decide.{dec_lt}
use muk.Prelude.{
  ℕ, zero, suc, ◌+◌, ◌*◌, ◌/◌, ◌<◌, ◌≤◌, ◌≡◌, refl, ◌∙◌, List, ◌∷◌, none, some, false, ltb, length,
  length-set, set, get_or, get_elem?-eq-get_or, replicate, length-replicate, bit_and, bit_or, arith,
}
use muk.Word.{u8, shr}
use muk.Std.Vector.{put}
use muk.Std.Vector.Writes.{put-inside}
use muk.Drivers.Ata.{
  Event, ins, Ata, device_offset, ata_data, read_shorts, split_shorts, blocks_u8, read_u8, prepare,
  status_drq, status_bsy, status_rdy,
}
use muk.Drivers.Ata.Waits.{wait_lem}

put-outside : (buffer : List ℕ) (i v : ℕ) → length buffer ≤ i → put buffer i v ≡ none
unfolding put
put-outside buffer i v h = let out : ltb i (length buffer) ≡ false = ground arith in rw out refl

split_shorts-some :
    (n i : ℕ) (shorts buffer : List ℕ)
    → i + n ≤ length shorts
    → (i + n) * 2 ≤ length buffer
    → (r : List ℕ) × (split_shorts n i shorts buffer ≡ some r) × (length r ≡ length buffer)
unfolding split_shorts
split_shorts-some zero i shorts buffer h k = (buffer, refl, refl)
split_shorts-some (suc n) i shorts buffer h k =
    let s = get_or shorts i 0 in
    let first = set buffer (i * 2) (u8 s) in
    let both = set first (i * 2 + 1) (bit_and (shr s 8) 255) in
    let size =
      length-set first (i * 2 + 1) (bit_and (shr s 8) 255) ∙ length-set buffer (i * 2) (u8 s) in
    let (r, done, same) =
      split_shorts-some n (i + 1) shorts both (omega arith) (omega (arith, size)) in
    (
      r,
      rw
          (
            get_elem?-eq-get_or shorts i 0 (omega arith),
            put-inside buffer (i * 2) (u8 s) (omega arith),
            put-inside first (i * 2 + 1) (bit_and (shr s 8) 255)
                (omega (arith, length-set buffer (i * 2) (u8 s))),
          )
          done,
      same ∙ size,
    )

module _ (inportb inports : List Event → ℕ → ℕ) where
  read_shorts-some :
      (n : ℕ) (ata : Ata) (i : ℕ) (buffer : List ℕ) (log : List Event)
      → i + n ≤ length buffer
      → (r : List ℕ) × (log' : List Event) × (read_shorts inportb inports n ata i buffer log
          ≡ some (r, log'))
        × (length r ≡ length buffer)
  unfolding read_shorts
  read_shorts-some zero ata i buffer log h = (buffer, log, refl, refl)
  read_shorts-some (suc n) ata i buffer log h =
      let port = device_offset ata + ata_data in
      let s = inports log port in
      let (r, log', done, same) =
        read_shorts-some n ata (i + 1) (set buffer i s) (ins port ∷ log)
          (omega (arith, length-set buffer i s)) in
      (r, log', rw (put-inside buffer i s (omega arith)) done, same ∙ length-set buffer i s)

  read_shorts-none :
      (n : ℕ) (ata : Ata) (i : ℕ) (buffer : List ℕ) (log : List Event)
      → 0 < n
      → length buffer < i + n
      → read_shorts inportb inports n ata i buffer log ≡ none
  unfolding read_shorts
  read_shorts-none zero ata i buffer log some_left h = absurd (omega arith)
  read_shorts-none (suc n) ata i buffer log some_left h =
      let s = inports log (device_offset ata + ata_data) in
      elim (dec_lt i (length buffer)) [
        | no out ↦ rw (put-outside buffer i s (omega arith)) refl
        | yes inside ↦ rw (put-inside buffer i s inside) (
            read_shorts-none n ata (i + 1) (set buffer i s)
              (ins (device_offset ata + ata_data) ∷ log) (omega arith)
              (omega (arith, length-set buffer i s)))
      ]

  -- With `n` blocks left, from `block` on, of the `total`
  blocks-none :
      (n : ℕ) (ata : Ata) (block total : ℕ) (buffer_short buffer : List ℕ) (log : List Event)
      → 2 ≤ total
      → 0 < n
      → block + n ≡ total
      → length buffer_short ≡ total * 256
      → length buffer ≡ total * 512
      → blocks_u8 inportb inports n ata block buffer_short buffer log ≡ none
  unfolding blocks_u8
  blocks-none zero ata block total buffer_short buffer log two some_left e h k =
      absurd (omega arith)
  blocks-none (suc n) ata block total buffer_short buffer log two some_left e h k =
      let (seen, polled, waited, _) = wait_lem inportb inports ata status_drq status_drq log in
      elim (dec_lt total (2 * block + 1)) [
        | yes out ↦
            rw
              (
                waited,
                read_shorts-none 256 ata (block * 512) buffer_short polled (omega arith)
                    (omega (arith, h)),
              )
              refl
        | no inside ↦
            let (shorts, read, done, same) =
              read_shorts-some 256 ata (block * 512) buffer_short polled (omega (arith, h)) in
            let (bytes, split, size) =
              split_shorts-some 256 0 shorts buffer (omega (arith, h, same)) (omega (arith, k)) in
            rw (waited, done, split)
              (blocks-none n ata (block + 1) total shorts bytes read two (omega arith) (omega arith)
                (same ∙ h) (size ∙ k))
      ]

  -- Asked for two blocks or more, `read_u8` writes outside of its array of shorts, whatever the drive
  -- answers.
  pub read_u8-overruns :
      (ata : Ata) (num_blocks offset : ℕ) (log : List Event)
      → 2 ≤ num_blocks
      → read_u8 inportb inports ata num_blocks offset log ≡ none
  unfolding read_u8 prepare
  read_u8-overruns ata num_blocks offset log two =
      let (seen, polled, waited, _) =
        wait_lem inportb inports ata (bit_or status_bsy status_rdy) status_rdy log in
      rw waited (
        blocks-none num_blocks ata 0 num_blocks (replicate (num_blocks * 512 / 2) 0)
          (replicate (num_blocks * 512) 0) _ two (omega arith) (omega arith)
          (omega (arith, length-replicate {A = ℕ} (num_blocks * 512 / 2) 0))
          (length-replicate {A = ℕ} (num_blocks * 512) 0))
