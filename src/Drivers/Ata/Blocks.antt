-- ===== src/Drivers/Ata/Blocks.antt =====
-- What `read_u8` gives for one block, and what goes wrong for more.
use mathlib.Core.List.{append_assoc}
use muk.Prelude.{
  ℕ, zero, suc, ◌+◌, ◌*◌, ◌/◌, ◌%◌, ◌^◌, ◌<◌, ◌≡◌, refl, ap, ◌∙◌, List, [], ◌∷◌, ◌++◌, some, length,
  length-append, replicate, arith,
}
use muk.Word.{shr}
use muk.Word.Bits.{bit_and-mask}
use muk.Std.Vector.{put}
use muk.Std.Vector.Writes.{put_next, get_elem?_next}
use muk.Drivers.Ata.{
  Event, ins, inb, sleep, Ata, device_offset, ata_data, ata_status, read_shorts, split_shorts,
  blocks_u8, read_u8, status_drq,
}
use muk.Drivers.Ata.Waits.{polls, wait_lem}
use muk.Drivers.Ata.Address.{received, prepare_lem}

-- The bytes of shorts, the low one first.
abbrev pub bytes_of : List ℕ → List ℕ
bytes_of [] = []
bytes_of (s ∷ shorts) = s % 2 ^ 8 ∷ s / 2 ^ 8 % 2 ^ 8 ∷ bytes_of shorts

split_shorts-bytes :
    (todo before pre gap : List ℕ) (i : ℕ)
    → i ≡ length before
    → length pre ≡ i * 2
    → length gap ≡ length todo * 2
    → split_shorts (length todo) i (before ++ todo) (pre ++ gap) ≡ some (pre ++ bytes_of todo)
unfolding split_shorts
split_shorts-bytes [] before pre [] i e p g = refl
split_shorts-bytes [] before pre (x ∷ gap) i e p g = absurd (omega arith)
split_shorts-bytes (s ∷ todo) before pre [] i e p g = absurd (omega arith)
split_shorts-bytes (s ∷ todo) before pre (x ∷ []) i e p g = absurd (omega arith)
split_shorts-bytes (s ∷ todo) before pre (x ∷ y ∷ gap) i e p g =
    let low = s % 2 ^ 8 in
    let high = s / 2 ^ 8 % 2 ^ 8 in
    let two = low ∷ high ∷ [] in
    let at : i * 2 ≡ length pre = omega arith in
    let next : i * 2 + 1 ≡ length (pre ++ low ∷ []) = omega (arith, length-append pre (low ∷ [])) in
    let rest : split_shorts (length todo) (i + 1) (before ++ s ∷ todo) (pre ++ low ∷ high ∷ gap)
        ≡ some (pre ++ low ∷ high ∷ bytes_of todo) =
      cc (
        split_shorts-bytes todo (before ++ s ∷ []) (pre ++ two) gap (i + 1)
            (omega (arith, length-append before (s ∷ []))) (omega (arith, length-append pre two))
            (omega arith),
        append_assoc before (s ∷ []) todo,
        append_assoc pre two gap,
        append_assoc pre two (bytes_of todo),
      ) in
    let second : put (pre ++ low ∷ y ∷ gap) (i * 2 + 1) high ≡ some (pre ++ low ∷ high ∷ gap) = cc (
      put_next (pre ++ low ∷ []) y gap (i * 2 + 1) high next,
      append_assoc pre (low ∷ []) (y ∷ gap),
      append_assoc pre (low ∷ []) (high ∷ gap),
    ) in
    rw
      (
        get_elem?_next before s todo i e,
        put_next pre x (y ∷ gap) (i * 2) low at,
        bit_and-mask 8 (shr s 8),
        second,
      )
      rest

-- What the device answers to `n` reads of its data.
abbrev pub reads : Ata → ℕ → List Event → List Event
reads ata zero log = log
reads ata (suc n) log = reads ata n (ins (device_offset ata + ata_data) ∷ log)

module _ (inportb inports : List Event → ℕ → ℕ) where
  abbrev pub answers : Ata → ℕ → List Event → List ℕ
  answers ata zero log = []
  answers ata (suc n) log =
      inports log (device_offset ata + ata_data)
      ∷ answers ata n (ins (device_offset ata + ata_data) ∷ log)

  length-answers : (ata : Ata) (n : ℕ) (log : List Event) → length (answers ata n log) ≡ n
  length-answers ata zero log = refl
  length-answers ata (suc n) log =
      ap suc (length-answers ata n (ins (device_offset ata + ata_data) ∷ log))

  read_shorts-answers :
      (ata : Ata) (pre gap : List ℕ) (i : ℕ) (log : List Event)
      → i ≡ length pre
      → read_shorts inportb inports (length gap) ata i (pre ++ gap) log
        ≡ some (pre ++ answers ata (length gap) log, reads ata (length gap) log)
  unfolding read_shorts
  read_shorts-answers ata pre [] i log e = refl
  read_shorts-answers ata pre (g ∷ gap) i log e =
      let port = device_offset ata + ata_data in
      let s = inports log port in
      let rest : read_shorts inportb inports (length gap) ata (i + 1) (pre ++ s ∷ gap)
            (ins port ∷ log)
          ≡ some (
            pre ++ s ∷ answers ata (length gap) (ins port ∷ log),
            reads ata (length gap) (ins port ∷ log),
          ) =
        cc (
          read_shorts-answers ata (pre ++ s ∷ []) gap (i + 1) (ins port ∷ log)
              (omega (arith, length-append pre (s ∷ []))),
          append_assoc pre (s ∷ []) gap,
          append_assoc pre (s ∷ []) (answers ata (length gap) (ins port ∷ log)),
        ) in
      rw (put_next pre g gap i s e) rest

received-polls :
    (ata : Ata) (k : ℕ) (log : List Event) → received ata (polls ata k log) ≡ received ata log
received-polls ata zero log = refl
received-polls ata (suc k) log =
    received-polls ata k (sleep 10 ∷ inb (device_offset ata + ata_status) ∷ log)

module _ (inportb inports : List Event → ℕ → ℕ) where
  -- `read_u8` of one block gives the 256 shorts that the drive answers, each as its low and its high byte,
  -- where the drive was sent the read command with the count 1 and the block of 28 bits before.
  pub read_u8-one :
      (ata : Ata) (offset : ℕ) (log : List Event)
      → ata.drive < 2
      → offset < 2 ^ 28
      → (sent : List Event) × (read_u8 inportb inports ata 1 offset log
          ≡ some (bytes_of (answers inportb inports ata 256 sent), reads ata 256 sent))
        × (received ata sent
            ≡ some (record { code = 32; count = 1; block = offset; mode = 14 + ata.drive }))
  unfolding read_u8 blocks_u8
  read_u8-one ata offset log h o =
      let (sent, prepared, command) =
        prepare_lem inportb inports ata 32 1 offset log h (omega arith) (omega arith) o in
      let (seen, polled, waited, (k, _, is, _, _, _)) =
        wait_lem inportb inports ata status_drq status_drq sent in
      let shorts = answers inportb inports ata 256 polled in
      let split : split_shorts 256 0 shorts (replicate 512 0) ≡ some (bytes_of shorts) =
        split_shorts-bytes shorts [] [] (replicate 512 0) 0 refl refl refl in
      (
        polled,
        rw
            (
              prepared,
              waited,
              read_shorts-answers inportb inports ata [] (replicate 256 0) 0 polled refl,
              split,
            )
            refl,
        ap (received ata) is ∙ received-polls ata k sent ∙ command,
      )
