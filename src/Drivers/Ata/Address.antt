-- ===== src/Drivers/Ata/Address.antt =====
-- The registers that `prepare` writes spell the command, the count and the block.
use muk.Prelude.{
  ℕ, ◌+◌, ◌*◌, ◌/◌, ◌%◌, ◌^◌, ◌<◌, ◌≡◌, refl, List, [], ◌∷◌, Option, none, some, ◌==◌,
  if◌then◌else◌, ◌>>=◌, bit_and, bit_or, arith,
}
use muk.Word.{u8, shr}
use muk.Word.Bits.{bit_and-mask, bit_or_eq_add}
use muk.Drivers.Ata.{
  Event, outb, outs, inb, ins, sleep, Ata, device_offset, drive_flags, write, send, prepare,
  ata_count, ata_sector, ata_cyl_lo, ata_cyl_hi, ata_fdh, ata_command, status_bsy, status_rdy,
}
use muk.Drivers.Ata.Waits.{wait_lem}

-- What was last written to a register.
abbrev pub latest : ℕ → List Event → Option ℕ
latest port [] = none
latest port (outb p v ∷ log) = let rest = latest port log in if p == port then some v else rest
latest port (outs p v ∷ log) = latest port log
latest port (inb p ∷ log) = latest port log
latest port (ins p ∷ log) = latest port log
latest port (sleep ms ∷ log) = latest port log

-- What a drive takes from the registers: the command, the number of blocks, the block in 28 bits, and the
-- upper four bits of the register of the drive.
pub record Command : Type 0 where
  pub code : ℕ
  pub count : ℕ
  pub block : ℕ
  pub mode : ℕ

abbrev pub received : Ata → List Event → Option Command
received ata log =
    let p = device_offset ata in
    latest (p + ata_command) log >>= λ code. latest (p + ata_count) log >>= λ count.
    latest (p + ata_sector) log >>= λ low. latest (p + ata_cyl_lo) log >>= λ mid.
    latest (p + ata_cyl_hi) log >>= λ high. latest (p + ata_fdh) log >>= λ fdh. some (record {
      code = code;
      count = count;
      block = low + 2 ^ 8 * mid + 2 ^ 16 * high + 2 ^ 24 * (fdh % 16);
      mode = fdh / 16;
    })

send-received :
    (ata : Ata) (command num_blocks offset flags : ℕ) (log : List Event)
    → received ata (send ata command num_blocks offset flags log)
      ≡ some (record {
        code = u8 command;
        count = u8 num_blocks;
        block =
            u8 offset
            + 2 ^ 8 * u8 (bit_and (shr offset 8) 255)
            + 2 ^ 16 * u8 (bit_and (shr offset 16) 255)
            + 2 ^ 24 * (u8 flags % 16);
        mode = u8 flags / 16;
      })
unfolding send write
send-received ata command num_blocks offset flags log = ground arith

-- The flags, with the upper bits of a block of 28 bits.
flags_lem :
    (ata : Ata) (offset : ℕ)
    → ata.drive < 2
    → offset < 2 ^ 28
    → bit_or (drive_flags ata) (bit_and (shr offset 24) 255)
      ≡ (14 + ata.drive) * 16 + offset / 2 ^ 24
unfolding drive_flags
flags_lem ata offset h k =
    let high : bit_and (shr offset 24) 255 ≡ offset / 2 ^ 24 =
      omega (arith, bit_and-mask 8 (shr offset 24)) in
    rw high (
      ground (
        arith,
        bit_or_eq_add 4 14 (offset / 2 ^ 24) (omega arith),
        bit_or_eq_add 4 15 (offset / 2 ^ 24) (omega arith),
      ))

module _ (inportb inports : List Event → ℕ → ℕ) where
  -- `prepare` always comes back, and a drive that reads its registers then finds in them the command, the
  -- number of blocks, the block of 28 bits that was asked for, and the mode with the bit of the drive.
  pub prepare_lem :
      (ata : Ata) (command num_blocks offset : ℕ) (log : List Event)
      → ata.drive < 2
      → command < 2 ^ 8
      → num_blocks < 2 ^ 8
      → offset < 2 ^ 28
      → (log' : List Event) × (prepare inportb inports ata command num_blocks offset log
          ≡ some log')
        × (received ata log'
            ≡ some (record {
              code = command;
              count = num_blocks;
              block = offset;
              mode = 14 + ata.drive;
            }))
  unfolding prepare
  prepare_lem ata command num_blocks offset log h c n o =
      let (seen, polled, waited, _) =
        wait_lem inportb inports ata (bit_or status_bsy status_rdy) status_rdy log in
      let flags = bit_or (drive_flags ata) (bit_and (shr offset 24) 255) in
      let flags_are = flags_lem ata offset h o in
      let code : u8 command ≡ command = omega arith in
      let count : u8 num_blocks ≡ num_blocks = omega arith in
      let mode : u8 flags / 16 ≡ 14 + ata.drive = omega (arith, flags_are) in
      let block : u8 offset
            + 2 ^ 8 * u8 (bit_and (shr offset 8) 255)
            + 2 ^ 16 * u8 (bit_and (shr offset 16) 255)
            + 2 ^ 24 * (u8 flags % 16)
          ≡ offset =
        omega (arith, flags_are, bit_and-mask 8 (shr offset 8), bit_and-mask 8 (shr offset 16)) in
      (
        send ata command num_blocks offset flags polled,
        rw waited refl,
        cc (send-received ata command num_blocks offset flags polled, code, count, block, mode),
      )
