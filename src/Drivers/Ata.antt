-- ===== src/Drivers/Ata.antt =====
-- kernel/drivers/ata.cpp: the disk behind its ports. What happened at the ports is a log, the newest
-- event first, and the device is a parameter: what it answers to a read of a port, after each log.
pub mod Waits
pub mod Address
pub mod Blocks
pub mod Overrun
mod Tests
use muk.Prelude.{
  ℕ, zero, suc, ◌+◌, ◌-◌, ◌*◌, ◌/◌, ◌^◌, List, [], ◌∷◌, Option, none, some, Bool, true, false, ◌==◌,
  if◌then◌else◌, ltb, ◌>>=◌, get_elem?, bit_and, bit_or, replicate,
}
use muk.Std.Vector.{put}
use muk.Word.{u8, u32, shr}

pub data Event : Type 0 where
  outb : ℕ → ℕ → Event
  outs : ℕ → ℕ → Event
  inb : ℕ → Event
  ins : ℕ → Event
  sleep : ℕ → Event

pub record Ata : Type 0 where
  pub bus : ℕ
  pub drive : ℕ

-- `device_offsets[bus][drive]`
pub device_offset : Ata → ℕ
device_offset ata =
    if ata.bus == 0
    then if ata.drive == 0 then 496 else 368
    else if ata.drive == 0
    then 488
    else 360

abbrev pub ata_ctrl : ℕ
ata_ctrl = 518

abbrev pub ata_data : ℕ
ata_data = 0

abbrev pub ata_count : ℕ
ata_count = 2

abbrev pub ata_sector : ℕ
ata_sector = 3

abbrev pub ata_cyl_lo : ℕ
ata_cyl_lo = 4

abbrev pub ata_cyl_hi : ℕ
ata_cyl_hi = 5

abbrev pub ata_fdh : ℕ
ata_fdh = 6

-- The register of the status when it is read, of the command when it is written
abbrev pub ata_status : ℕ
ata_status = 7

abbrev pub ata_command : ℕ
ata_command = 7

abbrev pub status_drq : ℕ
status_drq = 8

abbrev pub status_bsy : ℕ
status_bsy = 128

abbrev pub status_rdy : ℕ
status_rdy = 64

abbrev pub command_read : ℕ
command_read = 32

abbrev pub command_identify : ℕ
command_identify = 236

-- `ATA_F_ECC | ATA_F_LBA | ATA_F_512_SEC`, and `ATA_F_SLAVE` for the second drive
pub drive_flags : Ata → ℕ
drive_flags ata = if ata.drive == 1 then bit_or 224 16 else 224

-- `outportb` of a value, which is cut to a byte, at a register
unfoldable pub write : Ata → ℕ → ℕ → List Event → List Event
write ata register value log = outb (device_offset ata + register) (u8 value) ∷ log

pub reset : Ata → List Event → List Event
reset ata log = write ata ata_ctrl 0 (write ata ata_ctrl 4 log)

pub write_pio : Ata → List ℕ → ℕ → List Event → Option (List Event)
write_pio ata buffer zero log = some log
write_pio ata [] (suc size) log = none
write_pio ata (b ∷ buffer) (suc zero) log = some (outs (device_offset ata + ata_data) b ∷ log)
write_pio ata (b ∷ buffer) (suc (suc size)) log =
    write_pio ata buffer size (outs (device_offset ata + ata_data) b ∷ log)

-- The writes of a command, after the flags
unfoldable pub send : Ata → ℕ → ℕ → ℕ → ℕ → List Event → List Event
send ata command num_blocks offset flags log = write ata ata_command command (
    write ata ata_fdh flags (
      write ata ata_cyl_hi (bit_and (shr offset 16) 255) (
        write ata ata_cyl_lo (bit_and (shr offset 8) 255) (
          write ata ata_sector offset
            (write ata ata_count num_blocks (write ata ata_ctrl 0 log))))))

-- The split of the shorts into bytes, from index `i`, with `n` left
pub split_shorts : ℕ → ℕ → List ℕ → List ℕ → Option (List ℕ)
split_shorts zero i buffer_short buffer = some buffer
split_shorts (suc n) i buffer_short buffer = get_elem? buffer_short i >>= λ s.
    put buffer (i * 2) (u8 s) >>= λ buffer.
    put buffer (i * 2 + 1) (bit_and (shr s 8) 255) >>= split_shorts n (i + 1) buffer_short

module _ (inportb inports : List Event → ℕ → ℕ) where
  -- The loop of `wait`, with fuel for `n` rounds: whether the state was seen.
  pub wait_loop : ℕ → Ata → ℕ → ℕ → ℕ → List Event → Option (Bool × List Event)
  wait_loop zero ata mask state time log = none
  wait_loop (suc n) ata mask state time log =
      let port = device_offset ata + ata_status in
      let seen = bit_and (inportb log port) mask in
      let log = inb port ∷ log in
      let rest = wait_loop n ata mask state (time + 1) (sleep 10 ∷ log) in
      if seen == state then some (true, log) else if ltb 10 time then some (false, log) else rest

  pub wait : Ata → ℕ → ℕ → List Event → Option (Bool × List Event)
  wait ata mask state log = wait_loop 12 ata mask state 0 log

  -- `size/2` reads into a buffer, from index `i`, with `n` left
  pub read_shorts : ℕ → Ata → ℕ → List ℕ → List Event → Option (List ℕ × List Event)
  read_shorts zero ata i buffer log = some (buffer, log)
  read_shorts (suc n) ata i buffer log =
      let port = device_offset ata + ata_data in
      put buffer i (inports log port) >>= λ buffer.
      read_shorts n ata (i + 1) buffer (ins port ∷ log)

  pub read_pio : Ata → ℕ → List Event → Option (List ℕ × List Event)
  read_pio ata size log = read_shorts (size / 2) ata 0 (replicate size 0) log

  pub initialise : Ata → List Event → Option (List Event)
  initialise ata log =
      let port = device_offset ata + ata_status in
      let connected = inportb log port in
      let log = inb port ∷ log in
      if connected == 255
      then some log
      else wait ata status_bsy 0 (reset ata log) >>= λ (_, log).
          wait ata status_drq status_drq (send ata command_identify 0 0 (drive_flags ata) log)
          >>= λ (_, log). read_pio ata 512 log >>= λ (_, log). some log

  pub prepare : Ata → ℕ → ℕ → ℕ → List Event → Option (List Event)
  prepare ata command num_blocks offset log =
      let flags = bit_or (drive_flags ata) (bit_and (shr offset 24) 255) in
      wait ata (bit_or status_bsy status_rdy) status_rdy log >>= λ (_, log).
      some (send ata command num_blocks offset flags log)

  -- The loop of `read_u16` over the blocks, from `block`, with `n` left
  pub blocks_u16 : ℕ → Ata → ℕ → List ℕ → List Event → Option (List ℕ × List Event)
  blocks_u16 zero ata block buffer log = some (buffer, log)
  blocks_u16 (suc n) ata block buffer log = wait ata status_drq status_drq log >>= λ (_, log).
      read_shorts 256 ata (block * 512 / 2) buffer log >>= λ (buffer, log).
      blocks_u16 n ata (block + 1) buffer log

  pub read_u16 : Ata → ℕ → ℕ → List Event → Option (List ℕ × List Event)
  read_u16 ata num_blocks offset log = prepare ata command_read num_blocks offset log >>= λ log.
      blocks_u16 num_blocks ata 0 (replicate (num_blocks * 512 / 2) 0) log

  pub blocks_u8 : ℕ → Ata → ℕ → List ℕ → List ℕ → List Event → Option (List ℕ × List Event)
  blocks_u8 zero ata block buffer_short buffer log = some (buffer, log)
  blocks_u8 (suc n) ata block buffer_short buffer log =
      wait ata status_drq status_drq log >>= λ (_, log).
      read_shorts 256 ata (block * 512) buffer_short log >>= λ (buffer_short, log).
      split_shorts 256 0 buffer_short buffer >>= λ buffer.
      blocks_u8 n ata (block + 1) buffer_short buffer log

  pub read_u8 : Ata → ℕ → ℕ → List Event → Option (List ℕ × List Event)
  read_u8 ata num_blocks offset log = prepare ata command_read num_blocks offset log >>= λ log.
      blocks_u8 num_blocks ata 0 (replicate (num_blocks * 512 / 2) 0)
        (replicate (num_blocks * 512) 0) log
