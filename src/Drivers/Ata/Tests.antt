-- ===== src/Drivers/Ata/Tests.antt =====
-- A drive that is always ready and answers the same short.
use muk.Prelude.{ℕ, ◌≡◌, Bool, List, [], none, some, arith}
use muk.Drivers.Ata.{Event, Ata, wait, read_u8}
use muk.Drivers.Ata.Waits.{Waits, wait_lem}
use muk.Drivers.Ata.Address.{received}
use muk.Drivers.Ata.Blocks.{bytes_of, reads, answers, read_u8-one}
use muk.Drivers.Ata.Overrun.{read_u8-overruns}

abbrev ready : List Event → ℕ → ℕ
ready log port = 72

abbrev same_short : List Event → ℕ → ℕ
same_short log port = 16961

abbrev second_drive : Ata
second_drive = record { bus = 0; drive = 1 }

wait_lem_example :
    (seen : Bool) × (log' : List Event) × (wait ready same_short second_drive 8 8 []
      ≡ some (seen, log'))
    × Waits ready same_short 12 second_drive 8 8 [] seen log'
wait_lem_example = wait_lem ready same_short second_drive 8 8 []

read_u8-one_example :
    (sent : List Event) × (read_u8 ready same_short second_drive 1 70000 []
      ≡ some
          (bytes_of (answers ready same_short second_drive 256 sent), reads second_drive 256 sent))
    × (received second_drive sent
        ≡ some (record { code = 32; count = 1; block = 70000; mode = 15 }))
read_u8-one_example = read_u8-one ready same_short second_drive 70000 [] (omega arith) (omega arith)

read_u8-overruns_example : read_u8 ready same_short second_drive 2 0 [] ≡ none
read_u8-overruns_example = read_u8-overruns ready same_short second_drive 2 0 [] (omega arith)
