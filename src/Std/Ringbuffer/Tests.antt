-- ===== src/Std/Ringbuffer/Tests.antt =====
-- The byte buffer at four slots.
use muk.Prelude.{◌-◌, ◌≡◌, refl, some, none, true, false, List, [], ◌∷◌, arith}
use muk.Std.Ringbuffer.{Buffer, next_index, buffer_read, buffer_write}
use muk.Std.Ringbuffer.Refine.{
  IsValid, contents, Op, put, get, stored_it, gave, run, queue_run, reads_agree,
}

-- 8, then 9 round the end of the storage.
abbrev wrapped : Buffer
wrapped = record { head = 1; tail = 3; size = 4; buffer = 9 ∷ 0 ∷ 0 ∷ 8 ∷ [] }

wrapped-IsValid : IsValid wrapped
wrapped-IsValid = omega arith

abbrev script : List Op
script = put 1 ∷ put 2 ∷ get ∷ get ∷ get ∷ get ∷ []

script_runs :
    run wrapped script
    ≡ stored_it true
      ∷ stored_it false
      ∷ gave (some 8)
      ∷ gave (some 9)
      ∷ gave (some 1)
      ∷ gave none
      ∷ []
unfolding run buffer_write buffer_read next_index
script_runs = refl

reads_agree_example : run wrapped script ≡ queue_run (wrapped.size - 1) (contents wrapped) script
reads_agree_example = reads_agree script wrapped wrapped-IsValid
