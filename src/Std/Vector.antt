-- ===== src/Std/Vector.antt =====
-- `std::vector` of include/std/vector.hpp. `new T[n]` gives `n` copies of `blank`, and an access outside
-- of a buffer is `none`.
pub mod Contents
pub mod Writes
mod Tests
use muk.Prelude.{
  ℕ, zero, suc, ◌+◌, ◌-◌, ◌*◌, ◌/◌, List, [], ◌∷◌, Option, none, some, if◌then◌else◌, ltb, leb,
  ◌==◌, ◌>>=◌, length, get_elem?, set, replicate,
}
use muk.Word.{u32}

pub record Vector {ℓ} (A : Type ℓ) : Type ℓ where
  pub capacity : ℕ
  pub size : ℕ
  pub buffer : List A

module _ {ℓ} {A : Type ℓ} where
  pub new_vector : Vector A
  new_vector = record { capacity = 0; size = 0; buffer = [] }

  -- `buffer[index] = value`
  unfoldable pub put : List A → ℕ → A → Option (List A)
  put buffer index value = if ltb index (length buffer) then some (set buffer index value) else none

  -- `for (i = 0; i < _size; i++) to[i] = from[i]`, from `i`, with `n` rounds left
  pub copy_elements : ℕ → ℕ → List A → List A → Option (List A)
  copy_elements zero i old fresh = some fresh
  copy_elements (suc n) i old fresh =
      get_elem? old i >>= λ x. put fresh i x >>= copy_elements n (i + 1) old

  pub reserve : A → ℕ → Vector A → Option (Vector A)
  reserve blank capacity v =
      copy_elements v.size 0 v.buffer (replicate capacity blank) >>= λ buffer.
      some (record v { capacity = capacity; buffer = buffer })

  -- `reserve(_capacity*1.5+1)`
  pub grow : A → Vector A → Option (Vector A)
  grow blank v =
      if leb v.capacity v.size then reserve blank (u32 (v.capacity * 3 / 2 + 1)) v else some v

  pub push_back : A → A → Vector A → Option (Vector A)
  push_back blank value v = grow blank v >>= λ v. put v.buffer v.size value >>= λ buffer.
      some (record v { buffer = buffer; size = u32 (v.size + 1) })

  pub pop_back : Vector A → Option (Vector A)
  pop_back v =
      if v.size == 0
      then none
      else get_elem? v.buffer (v.size - 1) >>= λ x. some (record v { size = v.size - 1 })

  -- `operator=` and the copy constructor
  pub assign : A → Vector A → Option (Vector A)
  assign blank v = copy_elements v.size 0 v.buffer (replicate v.capacity blank) >>= λ buffer.
      some (record v { buffer = buffer })

  pub clear : Vector A → Vector A
  clear v = record { capacity = 0; size = 0; buffer = [] }

  pub element : Vector A → ℕ → Option A
  element v index = get_elem? v.buffer index
