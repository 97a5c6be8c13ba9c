-- ===== src/Memory/Heap.antt =====
-- The kernel heap of kernel/memory/heap.cpp. The block headers are a function from addresses; memory
-- that was just mapped is cleared, which makes its headers blank. `mapped` lists the arguments of
-- MapPage, the latest first. Loops run on fuel.
pub mod Chain
pub mod Bump
mod Tests
use muk.Prelude.{
  ℕ, zero, suc, ◌+◌, ◌%◌, ◌^◌, List, [], ◌∷◌, Option, none, some, Bool, true, false, ◌&&◌, ◌||◌,
  ◌==◌, if◌then◌else◌, ltb, leb, ◌>>=◌,
}
use muk.Word.{add32}

-- `class BlockHeader`, of 12 bytes, less `in_use`, which nothing reads. 0 is the null pointer.
pub record BlockHeader : Type 0 where
  pub size : ℕ
  pub next : ℕ
  pub prev : ℕ

pub record Heap : Type 0 where
  pub headers : ℕ → BlockHeader
  pub kheap_start : ℕ
  pub kheap_top : ℕ
  pub mapped : List ℕ
  pub interrupts : Bool

abbrev pub k_heap_start : ℕ
k_heap_start = 0xE0000000

abbrev pub blank_header : BlockHeader
blank_header = record { size = 0; next = 0; prev = 0 }

-- `memset((void*)page, 0, kPageSize)`
pub clear_page : (ℕ → BlockHeader) → ℕ → ℕ → BlockHeader
clear_page headers page = λ a. if leb page a && ltb a (page + 4096) then blank_header else headers a

pub put_header : (ℕ → BlockHeader) → ℕ → BlockHeader → ℕ → BlockHeader
put_header headers address header = λ a. if a == address then header else headers a

pub map_heap_pages : ℕ → ℕ → Heap → Option Heap
map_heap_pages zero end_addr h = if ltb h.kheap_top end_addr then none else some h
map_heap_pages (suc fuel) end_addr h =
    let rest = map_heap_pages fuel end_addr (record h {
      headers = clear_page h.headers h.kheap_top;
      mapped = h.kheap_top ∷ h.mapped;
      kheap_top = add32 h.kheap_top 4096;
    }) in
    if ltb h.kheap_top end_addr then rest else some h

-- `for (; found_block->next && found_block != found_block->next; found_block = found_block->next)`
pub find_block : ℕ → (ℕ → BlockHeader) → ℕ → Option ℕ
find_block zero headers block = none
find_block (suc fuel) headers block =
    let rest = find_block fuel headers (headers block).next in
    if (headers block).next == 0 || block == (headers block).next then some block else rest

-- `if (!kheap_start)`
pub init_heap : Heap → Heap
init_heap h =
    if h.kheap_start == 0
    then record h {
      headers = clear_page h.headers k_heap_start;
      mapped = k_heap_start ∷ h.mapped;
      kheap_start = k_heap_start;
      kheap_top = k_heap_start;
    }
    else h

-- The new block at `end_of_block`, behind `found_block`.
pub add_block : ℕ → ℕ → ℕ → Heap → Heap
add_block found_block end_of_block size h =
    let headers =
      put_header h.headers end_of_block
        (record { size = size % 2 ^ 31; next = 0; prev = found_block }) in
    record h {
      headers =
          put_header headers found_block (record (headers found_block) { next = end_of_block });
      interrupts = true;
    }

-- The rest of `vmalloc` once the heap is initialised.
pub extend : ℕ → ℕ → Heap → Option (ℕ × Heap)
extend fuel size h = find_block fuel h.headers h.kheap_start >>= λ found_block.
    let end_of_block = add32 found_block (h.headers found_block).size in
    map_heap_pages fuel (add32 end_of_block (add32 size 12)) h >>= λ h.
    some (add32 end_of_block 12, add_block found_block end_of_block (add32 size 12) h)

-- A result of 0 is the null pointer.
pub vmalloc : ℕ → ℕ → Heap → Option (ℕ × Heap)
vmalloc fuel size h =
    if size == 0
    then some (0, record h { interrupts = false })
    else extend fuel size (init_heap (record h { interrupts = false }))
