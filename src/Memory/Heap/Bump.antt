-- ===== src/Memory/Heap/Bump.antt =====
-- `vmalloc` hands out consecutive addresses.
use native.Mathlib.Decide.{dec_lt}
use muk.Prelude.{
  ℕ, zero, suc, ◌+◌, ◌-◌, ◌*◌, ◌%◌, ◌^◌, ◌<◌, ◌≤◌, ◌≡◌, refl, ap, ◌∙◌, List, [], ◌∷◌, ◌++◌, Option,
  none, some, true, false, ◌==◌, if◌then◌else◌, ltb, leb, arith, ◌⊎◌, inl, inr, length, ◌>>=◌,
}
use muk.Word.{add32}
use muk.Memory.Heap.{
  BlockHeader, Heap, k_heap_start, clear_page, put_header, map_heap_pages, find_block, init_heap,
  add_block, extend, vmalloc,
}
use muk.Memory.Heap.Chain.{
  sum, IsChain, last_block, find_block-last, last_block-ends, IsChain-append, sum-append,
}

-- Mapping goes on to the address asked for, and leaves the headers below the old top.
record IsExtended (h : Heap) (end_addr : ℕ) (t : Heap) : Type 0 where
  start : t.kheap_start ≡ h.kheap_start
  reaches : end_addr ≤ t.kheap_top
  grows : h.kheap_top ≤ t.kheap_top
  same : (x : ℕ) → x < h.kheap_top → t.headers x ≡ h.headers x

map_heap_pages-IsExtended :
    (fuel end_addr : ℕ) (h : Heap)
    → end_addr ≤ h.kheap_top + 4096 * fuel
    → end_addr < 2 ^ 32 - 4096
    → (t : Heap) × (map_heap_pages fuel end_addr h ≡ some t) × IsExtended h end_addr t
unfolding map_heap_pages clear_page
map_heap_pages-IsExtended zero end_addr h f b =
    let stop : ltb h.kheap_top end_addr ≡ false = ground arith in
    (
      h,
      rw stop refl,
      record { start = refl; reaches = omega arith; grows = omega arith; same = λ x p. refl },
    )
map_heap_pages-IsExtended (suc fuel) end_addr h f b = elim (dec_lt h.kheap_top end_addr) [
  | yes p ↦
      let more : ltb h.kheap_top end_addr ≡ true = ground arith in
      let top : (h.kheap_top + 4096) % 2 ^ 32 ≡ h.kheap_top + 4096 = omega arith in
      let next : Heap = record h {
        headers = clear_page h.headers h.kheap_top;
        mapped = h.kheap_top ∷ h.mapped;
        kheap_top = h.kheap_top + 4096;
      } in
      let (t, e, ext) = map_heap_pages-IsExtended fuel end_addr next (omega arith) b in
      (
        t,
        rw more (ap (λ k. map_heap_pages fuel end_addr (record next { kheap_top = k })) top ∙ e),
        record {
          start = ext.start;
          reaches = ext.reaches;
          grows = omega (arith, ext.grows);
          same = λ x q.
              let below : leb h.kheap_top x ≡ false = ground arith in
              ext.same x (omega arith) ∙ rw below refl;
        },
      )
  | no np ↦
      let stop : ltb h.kheap_top end_addr ≡ false = ground arith in
      (
        h,
        rw stop refl,
        record { start = refl; reaches = omega arith; grows = omega arith; same = λ x p. refl },
      )
]

-- The heap before its first block, or with blocks of these sizes, headers included, from its start.
pub record IsHeap (h : Heap) (sizes : List ℕ) : Type 0 where
  pub start : h.kheap_start ≡ (if length sizes == 0 then 0 else k_heap_start)
  pub chain : IsChain h.headers k_heap_start sizes
  pub covered : (sizes ≡ []) ⊎ (k_heap_start + sum sizes ≤ h.kheap_top)

-- What is left to do once the block before the new one is found.
grow : (fuel n found end_addr : ℕ) (h : Heap) → Option Heap
grow fuel n found end_addr h =
    map_heap_pages fuel (end_addr + n) h >>= λ t. some (add_block found end_addr n t)

first_block :
    (fuel n : ℕ) (h : Heap)
    → 12 ≤ n
    → n ≤ 0x10000000
    → 0x10001 ≤ fuel
    → h.kheap_start ≡ k_heap_start
    → h.kheap_top ≡ k_heap_start
    → (t : Heap) × (grow fuel n k_heap_start k_heap_start h ≡ some t)
      × IsHeap t (n ∷ [])
      × (t.interrupts ≡ true)
unfolding grow add_block put_header
first_block fuel n h big small enough start top =
    let (t, e, ext) =
      map_heap_pages-IsExtended fuel (k_heap_start + n) h (omega (arith, top)) (omega arith) in
    (
      add_block k_heap_start k_heap_start n t,
      rw e refl,
      record {
        start = ext.start ∙ start;
        chain = (ground arith, big, inr refl);
        covered = inr (omega (arith, ext.reaches));
      },
      refl,
    )

next_block :
    (fuel n s : ℕ) (sizes : List ℕ) (h : Heap)
    → 12 ≤ n
    → k_heap_start + sum (s ∷ sizes) + n ≤ 0xF0000000
    → 0x10001 ≤ fuel
    → h.kheap_start ≡ k_heap_start
    → IsChain h.headers k_heap_start (s ∷ sizes)
    → k_heap_start + sum (s ∷ sizes) ≤ h.kheap_top
    → (t : Heap) × (grow fuel n
          (last_block k_heap_start (s ∷ sizes))
          (k_heap_start + sum (s ∷ sizes))
          h
        ≡ some t)
      × IsHeap t (s ∷ sizes ++ n ∷ [])
      × (t.interrupts ≡ true)
unfolding grow add_block put_header
next_block fuel n s sizes h big small enough start c top =
    let found = last_block k_heap_start (s ∷ sizes) in
    let end_addr = k_heap_start + sum (s ∷ sizes) in
    let (ends, above, large) = last_block-ends k_heap_start s sizes h.headers c in
    let (t, e, ext) =
      map_heap_pages-IsExtended fuel (end_addr + n) h (omega (arith, top)) (omega arith) in
    let differ : (found == end_addr) ≡ false = ground (arith, ends, large) in
    let differ' : (end_addr == found) ≡ false = ground (arith, ends, large) in
    let self : (found == found) ≡ true = ground arith in
    let self' : (end_addr == end_addr) ≡ true = ground arith in
    let kept : t.headers found ≡ h.headers found =
      ext.same found (omega (arith, ends, large, top)) in
    (
      add_block found end_addr n t,
      rw e refl,
      record {
        start = ext.start ∙ start ∙ ground arith;
        chain =
            IsChain-append k_heap_start s n sizes h.headers (add_block found end_addr n t).headers
              big
              (λ x p.
                let not_found : (x == found) ≡ false = ground arith in
                let not_end : (x == end_addr) ≡ false = ground (arith, ends, large) in
                rw (not_found, not_end) (ext.same x (omega (arith, ends, large, top))))
              (rw (self, differ) (ap (λ (b : BlockHeader). b.size) kept)) (rw self refl)
              (rw (differ', self') (omega arith)) (rw (differ', self') refl) c;
        covered = inr (omega (arith, ext.reaches, sum-append (s ∷ sizes) n));
      },
      refl,
    )

with_result :
    (x : Option Heap) (v : ℕ) (f : Heap → Heap) (t : Heap)
    → (x >>= λ h. some (f h)) ≡ some t
    → ◌>>=◌ {B = ℕ × Heap} x (λ h. some (v, f h)) ≡ some (v, t)
with_result none v f t e = ap paired e
  where
    paired : Option Heap → Option (ℕ × Heap)
    paired o = elim o [ none ↦ none | some u ↦ some (v, u) ]
with_result (some h) v f t e = ap paired e
  where
    paired : Option Heap → Option (ℕ × Heap)
    paired o = elim o [ none ↦ none | some u ↦ some (v, u) ]

extend_lem :
    (fuel size found end_addr : ℕ) (h t : Heap)
    → find_block fuel h.headers h.kheap_start ≡ some found
    → add32 found (h.headers found).size ≡ end_addr
    → end_addr + (size + 12) < 2 ^ 32
    → grow fuel (size + 12) found end_addr h ≡ some t
    → extend fuel size h ≡ some (end_addr + 12, t)
unfolding extend grow
extend_lem fuel size found end_addr h t f e b g =
    let total : (size + 12) % 2 ^ 32 ≡ size + 12 = omega arith in
    let block_end : (end_addr + (size + 12)) % 2 ^ 32 ≡ end_addr + (size + 12) = omega arith in
    let result : (end_addr + 12) % 2 ^ 32 ≡ end_addr + 12 = omega arith in
    rw (f, e, total, block_end, result)
      (with_result (map_heap_pages fuel (end_addr + (size + 12)) h) (end_addr + 12)
        (add_block found end_addr (size + 12)) t g)

-- The heap just initialised: its first header is blank.
abbrev fresh : Heap → Heap
fresh h = record {
  headers = clear_page h.headers k_heap_start;
  mapped = k_heap_start ∷ h.mapped;
  kheap_start = k_heap_start;
  kheap_top = k_heap_start;
  interrupts = false;
}

find_first :
    (fuel : ℕ) (h : Heap) → find_block (suc fuel) (fresh h).headers k_heap_start ≡ some k_heap_start
unfolding find_block clear_page
find_first fuel h = refl

fresh_size : (h : Heap) → ((fresh h).headers k_heap_start).size ≡ 0
unfolding clear_page
fresh_size h = refl

-- `vmalloc` of a size that is not 0, while the blocks stay below 0xF0000000 and the loops have a
-- round for each block and for each page of the heap: it returns the address 12 bytes past the end
-- of the blocks before it, whose sizes and links stay, adds one block of the size and 12 bytes for
-- the header, has raised the top of the heap to its end, and lets interrupts in.
pub vmalloc_lem :
    (fuel size : ℕ) (sizes : List ℕ) (h : Heap)
    → 0 < size
    → IsHeap h sizes
    → k_heap_start + sum sizes + (size + 12) ≤ 0xF0000000
    → length sizes + 0x10001 ≤ fuel
    → (t : Heap) × (vmalloc fuel size h ≡ some (k_heap_start + sum sizes + 12, t))
      × IsHeap t (sizes ++ (size + 12) ∷ [])
      × (t.interrupts ≡ true)
unfolding vmalloc init_heap
vmalloc_lem zero size sizes h p i small enough = absurd (omega arith)
vmalloc_lem (suc fuel) size [] h p i small enough =
    let some_size : (size == 0) ≡ false = ground arith in
    let empty : (h.kheap_start == 0) ≡ true = ground (arith, i.start) in
    let (t, e, is, on) =
      first_block (suc fuel) (size + 12) (fresh h) (omega arith) (omega arith) (omega arith) refl
        refl in
    let here : add32 k_heap_start ((fresh h).headers k_heap_start).size ≡ k_heap_start =
      rw (fresh_size h) refl in
    (
      t,
      rw (some_size, empty)
          (extend_lem (suc fuel) size k_heap_start k_heap_start (fresh h) t (find_first fuel h) here
            (omega arith) e),
      is,
      on,
    )
vmalloc_lem (suc fuel) size (s ∷ sizes) h p i small enough =
    let h' : Heap = record h { interrupts = false } in
    let start : h.kheap_start ≡ k_heap_start = i.start ∙ ground arith in
    let some_size : (size == 0) ≡ false = ground arith in
    let begun : (h.kheap_start == 0) ≡ false = ground (arith, start) in
    let top : k_heap_start + sum (s ∷ sizes) ≤ h.kheap_top = elim i.covered [
      | inl e ↦ absurd (omega (arith, ap length e))
      | inr q ↦ q
    ] in
    let (ends, above, large) = last_block-ends k_heap_start s sizes h.headers i.chain in
    let found = last_block k_heap_start (s ∷ sizes) in
    let end_of : add32 found (h.headers found).size ≡ k_heap_start + sum (s ∷ sizes) =
      omega (arith, ends) in
    let (t, e, is, on) =
      next_block (suc fuel) (size + 12) s sizes h' (omega arith) small (omega arith) start i.chain
        top in
    let finds : find_block (suc fuel) h.headers h.kheap_start ≡ some found =
      ap (find_block (suc fuel) h.headers) start
      ∙ find_block-last (suc fuel) k_heap_start s sizes h.headers (omega arith) (omega arith)
          i.chain in
    (
      t,
      rw (some_size, begun)
          (extend_lem (suc fuel) size found (k_heap_start + sum (s ∷ sizes)) h' t finds end_of
            (omega arith) e),
      is,
      on,
    )
