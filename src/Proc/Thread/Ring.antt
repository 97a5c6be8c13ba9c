-- ===== src/Proc/Thread/Ring.antt =====
-- The threads form a ring, first in the order of their start.
use native.Mathlib.Decide.{ℕ_discrete}
use muk.Prelude.{
  ℕ, zero, suc, ◌+◌, ◌-◌, ◌≤◌, ◌<◌, ◌≡◌, refl, ◌∙◌, List, [], ◌∷◌, ◌++◌, Option, none, some, arith,
  ◌==◌, if◌then◌else◌, ◌>>=◌, length, length-append,
}
use muk.Proc.Thread.{
  Thread, Threads, next_of, prev_of, set_next, set_prev, last_thread, new_thread, link,
  start_thread,
}
use muk.Proc.Thread.Links.{
  length-set_next, length-set_prev, next_of-set_next, prev_of-set_next, prev_of-set_prev,
  next_of-set_prev, next_of-append, prev_of-append,
}

-- The neighbours of thread `i` in a ring of `n`.
abbrev pub after : ℕ → ℕ → ℕ
after n i = if i + 1 == n then 0 else i + 1

abbrev pub before : ℕ → ℕ → ℕ
before n i = if i == 0 then n - 1 else i - 1

-- A ring of `n` threads, one at least. The first thread has no `prev` while it is alone.
pub record IsRing (n : ℕ) (s : Threads) : Type 0 where
  pub some_thread : 0 < n
  pub size : length s.store ≡ n
  pub root : s.thread_root ≡ some 0
  pub nexts : (i : ℕ) → i < n → next_of s.store i ≡ some (after n i)
  pub prevs : (i : ℕ) → i < n → prev_of s.store i ≡ (if n == 1 then none else some (before n i))

after-not_last : (n i : ℕ) → ¬ (i + 1 ≡ n) → after n i ≡ i + 1
after-not_last n i ne = ground arith

-- The walk from thread `i` of a ring finds the last thread.
last_thread_lem :
    (fuel n i : ℕ) (store : List Thread)
    → ((i : ℕ) → i < n → next_of store i ≡ some (after n i))
    → i < n
    → n ≤ i + fuel
    → last_thread fuel store 0 i ≡ some (n - 1)
unfolding last_thread
last_thread_lem zero n i store h lt f = absurd (omega arith)
last_thread_lem (suc fuel) n i store h lt f = elim (ℕ_discrete (i + 1) n) [
  | yes e ↦ rw (h i lt) (ground arith)
  | no ne ↦
      rw (h i lt, after-not_last n i ne)
        (ground (arith, last_thread_lem fuel n (i + 1) store h (omega arith) (omega arith)))
]

-- The new thread becomes the last of the ring.
link-IsRing :
    (n : ℕ) (s : Threads) (th : Thread)
    → IsRing n s
    → (t : Threads) × (link s n th ≡ some t) × IsRing (n + 1) t × (t.next_tid ≡ s.next_tid + 1)
unfolding link
link-IsRing n s th r = (
  record s { store = linked; next_tid = s.next_tid + 1 },
  rw (r.root, r.size, last_thread_lem n n 0 s.store r.nexts r.some_thread (omega arith)) refl,
  record { some_thread = omega arith; size = size; root = r.root; nexts = nexts; prevs = prevs },
  refl,
)
  where
    linked : List Thread
    linked =
        set_prev
          (set_next s.store (n - 1) n ++ record th { prev = some (n - 1); next = some 0 } ∷ []) 0 n

    size : length linked ≡ n + 1
    size = omega (
      arith,
      length-set_prev
          (set_next s.store (n - 1) n ++ record th { prev = some (n - 1); next = some 0 } ∷ []) 0 n,
      length-append (set_next s.store (n - 1) n)
          (record th { prev = some (n - 1); next = some 0 } ∷ []),
      length-set_next s.store (n - 1) n,
      r.size,
    )

    nexts : (i : ℕ) → i < n + 1 → next_of linked i ≡ some (after (n + 1) i)
    nexts i h =
        next_of-set_prev _ 0 n i
        ∙ (next_of-append (set_next s.store (n - 1) n) _ i
            ∙ ground (
              arith,
              length-set_next s.store (n - 1) n,
              r.size,
              r.some_thread,
              next_of-set_next s.store (n - 1) n i,
              r.nexts i,
            ))

    prevs :
        (i : ℕ)
        → i < n + 1
        → prev_of linked i ≡ (if n + 1 == 1 then none else some (before (n + 1) i))
    prevs i h =
        let fresh = record th { prev = some (n - 1); next = some 0 } in
        let old = set_next s.store (n - 1) n in
        prev_of-set_prev (old ++ fresh ∷ []) 0 n i
          (omega (arith, length-append old (fresh ∷ []), length-set_next s.store (n - 1) n))
        ∙ ground (
          arith,
          prev_of-append old fresh i,
          length-set_next s.store (n - 1) n,
          r.size,
          r.some_thread,
          prev_of-set_next s.store (n - 1) n i,
          r.prevs i,
        )

-- `start_thread` on an empty list makes a ring of one thread, and on a ring of `n` one of `n + 1`.
pub start_thread-IsRing :
    (n : ℕ) (s : Threads) (title : List ℕ) (entry stack_base : ℕ)
    → IsRing n s
    → (t : Threads) × (start_thread s title entry stack_base ≡ some t)
      × IsRing (n + 1) t
      × (t.next_tid ≡ s.next_tid + 1)
unfolding start_thread
start_thread-IsRing n s title entry stack_base r =
    let (t, e, r', k) = link-IsRing n s (new_thread s.next_tid title entry stack_base) r in
    (t, rw r.size e, r', k)

abbrev pub no_threads : Threads
no_threads = record { store = []; thread_root = none; next_tid = 1 }

pub first_thread-IsRing :
    (title : List ℕ) (entry stack_base : ℕ)
    → (t : Threads) × (start_thread no_threads title entry stack_base ≡ some t)
      × IsRing 1 t
      × (t.next_tid ≡ 2)
unfolding start_thread link next_of prev_of
first_thread-IsRing title entry stack_base =
    let th = new_thread 1 title entry stack_base in
    (
      record { store = record th { next = some 0 } ∷ []; thread_root = some 0; next_tid = 2 },
      refl,
      record { some_thread = omega arith; size = refl; root = refl; nexts = only; prevs = alone },
      refl,
    )
  where
    only :
        (i : ℕ)
        → i < 1
        → next_of (record (new_thread 1 title entry stack_base) { next = some 0 } ∷ []) i
          ≡ some (after 1 i)
    only zero h = refl
    only (suc i) h = absurd (omega arith)

    alone :
        (i : ℕ)
        → i < 1
        → prev_of (record (new_thread 1 title entry stack_base) { next = some 0 } ∷ []) i ≡ none
    alone zero h = unfold new_thread in refl
    alone (suc i) h = absurd (omega arith)

-- The arguments of a call of `start_thread`, and the address of the new thread's stack.
pub record Start : Type 0 where
  pub title : List ℕ
  pub entry : ℕ
  pub stack_base : ℕ

unfoldable pub start_threads : Threads → List Start → Option Threads
start_threads s [] = some s
start_threads s (a ∷ rest) =
    start_thread s a.title a.entry a.stack_base >>= λ t. start_threads t rest
