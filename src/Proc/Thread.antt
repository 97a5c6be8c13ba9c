-- ===== src/Proc/Thread.antt =====
-- Threads and the scheduler: kernel/proc/thread.cpp and kernel/proc/scheduler.cpp. A pointer to a
-- thread is its place in the order of allocation, and `none` as a result is the use of a null or
-- dangling pointer.
pub mod Links
pub mod Ring
pub mod Turns
mod Tests
use muk.Prelude.{
  ℕ, zero, suc, ◌+◌, ◌-◌, ◌^◌, List, [], ◌∷◌, ◌++◌, Option, none, some, Bool, true, false, ◌==◌,
  not, if◌then◌else◌, ◌>>=◌, length, get_elem?,
}
use muk.Word.{sub32}

-- `class Thread`. `stack` is what has been pushed, the top first, and `stack_ptr` its address; the
-- registers are those of `state_reg` that `start_thread` sets to something other than 0.
pub record Thread : Type 0 where
  pub thread_id : ℕ
  pub proc_id : ℕ
  pub title : List ℕ
  pub entry_ptr : ℕ
  pub stack_ptr : ℕ
  pub stack : List ℕ
  pub eip : ℕ
  pub esp : ℕ
  pub eflags : ℕ
  pub prev : Option ℕ
  pub next : Option ℕ

pub record Threads : Type 0 where
  pub store : List Thread
  pub thread_root : Option ℕ
  pub next_tid : ℕ

-- `t->next` and `t->prev`, for a pointer that is not null.
pub next_of : List Thread → ℕ → Option ℕ
next_of store t = get_elem? store t >>= λ th. th.next

pub prev_of : List Thread → ℕ → Option ℕ
prev_of store t = get_elem? store t >>= λ th. th.prev

pub set_next : List Thread → ℕ → ℕ → List Thread
set_next [] t p = []
set_next (th ∷ ths) zero p = record th { next = some p } ∷ ths
set_next (th ∷ ths) (suc t) p = th ∷ set_next ths t p

pub set_prev : List Thread → ℕ → ℕ → List Thread
set_prev [] t p = []
set_prev (th ∷ ths) zero p = record th { prev = some p } ∷ ths
set_prev (th ∷ ths) (suc t) p = th ∷ set_prev ths t p

-- `for (; t->next != thread_root; t = t->next)`, on fuel.
pub last_thread : ℕ → List Thread → ℕ → ℕ → Option ℕ
unfolding next_of
last_thread zero store root t = none
last_thread (suc fuel) store root t = next_of store t >>= λ n.
    let rest = last_thread fuel store root n in if n == root then some t else rest

-- The macro PUSH, at a stack of 32-bit words.
pub push_word : ℕ → Thread → Thread
push_word item th = record th { stack_ptr = sub32 th.stack_ptr 4; stack = item ∷ th.stack }

-- The new thread before it is linked. `stack_base` is the address of its array `stack`.
pub new_thread : ℕ → List ℕ → ℕ → ℕ → Thread
unfolding push_word
new_thread tid title entry stack_base =
    let bare : Thread = record {
      thread_id = tid;
      proc_id = 1;
      title = title;
      entry_ptr = entry;
      stack_ptr = stack_base + 4096;
      stack = [];
      eip = entry;
      esp = 0;
      eflags = 2 ^ 9 + 1;
      prev = none;
      next = none;
    } in
    let seeded = push_word 0 (push_word 0 (push_word 0 (push_word 0 (push_word entry bare)))) in
    record seeded { esp = seeded.stack_ptr }

-- The links of a new thread at `self`. The loop is given a round for each thread.
pub link : Threads → ℕ → Thread → Option Threads
link s self th = elim s.thread_root [
  | none ↦ some (record {
    store = s.store ++ record th { next = some self } ∷ [];
    thread_root = some self;
    next_tid = s.next_tid + 1;
  })
  | some root ↦ last_thread (length s.store) s.store root root >>= λ t. some (record s {
    store =
        set_prev (set_next s.store t self ++ record th { prev = some t; next = some root } ∷ [])
          root self;
    next_tid = s.next_tid + 1;
  })
]

pub start_thread : Threads → List ℕ → ℕ → ℕ → Option Threads
unfolding link
start_thread s title entry stack_base =
    link s (length s.store) (new_thread s.next_tid title entry stack_base)

-- What `Scheduler::next` does with the threads once the scheduler has started: the thread that runs
-- next, and the thread whose `state_reg.esp` receives the old stack pointer.
pub scheduler_next : List Thread → ℕ → Option (ℕ × ℕ)
unfolding next_of prev_of
scheduler_next store running =
    next_of store running >>= λ n. prev_of store n >>= λ saved. some (n, saved)
