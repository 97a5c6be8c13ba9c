-- ===== src/Proc/Thread/Tests.antt =====
-- Rings of one and of four threads, as `init_kthreads` starts them.
use muk.Prelude.{
  ℕ, zero, suc, ◌+◌, ◌%◌, ◌≤◌, ◌≡◌, ◌⊎◌, refl, some, none, List, [], ◌∷◌, arith, ◌>>=◌,
}
use muk.Proc.Thread.{
  Thread, Threads, new_thread, start_thread, next_of, prev_of, set_next, set_prev, last_thread,
  scheduler_next,
}
use muk.Proc.Thread.Ring
use muk.Proc.Thread.Ring.{IsRing, Start, no_threads, start_threads}
use muk.Proc.Thread.Turns.{turns, turns_lem}

abbrev at_entry : ℕ → Start
at_entry entry = record { title = b'k' ∷ 0 ∷ []; entry = entry; stack_base = 0xE0000100 }

abbrev drivers : List Start
drivers = at_entry 0xC0100200 ∷ at_entry 0xC0100300 ∷ at_entry 0xC0100400 ∷ []

-- The frame from which `set_context` starts a thread: four registers, then its entry.
new_thread_frame :
    ((new_thread 1 [] 0xC0100000 0xE0000000).stack ≡ 0 ∷ 0 ∷ 0 ∷ 0 ∷ 0xC0100000 ∷ [])
    × ((new_thread 1 [] 0xC0100000 0xE0000000).esp ≡ 0xE0000FEC)
unfolding new_thread
new_thread_frame = (refl, refl)

four_threads_run :
    (start_threads no_threads (at_entry 0xC0100000 ∷ drivers) >>= λ t. turns 5 t.store 2) ≡ some 3
unfolding start_threads start_thread turns scheduler_next set_next set_prev last_thread
four_threads_run = refl

abbrev bare : ℕ → ℕ → Thread
bare prev next = record {
  thread_id = 1;
  proc_id = 1;
  title = [];
  entry_ptr = 0;
  stack_ptr = 0;
  stack = [];
  eip = 0;
  esp = 0;
  eflags = 0;
  prev = some prev;
  next = some next;
}

abbrev pair_of_threads : Threads
pair_of_threads = record { store = bare 1 1 ∷ bare 0 0 ∷ []; thread_root = some 0; next_tid = 3 }

pair_nexts : (i : ℕ) → suc i ≤ 2 → next_of pair_of_threads.store i ≡ some (Ring.after 2 i)
unfolding next_of
pair_nexts zero h = refl
pair_nexts (suc zero) h = refl
pair_nexts (suc (suc i)) h = absurd (omega arith)

pair_prevs : (i : ℕ) → suc i ≤ 2 → prev_of pair_of_threads.store i ≡ some (Ring.before 2 i)
unfolding prev_of
pair_prevs zero h = refl
pair_prevs (suc zero) h = refl
pair_prevs (suc (suc i)) h = absurd (omega arith)

pair-IsRing : IsRing 2 pair_of_threads
pair-IsRing = record {
  some_thread = omega arith;
  size = refl;
  root = refl;
  nexts = pair_nexts;
  prevs = pair_prevs;
}

turns_lem_example :
    ((◌≡◌ {A = ℕ} 2 1) × (scheduler_next pair_of_threads.store 1 ≡ none))
    ⊎ ((2 ≤ 2)
        × (scheduler_next pair_of_threads.store 1 ≡ some ((1 + 1) % 2, 1))
        × (turns 7 pair_of_threads.store 1 ≡ some ((1 + 7) % 2)))
turns_lem_example = turns_lem 2 pair_of_threads 1 7 pair-IsRing (omega arith)
