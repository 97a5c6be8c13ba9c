-- ===== src/Proc/Thread/Links.antt =====
-- How the links of the threads change.
use muk.Prelude.{
  ℕ, zero, suc, ◌<◌, ◌≡◌, refl, ap, List, [], ◌∷◌, ◌++◌, some, arith, ◌==◌, if◌then◌else◌, length,
}
use muk.Proc.Thread.{Thread, next_of, prev_of, set_next, set_prev}

pub length-set_next : (ths : List Thread) (t p : ℕ) → length (set_next ths t p) ≡ length ths
unfolding set_next
length-set_next [] t p = refl
length-set_next (th ∷ ths) zero p = refl
length-set_next (th ∷ ths) (suc t) p = ap suc (length-set_next ths t p)

pub length-set_prev : (ths : List Thread) (t p : ℕ) → length (set_prev ths t p) ≡ length ths
unfolding set_prev
length-set_prev [] t p = refl
length-set_prev (th ∷ ths) zero p = refl
length-set_prev (th ∷ ths) (suc t) p = ap suc (length-set_prev ths t p)

pub next_of-set_next :
    (ths : List Thread) (t p i : ℕ)
    → t < length ths
    → next_of (set_next ths t p) i ≡ (if i == t then some p else next_of ths i)
unfolding next_of set_next
next_of-set_next [] t p i h = absurd (omega arith)
next_of-set_next (th ∷ ths) zero p zero h = ground arith
next_of-set_next (th ∷ ths) zero p (suc i) h = ground arith
next_of-set_next (th ∷ ths) (suc t) p zero h = ground arith
next_of-set_next (th ∷ ths) (suc t) p (suc i) h = ground (arith, next_of-set_next ths t p i)

pub prev_of-set_next :
    (ths : List Thread) (t p i : ℕ) → prev_of (set_next ths t p) i ≡ prev_of ths i
unfolding prev_of set_next
prev_of-set_next [] t p i = refl
prev_of-set_next (th ∷ ths) zero p zero = refl
prev_of-set_next (th ∷ ths) zero p (suc i) = refl
prev_of-set_next (th ∷ ths) (suc t) p zero = refl
prev_of-set_next (th ∷ ths) (suc t) p (suc i) = prev_of-set_next ths t p i

pub prev_of-set_prev :
    (ths : List Thread) (t p i : ℕ)
    → t < length ths
    → prev_of (set_prev ths t p) i ≡ (if i == t then some p else prev_of ths i)
unfolding prev_of set_prev
prev_of-set_prev [] t p i h = absurd (omega arith)
prev_of-set_prev (th ∷ ths) zero p zero h = ground arith
prev_of-set_prev (th ∷ ths) zero p (suc i) h = ground arith
prev_of-set_prev (th ∷ ths) (suc t) p zero h = ground arith
prev_of-set_prev (th ∷ ths) (suc t) p (suc i) h = ground (arith, prev_of-set_prev ths t p i)

pub next_of-set_prev :
    (ths : List Thread) (t p i : ℕ) → next_of (set_prev ths t p) i ≡ next_of ths i
unfolding next_of set_prev
next_of-set_prev [] t p i = refl
next_of-set_prev (th ∷ ths) zero p zero = refl
next_of-set_prev (th ∷ ths) zero p (suc i) = refl
next_of-set_prev (th ∷ ths) (suc t) p zero = refl
next_of-set_prev (th ∷ ths) (suc t) p (suc i) = next_of-set_prev ths t p i

pub next_of-append :
    (ths : List Thread) (th : Thread) (i : ℕ)
    → next_of (ths ++ th ∷ []) i ≡ (if i == length ths then th.next else next_of ths i)
unfolding next_of
next_of-append [] th zero = refl
next_of-append [] th (suc i) = ground arith
next_of-append (x ∷ ths) th zero = ground arith
next_of-append (x ∷ ths) th (suc i) = ground (arith, next_of-append ths th i)

pub prev_of-append :
    (ths : List Thread) (th : Thread) (i : ℕ)
    → prev_of (ths ++ th ∷ []) i ≡ (if i == length ths then th.prev else prev_of ths i)
unfolding prev_of
prev_of-append [] th zero = refl
prev_of-append [] th (suc i) = ground arith
prev_of-append (x ∷ ths) th zero = ground arith
prev_of-append (x ∷ ths) th (suc i) = ground (arith, prev_of-append ths th i)
