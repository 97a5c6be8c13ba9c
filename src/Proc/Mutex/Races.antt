-- ===== src/Proc/Mutex/Races.antt =====
-- What the timer can do to a `SpinlockMutex` between two accesses.
use muk.Prelude.{ℕ, ◌≡◌, ◌≢◌, refl, ◌⊎◌, arith, subst, sym}
use muk.Proc.Mutex.{SpinlockMutex}
use muk.Proc.Mutex.Threads.{
  Pc, idle, spinning, passed, claimed, holding, leaving, freed, Move, call, spin, pass, claim, mark,
  own, ignore, free, clear, System, update, Step, access, Reach, here, next, start,
}

advance :
    {r s : System} (t : ℕ) (p0 : Pc) {m : SpinlockMutex} {p : Pc}
    → Reach r s
    → t ≢ 0
    → s.pc t ≡ p0
    → Move t s.mutex p0 m p
    → Reach r (record { mutex = m; pc = update s.pc t p })
advance {s} t p0 {m} {p} r ne e mv =
    next r (access t ne (subst (λ q. Move t s.mutex q m p) (sym e) mv))

at_start : Reach start start
at_start = here

-- `Lock` tests the flag and sets it in two accesses: any two threads can hold the lock together.
pub both_hold :
    (i j : ℕ)
    → i ≢ 0
    → j ≢ 0
    → i ≢ j
    → (s : System) × Reach start s × (s.pc i ≡ holding) × (s.pc j ≡ holding)
both_hold i j hi hj ne =
    let r1 = advance i idle {p = spinning} at_start hi refl call in
    let r2 = advance i spinning r1 hi (ground arith) (pass refl) in
    let r3 = advance j idle r2 hj (ground arith) call in
    let r4 = advance j spinning r3 hj (ground arith) (pass refl) in
    let r5 = advance i passed r4 hi (ground arith) claim in
    let r6 = advance i claimed r5 hi (ground arith) mark in
    let r7 = advance j passed r6 hj (ground arith) claim in
    let r8 = advance j claimed r7 hj (ground arith) mark in (_, r8, ground arith, ground arith)

-- No thread is in `Unlock` or past the test of `Lock`.
record IsStuck (s : System) : Type 0 where
  flag : s.mutex.interlock ≡ 1
  outside : (t : ℕ) → (s.pc t ≡ idle) ⊎ (s.pc t ≡ spinning)

Step-IsStuck : {s u : System} → IsStuck s → Step s u → IsStuck u
Step-IsStuck {s} v (access t ne mv) = keep (s.pc t) (v.outside t) mv
  where
    keep :
        (q : Pc)
        → (q ≡ idle) ⊎ (q ≡ spinning)
        → {m : SpinlockMutex} {p : Pc} → Move t s.mutex q m p
        → IsStuck (record { mutex = m; pc = update s.pc t p })
    keep q h call = record { flag = v.flag; outside = λ u. ground (arith, v.outside u) }
    keep q h (spin ne) = record { flag = v.flag; outside = λ u. ground (arith, v.outside u) }
    keep q h (pass e) = absurd (ground (arith, v.flag, e))
    keep q h claim = absurd (ground (arith, h))
    keep q h mark = absurd (ground (arith, h))
    keep q h (own e) = absurd (ground (arith, h))
    keep q h (ignore e) = absurd (ground (arith, h))
    keep q h free = absurd (ground (arith, h))
    keep q h clear = absurd (ground (arith, h))

Reach-IsStuck : {s u : System} → IsStuck s → Reach s u → IsStuck u
Reach-IsStuck v here = v
Reach-IsStuck v (next r st) = Step-IsStuck (Reach-IsStuck v r) st

lost_release :
    (i j : ℕ)
    → i ≢ 0
    → j ≢ 0
    → i ≢ j
    → (s : System) × Reach start s × IsStuck s × (s.pc i ≡ idle) × (s.pc j ≡ idle)
lost_release i j hi hj ne =
    let r1 = advance i idle {p = spinning} at_start hi refl call in
    let r2 = advance i spinning r1 hi (ground arith) (pass refl) in
    let r3 = advance i passed r2 hi (ground arith) claim in
    let r4 = advance i claimed r3 hi (ground arith) mark in
    let r5 = advance i holding r4 hi (ground arith) (own refl) in
    let r6 = advance i leaving r5 hi (ground arith) free in
    let r7 = advance j idle r6 hj (ground arith) call in
    let r8 = advance j spinning r7 hj (ground arith) (pass refl) in
    let r9 = advance j passed r8 hj (ground arith) claim in
    let r10 = advance j claimed r9 hj (ground arith) mark in
    let r11 = advance i freed r10 hi (ground arith) clear in
    let r12 = advance j holding r11 hj (ground arith) (ignore (λ e. hj (sym e))) in
    (_, r12, record { flag = refl; outside = λ t. ground arith }, ground arith, ground arith)

-- `Unlock` clears the flag before the owner: any two threads can come to a state, both outside, from
-- which no thread ever holds the lock again.
pub locked_for_ever :
    (i j : ℕ)
    → i ≢ 0
    → j ≢ 0
    → i ≢ j
    → (s : System) × Reach start s
      × (s.pc i ≡ idle)
      × (s.pc j ≡ idle)
      × ((u : System) → Reach s u → (t : ℕ) → u.pc t ≢ holding)
locked_for_ever i j hi hj ne =
    let (s, r, v, a, b) = lost_release i j hi hj ne in
    (s, r, a, b, λ u ru t e. absurd (ground (arith, (Reach-IsStuck v ru).outside t, e)))
