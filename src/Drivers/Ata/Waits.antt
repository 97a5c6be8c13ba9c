-- ===== src/Drivers/Ata/Waits.antt =====
-- `wait` polls the status at most twelve times, with a sleep between two polls.
use native.Mathlib.Decide.{dec_lt}
use muk.Prelude.{
  ℕ, zero, suc, ◌+◌, ◌<◌, ◌≡◌, refl, sym, ap, ◌⊎◌, inl, inr, List, ◌∷◌, some, Bool, true, false,
  ◌==◌, bit_and, arith, Bool-cases, ltb,
}
use muk.Drivers.Ata.{Event, inb, sleep, Ata, device_offset, ata_status, wait_loop, wait}

-- The log after `k` polls that fail, with the sleep behind each.
abbrev pub polls : Ata → ℕ → List Event → List Event
polls ata zero log = log
polls ata (suc k) log = polls ata k (sleep 10 ∷ inb (device_offset ata + ata_status) ∷ log)

module _ (inportb inports : List Event → ℕ → ℕ) where
  -- Whether a poll after the log would see the state.
  unfoldable pub sees : Ata → ℕ → ℕ → List Event → Bool
  sees ata mask state log = bit_and (inportb log (device_offset ata + ata_status)) mask == state

  -- What a wait does, with at most `n` polls: after `k` polls that fail it either sees the state or has
  -- used up the last poll.
  abbrev pub Waits : ℕ → Ata → ℕ → ℕ → List Event → Bool → List Event → Type 0
  Waits n ata mask state log seen log' =
      (k : ℕ) × (k < n)
      × (log' ≡ inb (device_offset ata + ata_status) ∷ polls ata k log)
      × ((j : ℕ) → j < k → sees ata mask state (polls ata j log) ≡ false)
      × (seen ≡ sees ata mask state (polls ata k log))
      × ((seen ≡ true) ⊎ (suc k ≡ n))

  loop_lem :
      (n : ℕ) (ata : Ata) (mask state time : ℕ) (log : List Event)
      → n + time ≡ 12
      → time < 12
      → (seen : Bool) × (log' : List Event) × (wait_loop inportb inports n ata mask state time log
          ≡ some (seen, log'))
        × Waits n ata mask state log seen log'
  unfolding wait_loop sees
  loop_lem zero ata mask state time log e h = absurd (omega arith)
  loop_lem (suc n) ata mask state time log e h = elim (Bool-cases (sees ata mask state log)) [
    | inl seen ↦ (
      true,
      polled,
      rw seen refl,
      (0, omega arith, refl, λ j before. absurd (omega arith), sym seen, inl refl),
    )
    | inr unseen ↦ elim (dec_lt 10 time) [
      | yes p ↦
          let late : ltb 10 time ≡ true = ground arith in
          (
            false,
            polled,
            rw (unseen, late) refl,
            (0, omega arith, refl, λ j before. absurd (omega arith), sym unseen, inr (omega arith)),
          )
      | no early ↦
          let more : ltb 10 time ≡ false = ground arith in
          let (seen, log', result, (k, below, logged, blind, last, why)) =
            loop_lem n ata mask state (time + 1) (sleep 10 ∷ polled) (omega arith) (omega arith) in
          (
            seen,
            log',
            rw (unseen, more) result,
            (
              suc k,
              omega arith,
              logged,
              λ j before. blind_before unseen k blind j before,
              last,
              elim why [ inl t ↦ inl t | inr t ↦ inr (ap suc t) ],
            ),
          )
    ]
  ]
    where
      polled : List Event
      polled = inb (device_offset ata + ata_status) ∷ log

      blind_before :
          sees ata mask state log ≡ false
          → (k : ℕ)
          → ((j : ℕ) → j < k → sees ata mask state (polls ata j (sleep 10 ∷ polled)) ≡ false)
          → (j : ℕ) → j < suc k
          → sees ata mask state (polls ata j log) ≡ false
      blind_before unseen k blind zero before = unseen
      blind_before unseen k blind (suc j) before = blind j (omega arith)

  -- `wait` always comes back, after at most twelve polls, each but the last followed by a sleep of ten:
  -- no poll before the last one saw the state, and the result tells whether the last one did, which is
  -- false only after twelve.
  pub wait_lem :
      (ata : Ata) (mask state : ℕ) (log : List Event)
      → (seen : Bool) × (log' : List Event) × (wait inportb inports ata mask state log
          ≡ some (seen, log'))
        × Waits 12 ata mask state log seen log'
  unfolding wait
  wait_lem ata mask state log = loop_lem 12 ata mask state 0 log refl (omega arith)
