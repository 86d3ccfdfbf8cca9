-- ===== src/Linux/Power/Waiting.antt =====
-- The wait of wl_down for callbacks that run (src/wl/sys/wl_linux.c).
use broadcom_bcm4312_fix.Prelude.{
  ==_iff, Bool, Bool-cases, Option, arith, false, if◌then◌else◌, inl, inr, leb, ltb, refl, some,
  subst, suc, true, zero, ℕ, ◌&&◌, ◌+◌, ◌-◌, ◌/◌, ◌<◌, ◌==◌, ◌≡◌, ◌≤◌, ◌⊎◌,
}
use broadcom_bcm4312_fix.Linux.Power.{
  Power, PowerGlue, down_rounds, spin_loop, spinwait, wait_rounds,
}

above : {m n : ℕ} → ltb m n ≡ true → m < n
above h = ground arith

-- What the loop on rounds ends with, from the round k on.
wait_rounds-bound :
    (read : ℕ → ℕ) (target n k : ℕ)
    → (k ≤ wait_rounds read target n k) × (wait_rounds read target n k ≤ k + n)
unfolding wait_rounds
wait_rounds-bound read target zero k = ground arith
wait_rounds-bound read target (suc n) k = ground (arith, wait_rounds-bound read target n (suc k))

-- Every round but the last found the count above the target.
wait_rounds-above :
    (read : ℕ → ℕ) (target n k j : ℕ)
    → k ≤ j
    → (wait_rounds read target n k ≤ j) ⊎ (target < read j)
unfolding wait_rounds
wait_rounds-above read target zero k j h = inl h
wait_rounds-above read target (suc n) k j h = elim (Bool-cases (ltb target (read k))) [
  | inr low ↦ rw low (inl h)
  | inl high ↦ rw high (elim (Bool-cases (k == j)) [
    | inl e ↦ inr (subst (λ x. target < read x) ((==_iff _ _).0 e) (above high))
    | inr ne ↦ wait_rounds-above read target n (suc k) j (ground arith)
  ])
]

-- The last one found it at or below the target, if a round was left.
wait_rounds-below :
    (read : ℕ → ℕ) (target n k : ℕ)
    → (wait_rounds read target n k ≡ k + n) ⊎ (read (wait_rounds read target n k) ≤ target)
unfolding wait_rounds
wait_rounds-below read target zero k = inl (omega arith)
wait_rounds-below read target (suc n) k = elim (Bool-cases (ltb target (read k))) [
  | inr low ↦ rw low (inr (ground arith))
  | inl high ↦ rw high (
      subst
        (λ x.
          (wait_rounds read target n (suc k) ≡ x)
          ⊎ (read (wait_rounds read target n (suc k)) ≤ target))
        (omega arith) (wait_rounds-below read target n (suc k)))
]

choice : (b : Bool) (m n : ℕ) → (if b && true then some m else some n) ≡ some (if b then m else n)
choice true m n = refl
choice false m n = refl

cut : (b : Bool) (o : Option ℕ) (k : ℕ) → (if b && false then o else some k) ≡ some k
cut true o k = refl
cut false o k = refl

same_rounds : (b : Bool) (m : ℕ) (o : Option ℕ) → o ≡ some m → (if b then some m else o) ≡ some m
same_rounds true m o h = refl
same_rounds false m o h = h

-- SPINWAIT is the loop on rounds of ten microseconds.
spin_loop-rounds :
    (read : ℕ → ℕ) (target fuel countdown k : ℕ)
    → countdown / 10 < fuel
    → spin_loop read target fuel countdown k ≡ some (wait_rounds read target (countdown / 10) k)
unfolding spin_loop wait_rounds
spin_loop-rounds read target zero countdown k h = absurd (omega arith)
spin_loop-rounds read target (suc fuel) countdown k h = elim (Bool-cases (leb 10 countdown)) [
  | inl more ↦
      let tenth : countdown / 10 ≡ suc ((countdown - 10) / 10) = ground arith in
      rw (tenth, more, spin_loop-rounds read target fuel (countdown - 10) (suc k) (omega arith))
        (choice (ltb target (read k)) _ _)
  | inr less ↦
      let tenth : countdown / 10 ≡ 0 = ground arith in
      rw (tenth, less) (cut (ltb target (read k)) _ k)
]

-- Both ways in which wl_down waits for callbacks, rounds of the scheduler and SPINWAIT with its
-- countdown, come to an end after the same number of rounds: at most 10000, each of which but the
-- last found the count above the target, and the last one, if a round was left, at or below it.
pub down_rounds_end :
    (g : PowerGlue) (target j : ℕ) (s : Power)
    → let r = wait_rounds (g.reads s.events) target 10000 0 in
      (down_rounds g target s ≡ some r)
      × (r ≤ 10000)
      × ((r ≤ j) ⊎ (target < g.reads s.events j))
      × ((r ≡ 10000) ⊎ (g.reads s.events r ≤ target))
unfolding down_rounds spinwait
down_rounds_end g target j s = (
  same_rounds g.passive _ _
      (spin_loop-rounds (g.reads s.events) target 100010 100009 0 (omega arith)),
  (wait_rounds-bound (g.reads s.events) target 10000 0).1,
  wait_rounds-above (g.reads s.events) target 10000 0 j (omega arith),
  wait_rounds-below (g.reads s.events) target 10000 0,
)
