-- ===== src/Scan/Results.antt =====
-- The loop that fetches scan results, and its fuel.
use native.Mathlib.Nat.{one-le-pow, pow-suc}
use broadcom_bcm4312_fix.Prelude.{
  Option-cases, ap, arith, inl, inr, none, refl, suc, zero, ℕ, ◌*◌, ◌+◌, ◌<◌, ◌^◌, ◌≡◌, ◌≢◌, ◌≤◌,
}
use broadcom_bcm4312_fix.Iovar.{wl_dev_ioctl}
use broadcom_bcm4312_fix.Headers.{Status, scan_buf_base}
use broadcom_bcm4312_fix.State.{Platform, World, buffer_arg}
use broadcom_bcm4312_fix.Scan.{fetch_fuel, fetch_results, next_buflen}
use broadcom_bcm4312_fix.Headers.Commands.{scan_results}

factor_le : (c p m : ℕ) → 1 ≤ p → c * p ≡ m → c ≤ m
factor_le c p m h e = grind arith

next_small : (b : ℕ) → b * 2 ≤ 2 ^ 31 → next_buflen b ≡ b * 2
next_small b h = omega arith

twice : (b k : ℕ) → b * 2 ^ suc k ≡ 2 ^ 31 → b * 2 * 2 ^ k ≡ 2 ^ 31
twice b k e = omega (arith, ap (λ (t : ℕ). b * t) (pow-suc 2 k), e)

doubled : (b k : ℕ) → b * 2 ^ suc k ≡ 2 ^ 31 → next_buflen b * 2 ^ k ≡ 2 ^ 31
doubled b k e = rw (next_small b fits) (twice b k e)
  where
    fits : b * 2 ≤ 2 ^ 31
    fits = factor_le (b * 2) (2 ^ k) (2 ^ 31) (one-le-pow k 2 (omega arith)) (twice b k e)

module _ (x : Platform) where
  -- A length of 0 does not reach the firmware: the allocator refuses, or BUG_ON stops.
  fetch_zero : (fuel : ℕ) (err : Status) (w : World) → fetch_results x (suc fuel) 0 err w ≢ none
  unfolding fetch_results wl_dev_ioctl
  fetch_zero fuel err w = ground arith

  fetch_step :
      (fuel b : ℕ) (err : Status) (w : World)
      → ((err' : Status) (w' : World) → fetch_results x fuel (next_buflen b) err' w' ≢ none)
      → fetch_results x (suc fuel) b err w ≢ none
  unfolding fetch_results
  fetch_step fuel b err w rest h =
      elim (Option-cases (wl_dev_ioctl x scan_results (buffer_arg b) b w)) [
        | inl e ↦ ground (arith, e)
        | inr (answer, e) ↦ ground (arith, e, rest answer.0.status answer.1)
      ]

  -- `k` doublings take the length to 2 ^ 32, which is 0 in a u32.
  pub fetch_doubling :
      (k fuel b : ℕ)
      → b * 2 ^ k ≡ 2 ^ 31
      → k + 1 < fuel
      → (err : Status) (w : World) → fetch_results x fuel b err w ≢ none
  fetch_doubling k zero b e lt err w = absurd (omega arith)
  fetch_doubling zero (suc zero) b e lt err w = absurd (omega arith)
  fetch_doubling zero (suc (suc fuel)) b e lt err w =
      fetch_step (suc fuel) b err w (λ err' w'. rw (wraps b e) (fetch_zero fuel err' w'))
    where
      wraps : (b : ℕ) → b * 2 ^ 0 ≡ 2 ^ 31 → next_buflen b ≡ 0
      wraps b e = omega arith
  fetch_doubling (suc k) (suc fuel) b e lt err w =
      fetch_step fuel b err w
        (λ err' w'. fetch_doubling k fuel (next_buflen b) (doubled b k e) (omega arith) err' w')

  -- Whatever the firmware and the allocator answer, the loop of wl_notify_scan_status that doubles
  -- the buffer ends within its fuel: with results, with an error, without memory, or in the BUG_ON
  -- on a buffer length that has wrapped to 0. So the model's scan handler never runs out of fuel.
  pub fetch_results_ends :
      (err : Status) (w : World) → fetch_results x fetch_fuel scan_buf_base err w ≢ none
  fetch_results_ends = fetch_doubling 17 fetch_fuel scan_buf_base refl (omega arith)
