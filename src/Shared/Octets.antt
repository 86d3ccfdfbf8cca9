-- ===== src/Shared/Octets.antt =====
-- Lists whose numbers are bytes.
use broadcom_bcm4312_fix.Prelude.{[], arith, get_or, suc, zero, ℕ, ◌<◌, ◌∷◌}
use broadcom_bcm4312_fix.Headers.{Bytes}

abbrev pub AreBytes : Bytes → Type 0
AreBytes [] = Unit
AreBytes (b ∷ bs) = (b < 256) × AreBytes bs

pub byte-lt : (xs : Bytes) (i : ℕ) → AreBytes xs → get_or xs i 0 < 256
byte-lt [] i h = omega arith
byte-lt (x ∷ xs) zero (p, h) = p
byte-lt (x ∷ xs) (suc i) (p, h) = byte-lt xs i h
