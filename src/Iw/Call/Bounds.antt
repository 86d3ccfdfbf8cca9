-- ===== src/Iw/Call/Bounds.antt =====
-- The buffer that wl_iw_ioctl passes to a handler (src/wl/sys/wl_iw.c).
use native.Mathlib.Nat.{mul-le-mul_right}
use broadcom_bcm4312_fix.Prelude.{
  Bool-cases, List, Option, ap, arith, false, inl, inr, length, length-memcpy, ltb, memcpy, none,
  refl, some, take, take-memcpy_start, ℕ, ◌*◌, ◌==◌, ◌↔◌, ◌∙◌, ◌≡◌, ◌≤◌,
}
use broadcom_bcm4312_fix.Iw.{Driver, IwEffect}
use broadcom_bcm4312_fix.Headers.{Bytes}
use broadcom_bcm4312_fix.Iw.Monad.{is_zero, neg_e2big, neg_efault, neg_enomem}
use broadcom_bcm4312_fix.Iw.Call.{IwHandler, Request, copy_in, tokens_of}
use broadcom_bcm4312_fix.Prelude.Int.{pos, ℤ}

-- What copy_in leaves for the bytes at the caller's pointer: a buffer of the handler's size that
-- begins with the caller's bytes, or none.
abbrev pub Fits : Driver → IwHandler → Request → Bytes → ℤ × Option Bytes → Type 0
Fits d h req bytes (status, some extra) =
    (status ≡ pos 0)
    × (req.len ≤ (tokens_of d h).0)
    × (length extra ≡ (tokens_of d h).0 * (tokens_of d h).1)
    × (take (req.len * (tokens_of d h).1) extra ≡ take (req.len * (tokens_of d h).1) bytes)
Fits d h req bytes (status, none) = (status ≡ pos 0) ↔ ((tokens_of d h).0 ≡ 0)

error_none : (e : ℤ) (n : ℕ) → is_zero e ≡ false → (n == 0) ≡ false → (e ≡ pos 0) ↔ (n ≡ 0)
error_none e n fails positive =
    (λ h. absurd (ground (arith, fails, ap is_zero h)), λ h. absurd (ground (arith, positive, h)))

filled :
    (d : Driver) (h : IwHandler) (req : Request) (bytes memory : Bytes)
    → req.len ≤ (tokens_of d h).0
    → length memory ≡ (tokens_of d h).0 * (tokens_of d h).1
    → req.len * (tokens_of d h).1 ≤ length bytes
    → Fits d h req bytes (pos 0, some (memcpy memory 0 bytes (req.len * (tokens_of d h).1)))
filled d h req bytes memory short size enough = (
  refl,
  short,
  length-memcpy memory 0 bytes n (omega (arith, room, size)) enough ∙ size,
  take-memcpy_start memory bytes n enough,
)
  where
    n : ℕ
    n = req.len * (tokens_of d h).1

    room : req.len * (tokens_of d h).1 ≤ (tokens_of d h).0 * (tokens_of d h).1
    room = mul-le-mul_right (tokens_of d h).1 short

-- For a caller whose pointer has the bytes of its length, and an allocator that gives what it is
-- asked for, wl_iw_ioctl hands a handler a buffer of that handler's size which begins with the
-- caller's bytes, and refuses a length above the handler's limit; it goes on without a buffer
-- just where the handler takes none.
pub copy_in-Fits :
    (d : Driver) (fresh : ℕ → Bytes) (log : List IwEffect) (h : IwHandler) (req : Request)
    (bytes : Bytes)
    → ((n : ℕ) → length (fresh n) ≡ n)
    → req.pointer ≡ some bytes
    → req.len * (tokens_of d h).1 ≤ length bytes
    → Fits d h req bytes (copy_in d fresh log h req)
unfolding copy_in
copy_in-Fits d fresh log h req bytes sized at_pointer enough =
    rw at_pointer (elim (Bool-cases (max_tokens == 0)) [
      | inl unused ↦ rw unused (λ e. ground (arith, unused), λ e. refl)
      | inr used ↦ rw used (elim (Bool-cases (ltb max_tokens req.len)) [
        | inl long ↦ rw long (error_none neg_e2big max_tokens refl used)
        | inr short ↦ rw short (elim (Bool-cases (d.kmalloc log (max_tokens * token_size))) [
          | inr refused ↦ rw refused (error_none neg_enomem max_tokens refl used)
          | inl given ↦ rw given (elim (Bool-cases req.from_user) [
            | inr faulty ↦ rw faulty (error_none neg_efault max_tokens refl used)
            | inl copied ↦ rw copied (
                filled d h req bytes (fresh (max_tokens * token_size)) (ground (arith, short))
                  (sized (max_tokens * token_size)) enough)
          ])
        ])
      ])
    ])
  where
    max_tokens : ℕ
    max_tokens = (tokens_of d h).0

    token_size : ℕ
    token_size = (tokens_of d h).1
