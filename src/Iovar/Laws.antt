-- ===== src/Iovar/Laws.antt =====
-- What the variable functions come to where bcm_mkiovar has room for the name and the data.
use broadcom_bcm4312_fix.Prelude.{ℕ, ◌≤◌}
use broadcom_bcm4312_fix.Headers.{IoVar, int_size, ioctl_len_max, ioctl_smlen}
use broadcom_bcm4312_fix.State.{Platform}

-- bcm_mkiovar's documented result where the buffer is large enough: name, NUL and data. Every name
-- of this layer has at least three characters, and none reaches 32.
pub record MkiovarFits (x : Platform) : Type 0 where
  pub small : (v : IoVar) (n : ℕ) → n ≤ int_size → int_size ≤ x.mkiovar v n ioctl_smlen
  pub large : (v : IoVar) (n : ℕ) → n ≤ 1024 → int_size ≤ x.mkiovar v n ioctl_len_max
