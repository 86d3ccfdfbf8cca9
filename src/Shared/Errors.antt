-- ===== src/Shared/Errors.antt =====
-- The error codes of the binary part (src/include/bcmutils.h).
use broadcom_bcm4312_fix.Prelude.Int.{negsuc, ℤ}

abbrev pub bcme_badaddr : ℤ
bcme_badaddr = negsuc 20

abbrev pub bcme_noresource : ℤ
bcme_noresource = negsuc 21

abbrev pub bcme_unsupported : ℤ
bcme_unsupported = negsuc 22

abbrev pub bcme_eperm : ℤ
bcme_eperm = negsuc 25
