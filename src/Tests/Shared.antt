-- ===== src/Tests/Shared.antt =====
-- Examples of the theorems on the shared headers.
use broadcom_bcm4312_fix.Prelude.{[], arith, false, refl, true, ◌∷◌, ◌%◌, ◌+◌, ◌≡◌}
use broadcom_bcm4312_fix.Shared.Modular.{
  modadd, modadd_pow2, moddec, moddec_pow2, modinc, modinc_pow2, modsub, modsub_pow2,
}
use broadcom_bcm4312_fix.Shared.Endian.{
  bcmswap32, htol32_ua_store, hton32_ua_store, ltoh32_ua, ntoh32_ua,
}
use broadcom_bcm4312_fix.Shared.Modular.Agreement.{modular_agree}
use broadcom_bcm4312_fix.Shared.Endian.Agreement.{byte_orders_agree}
use broadcom_bcm4312_fix.Prelude.Bits.{pow2}
use broadcom_bcm4312_fix.Shared.BitArray.{clrbit, isclr, isset, setbit}
use broadcom_bcm4312_fix.Shared.BitArray.Members.{isset-setbit}

byte_orders_agree_example :
    (ltoh32_ua (htol32_ua_store 0x12345678) ≡ 0x12345678)
    × (ntoh32_ua (hton32_ua_store 0x12345678) ≡ 0x12345678)
    × (htol32_ua_store (bcmswap32 0x12345678) ≡ hton32_ua_store 0x12345678)
    × (ntoh32_ua (htol32_ua_store 0x12345678) ≡ bcmswap32 0x12345678)
    × (bcmswap32 (bcmswap32 0x12345678) ≡ 0x12345678)
byte_orders_agree_example = byte_orders_agree 0x12345678 (omega arith)

modular_agree_example :
    (modadd_pow2 6 5 (pow2 3) ≡ modadd 6 5 (pow2 3))
    × (modsub_pow2 6 5 (pow2 3) ≡ modsub 6 5 (pow2 3))
    × (modinc_pow2 6 (pow2 3) ≡ modinc 6 (pow2 3))
    × (moddec_pow2 6 (pow2 3) ≡ moddec 6 (pow2 3))
    × (modadd 6 5 (pow2 3) ≡ (6 + 5) % pow2 3)
    × (modsub (modadd 6 5 (pow2 3)) 5 (pow2 3) ≡ 6)
modular_agree_example = modular_agree 29 3 refl 6 5 (omega arith) (omega arith) (omega arith)

isset-setbit_example :
    (isset (setbit (0 ∷ 5 ∷ []) 9) 10 ≡ true)
    × (isset (clrbit (0 ∷ 5 ∷ []) 9) 10 ≡ true)
    × (isclr (0 ∷ 5 ∷ []) 10 ≡ false)
unfolding isset setbit clrbit isclr
isset-setbit_example = isset-setbit (0 ∷ 5 ∷ []) 9 10 (omega arith, (omega arith, tt)) (omega arith)
