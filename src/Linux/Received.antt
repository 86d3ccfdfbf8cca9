-- ===== src/Linux/Received.antt =====
-- Received packets on their way to the kernel: wl_sendup (src/wl/sys/wl_linux.c).
pub mod Delivery
use broadcom_bcm4312_fix.Prelude.{
  Bool, List, Option, [], drop, if◌then◌else◌, none, some, ℕ, ◌+◌, ◌==◌, ◌||◌, ◌∷◌,
}
use broadcom_bcm4312_fix.Headers.{Bytes}
use broadcom_bcm4312_fix.Shared.Modular.{isaligned}
use broadcom_bcm4312_fix.Shared.Endian.{ntoh16_ua}

-- A packet: a number for it, its bytes, and the address of its data behind eth_type_trans.
pub record RxPacket : Type 0 where
  pub number : ℕ
  pub octets : Bytes
  pub data_addr : ℕ

-- The interface as wl_sendup reads it: its net_device, `none` for NULL, and netif_device_present.
pub record RxIf : Type 0 where
  pub net_dev : Option ℕ
  pub is_present : Bool

-- The packets that were handed to the kernel, with their device, and those that were freed, newest
-- first, and how many had data that is not aligned, which is only reported.
pub record Rx : Type 0 where
  pub handed : List (ℕ × ℕ)
  pub dropped : List ℕ
  pub unaligned : ℕ

-- ETHER_TYPE_OFFSET and ETHER_TYPE_BRCM of proto/*.h are parameters; `own` is wl->dev.
module _ (type_offset type_brcm own : ℕ) where
  unfoldable pub is_brcm : RxPacket → Bool
  is_brcm p = ntoh16_ua (drop type_offset p.octets) == type_brcm

  unfoldable pub hand_over : ℕ → RxPacket → Rx → Rx
  hand_over dev p s = record s {
    handed = (p.number, dev) ∷ s.handed;
    unaligned = if is_brcm p || isaligned p.data_addr 4 then s.unaligned else s.unaligned + 1;
  }

  -- Without an interface the packet is for the device itself.
  unfoldable pub wl_sendup : Option RxIf → RxPacket → Rx → Rx
  wl_sendup none p s = hand_over own p s
  wl_sendup (some i) p s = elim i.net_dev [
    | none ↦ record s { dropped = p.number ∷ s.dropped }
    | some dev ↦
        if i.is_present then hand_over dev p s else record s { dropped = p.number ∷ s.dropped }
  ]

  -- The packets that the binary part hands up, one after the other.
  unfoldable pub sendup_all : List (Option RxIf × RxPacket) → Rx → Rx
  sendup_all [] s = s
  sendup_all ((i, p) ∷ ps) s = sendup_all ps (wl_sendup i p s)
