-- ===== src/Linux/Received/Delivery.antt =====
-- Where received packets go (src/wl/sys/wl_linux.c).
use broadcom_bcm4312_fix.Prelude.{
  Bool, List, Option, [], ap, false, if◌then◌else◌, none, refl, some, true, ℕ, ◌∙◌, ◌∷◌, ◌≡◌,
}
use broadcom_bcm4312_fix.Linux.Received.{Rx, RxIf, RxPacket, hand_over, sendup_all, wl_sendup}

-- The device that a packet is for, `none` where its interface is not ready.
abbrev pub device_of : ℕ → Option RxIf → Option ℕ
device_of own none = some own
device_of own (some i) = if i.is_present then i.net_dev else none

-- Those for which there is a device, with it, and the others, newest first behind what was there.
abbrev pub deliveries : ℕ → List (Option RxIf × RxPacket) → List (ℕ × ℕ) → List (ℕ × ℕ)
deliveries own [] xs = xs
deliveries own ((i, p) ∷ ps) xs =
    deliveries own ps (elim (device_of own i) [ none ↦ xs | some dev ↦ (p.number, dev) ∷ xs ])

abbrev pub refusals : ℕ → List (Option RxIf × RxPacket) → List ℕ → List ℕ
refusals own [] xs = xs
refusals own ((i, p) ∷ ps) xs =
    refusals own ps (elim (device_of own i) [ none ↦ p.number ∷ xs | some dev ↦ xs ])

-- One packet.
wl_sendup-delivers :
    (type_offset type_brcm own : ℕ) (i : Option RxIf) (p : RxPacket) (s : Rx)
    → ((wl_sendup type_offset type_brcm own i p s).handed
        ≡ elim (device_of own i) [ none ↦ s.handed | some dev ↦ (p.number, dev) ∷ s.handed ])
      × ((wl_sendup type_offset type_brcm own i p s).dropped
          ≡ elim (device_of own i) [ none ↦ p.number ∷ s.dropped | some dev ↦ s.dropped ])
unfolding wl_sendup hand_over
wl_sendup-delivers t b own none p s = (refl, refl)
wl_sendup-delivers t b own (some i) p s = ready i.net_dev i.is_present
  where
    ready :
        (d : Option ℕ) (r : Bool)
        → let u = elim d as (λ x. Rx) [
          | none ↦ record s { dropped = p.number ∷ s.dropped }
          | some dev ↦
              if r then hand_over t b own dev p s else record s { dropped = p.number ∷ s.dropped }
        ] in
          let target = if r then d else none in
          (u.handed ≡ elim target [ none ↦ s.handed | some dev ↦ (p.number, dev) ∷ s.handed ])
          × (u.dropped ≡ elim target [ none ↦ p.number ∷ s.dropped | some dev ↦ s.dropped ])
    ready none true = (refl, refl)
    ready none false = (refl, refl)
    ready (some dev) true = (refl, refl)
    ready (some dev) false = (refl, refl)

-- Each packet is handed to the kernel, once, with the device of its interface, or the driver's
-- own without an interface, where that is ready, and is freed otherwise, in the order in which the
-- packets came.
pub sendup_all-delivers :
    (type_offset type_brcm own : ℕ) (ps : List (Option RxIf × RxPacket)) (s : Rx)
    → ((sendup_all type_offset type_brcm own ps s).handed ≡ deliveries own ps s.handed)
      × ((sendup_all type_offset type_brcm own ps s).dropped ≡ refusals own ps s.dropped)
unfolding sendup_all
sendup_all-delivers t b own [] s = (refl, refl)
sendup_all-delivers t b own ((i, p) ∷ ps) s =
    let one = wl_sendup-delivers t b own i p s in
    let rest = sendup_all-delivers t b own ps (wl_sendup t b own i p s) in
    (rest.0 ∙ ap (deliveries own ps) (one.0), rest.1 ∙ ap (refusals own ps) (one.1))
