-- ===== src/Link/Roaming.antt =====
-- Which elements wl_bss_roaming_done reports.
use mathlib.Core.List.{head?}
use broadcom_bcm4312_fix.Prelude.{Bool, List, [], arith, refl, some, suc, true, ℕ, ◌∷◌, ◌≡◌}
use broadcom_bcm4312_fix.Link.{
  EventMsg, set_bssid, wl_bss_roaming_done, wl_get_assoc_ies, wl_update_bss_info,
}
use broadcom_bcm4312_fix.Headers.{Addr, Status, fail, ok}
use broadcom_bcm4312_fix.State.{Effect, Platform, World, emit, modify, roamed, ◌>>◌}
use broadcom_bcm4312_fix.Link.Frame.{Quiet, wl_get_assoc_ies-Keeps, wl_update_bss_info-Keeps}
use broadcom_bcm4312_fix.Link.Total.{wl_bss_roaming_done-Total}
use broadcom_bcm4312_fix.State.Keeps.{Ends, get-Ends, then-Ends}
use broadcom_bcm4312_fix.State.Total.{runs}
use broadcom_bcm4312_fix.Iovar.Laws.{MkiovarFits}

abbrev pub roams : List Effect → ℕ
roams [] = 0
roams (roamed a c ∷ log) = suc (roams log)
roams (_ ∷ log) = roams log

abbrev pub roaming : World → Bool × ℕ
roaming w = (w.priv.connected, roams w.log)

-- The observation with the BSSID.
abbrev with_bssid : World → Addr × Bool × ℕ
with_bssid w = (w.priv.bssid, w.priv.connected, roams w.log)

with_bssid-Quiet : Quiet with_bssid
with_bssid-Quiet = record {
  ioctls = λ w c. refl;
  frames = λ i w. refl;
  reports = λ i w. refl;
  puts = λ w. refl;
  elements = λ e w. refl;
  infos = λ c w. refl;
  channels = λ c w. refl;
}

-- On success the link is CONNECTED to the address, and the newest effect reports it with the elements
-- of the world before; on failure no roaming was reported and the CONNECTED bit is as it was.
abbrev pub Roamed : Addr → World → Status → World → Type 0
Roamed a w ok w' =
    (head? w'.log ≡ some (roamed a w.priv.conn_info))
    × (w'.priv.connected ≡ true)
    × (w'.priv.bssid ≡ a)
Roamed a w (fail e) w' = roaming w' ≡ roaming w

module _ (x : Platform) where
  -- The end of the handler, once the BSS has been looked up.
  report_and_connect :
      (a : Addr) (v w : World)
      → w.priv.bssid ≡ a
      → Ends
          (Roamed a v)
          (emit (roamed a v.priv.conn_info) >> modify (λ p. record p { connected = true }))
          w
  report_and_connect a v w q = record { apply = λ s w' h. finished s w' h }
    where
      finished :
          (s : Status) (w' : World)
          → (emit (roamed a v.priv.conn_info) >> modify (λ p. record p { connected = true })) w
            ≡ some (s, w')
          → Roamed a v s w'
      finished ok w' h = (ground (arith, h), ground (arith, h), ground (arith, h, q))
      finished (fail n) w' h = ground (arith, h)

  associated :
      (w w1 : World) (s : Status)
      → wl_get_assoc_ies x w ≡ some (s, w1)
      → with_bssid w1 ≡ with_bssid w
  associated w w1 s e = (wl_get_assoc_ies-Keeps x with_bssid with_bssid-Quiet).apply w s w1 e

  updated :
      (w w1 : World) (s : Status)
      → wl_update_bss_info x w ≡ some (s, w1)
      → with_bssid w1 ≡ with_bssid w
  updated w w1 s e = (wl_update_bss_info-Keeps x with_bssid with_bssid-Quiet).apply w s w1 e

  wl_bss_roaming_done-Roamed :
      (e : EventMsg) (w : World) → Ends (Roamed e.addr w) (wl_bss_roaming_done x e) w
  unfolding wl_bss_roaming_done
  wl_bss_roaming_done-Roamed e w =
      get-Ends _
        (λ before.
          wl_get_assoc_ies x
          >> (modify (set_bssid e.addr)
              >> (wl_update_bss_info x
                  >> (emit (roamed e.addr before.conn_info)
                      >> modify (λ p. record p { connected = true })))))
        w
        (then-Ends _ (wl_get_assoc_ies x) _ w
          (λ n w1 e1. let q1 = associated w w1 _ e1 in ground arith)
          λ w1 e1.
            let q1 = associated w w1 ok e1 in
            then-Ends _ (modify (set_bssid e.addr)) _ w1 (λ n w2 e2. ground (arith, e2))
              λ w2 e2.
                then-Ends _ (wl_update_bss_info x) _ w2
                  (λ n w3 e3. let q3 = updated w2 w3 _ e3 in ground (arith, e2, q1, q3))
                  λ w3 e3.
                    let q3 = updated w2 w3 ok e3 in
                    report_and_connect e.addr w w3 (ground (arith, q3, e2)))

  -- Where bcm_mkiovar has room, wl_bss_roaming_done returns. On success the link is CONNECTED to the
  -- event's address, and the elements that were reported to cfg80211 with it are those that the
  -- association had before the event, whatever wl_get_assoc_ies has read since. On failure no
  -- roaming was reported, though a BSS may have been, and the CONNECTED bit is as it was.
  pub wl_bss_roaming_done_stale :
      MkiovarFits x
      → (e : EventMsg) (w : World)
      → (s : Status) × (w' : World) × (wl_bss_roaming_done x e w ≡ some (s, w'))
        × Roamed e.addr w s w'
  wl_bss_roaming_done_stale fits e w =
      let (s, w', h) = runs _ (wl_bss_roaming_done-Total x fits e) w in
      (s, w', h, (wl_bss_roaming_done-Roamed e w).apply s w' h)
