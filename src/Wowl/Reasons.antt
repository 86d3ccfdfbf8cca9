-- ===== src/Wowl/Reasons.antt =====
-- The wake conditions that are asked for, and the reasons that are reported.
use broadcom_bcm4312_fix.Prelude.{Bool, false, refl, true, ◌≡◌}
use broadcom_bcm4312_fix.Wowl.{Wowlan, wakeup_of, wowl_word}

by_conditions :
    (d m g f : Bool)
    → wakeup_of (
        wowl_word
          (record { disconnect = d; magic_pkt = m; gtk_rekey_failure = g; four_way_handshake = f })
          0)
      ≡ record {
        magic_pkt = m;
        disconnect = d;
        gtk_rekey_failure = g;
        eap_identity_req = false;
        four_way_handshake = f;
      }
unfolding wakeup_of wowl_word
by_conditions false false false false = refl
by_conditions false false false true = refl
by_conditions false false true false = refl
by_conditions false false true true = refl
by_conditions false true false false = refl
by_conditions false true false true = refl
by_conditions false true true false = refl
by_conditions false true true true = refl
by_conditions true false false false = refl
by_conditions true false false true = refl
by_conditions true false true false = refl
by_conditions true false true true = refl
by_conditions true true false false = refl
by_conditions true true false true = refl
by_conditions true true true false = refl
by_conditions true true true true = refl

-- The bits that wl_cfg80211_suspend adds to an empty wake word are those that wl_wowl_ind_wake_reason
-- reads: if the firmware reports the whole word as its reason, the reasons that are reported are
-- the conditions that were asked for, and no EAP identity request.

wakeup_of-wowl_word :
    (c : Wowlan)
    → wakeup_of (wowl_word c 0) ≡ record {
      magic_pkt = c.magic_pkt;
      disconnect = c.disconnect;
      gtk_rekey_failure = c.gtk_rekey_failure;
      eap_identity_req = false;
      four_way_handshake = c.four_way_handshake;
    }
wakeup_of-wowl_word c =
    by_conditions c.disconnect c.magic_pkt c.gtk_rekey_failure c.four_way_handshake
