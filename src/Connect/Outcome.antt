-- ===== src/Connect/Outcome.antt =====
-- What a connect request leaves behind, on every path out of wl_cfg80211_connect.
use broadcom_bcm4312_fix.Prelude.{
  Bool, List, Option, Option-cases, arith, inl, inr, none, refl, some, true, ℕ, ◌∙◌, ◌∷◌, ◌≡◌, ◌≢◌,
}
use broadcom_bcm4312_fix.Iovar.{call, wl_dev_intvar_get, wl_dev_intvar_set, wl_dev_ioctl}
use broadcom_bcm4312_fix.Connect.{
  Sme, connect_to, or_einval, send_join, set_sec, store_target, wl_cfg80211_connect,
  wl_set_auth_type, wl_set_key_mgmt, wl_set_set_cipher, wl_set_set_sharedkey, wl_set_wpa_version,
}
use broadcom_bcm4312_fix.Headers.{Band, Bytes, Channel, IoVar, JoinParams, Status, einval, fail, ok}
use broadcom_bcm4312_fix.State.{
  Arg, Effect, M, Platform, Security, World, ioctl_call, modify, pure, ◌>>=◌, ◌>>◌,
}
use broadcom_bcm4312_fix.State.Keeps.{
  Keeps, bind-Keeps, get-Keeps, if-Keeps, if_ok-Keeps, modify-Keeps, pure-Keeps, then-Keeps,
}
use broadcom_bcm4312_fix.State.Total.{runs}
use broadcom_bcm4312_fix.Headers.Commands.{set_ssid}
use broadcom_bcm4312_fix.Iovar.Frame.{
  Blind, status-Keeps, wl_dev_bufvar_set-Keeps, wl_dev_intvar_get-Keeps, wl_dev_intvar_set-Keeps,
}
use broadcom_bcm4312_fix.Iovar.Laws.{MkiovarFits}
use broadcom_bcm4312_fix.Connect.Total.{wl_cfg80211_connect-Total}

-- The parts of the state that say how far a connection or a scan has come.
abbrev pub link_state : World → Bool × Bool × Option ℕ
link_state w = (w.priv.connecting, w.priv.connected, w.priv.scan_request)

blind : Blind link_state
blind w c = refl

-- The command of the newest effect, if it is an ioctl, and what the firmware answered to it.
abbrev pub last_answered : Platform → List Effect → Option (ℕ × Status)
last_answered x (ioctl_call c ∷ log) = some (c.cmd, (x.reply log c).status)
last_answered x _ = none

-- A status of 0 comes with the CONNECTING bit, right after a WLC_SET_SSID that was accepted; any
-- other leaves the link state as it was.
abbrev pub Starts : Platform → World → Status → World → Type 0
Starts x w ok w' =
    (w'.priv.connecting ≡ true)
    × (w'.priv.connected ≡ w.priv.connected)
    × (w'.priv.scan_request ≡ w.priv.scan_request)
    × (last_answered x w'.log ≡ some (set_ssid, ok))
Starts x w (fail e) w' = link_state w' ≡ link_state w

abbrev Starting : Platform → M Status → Type 0
Starting x m = (w : World) (s : Status) (w' : World) → m w ≡ some (s, w') → Starts x w s w'

Starts-after :
    (x : Platform) (w w1 : World) (s : Status) (w' : World)
    → link_state w1 ≡ link_state w
    → Starts x w1 s w'
    → Starts x w s w'
Starts-after x w w1 ok w' e h = ground arith
Starts-after x w w1 (fail c) w' e h = h ∙ e

then-Starting :
    (x : Platform) (m k : M Status) → Keeps link_state m → Starting x k → Starting x (m >> k)
then-Starting x m k hm hk w s w' e = elim (Option-cases (m w)) [
  | inl none_e ↦ ground (arith, none_e)
  | inr ((ok, w1), some_e) ↦
      Starts-after x w w1 s w' (hm.apply w ok w1 some_e) (hk w1 s w' (rw (some_e, ◌>>=◌) at e))
  | inr ((fail c, w1), some_e) ↦ ground (arith, some_e, hm.apply w (fail c) w1 some_e, e)
]

bind-Starting :
    (x : Platform) (m k : M Status) → Keeps link_state m → Starting x k → Starting x (m >>= λ _. k)
bind-Starting x m k hm hk w s w' e = elim (Option-cases (m w)) [
  | inl none_e ↦ ground (arith, none_e)
  | inr ((r, w1), some_e) ↦
      Starts-after x w w1 s w' (hm.apply w r w1 some_e) (hk w1 s w' (rw (some_e, ◌>>=◌) at e))
]

module _ (x : Platform) where
  set-Keeps : (v : IoVar) (n : ℕ) → Keeps link_state (wl_dev_intvar_set x v n)
  set-Keeps = wl_dev_intvar_set-Keeps x link_state blind

  get-var-Keeps : (v : IoVar) → Keeps link_state (wl_dev_intvar_get x v)
  get-var-Keeps = wl_dev_intvar_get-Keeps x link_state blind

  store-Keeps : (g : Security → Security) → Keeps link_state (modify (set_sec g))
  store-Keeps g = modify-Keeps link_state (set_sec g) (λ w. refl)

  ioctl_status-Keeps :
      (cmd : ℕ) (arg : Arg) (len : ℕ)
      → Keeps link_state (wl_dev_ioctl x cmd arg len >>= λ r. pure r.status)
  ioctl_status-Keeps = status-Keeps x link_state blind

  or_einval-Keeps :
      (v : Option ℕ) (k : ℕ → M Status)
      → ((n : ℕ) → Keeps link_state (k n))
      → Keeps link_state (or_einval v k)
  or_einval-Keeps none k h = pure-Keeps link_state (fail einval)
  or_einval-Keeps (some n) k h = h n

  ruleset keeps_rules = (
    set-Keeps, get-var-Keeps, store-Keeps, or_einval-Keeps, ioctl_status-Keeps, pure-Keeps,
    get-Keeps, bind-Keeps, then-Keeps, if_ok-Keeps, if-Keeps,
  )

  wl_set_auth_type-Keeps : (sme : Sme) → Keeps link_state (wl_set_auth_type x sme)
  unfolding wl_set_auth_type
  wl_set_auth_type-Keeps sme = then-Keeps link_state _ _ (set-Keeps _ _) (store-Keeps _)

  wl_set_wpa_version-Keeps : (sme : Sme) → Keeps link_state (wl_set_wpa_version x sme)
  unfolding wl_set_wpa_version
  wl_set_wpa_version-Keeps sme = then-Keeps link_state _ _ (set-Keeps _ _) (store-Keeps _)

  wl_set_set_cipher-Keeps : (sme : Sme) → Keeps link_state (wl_set_set_cipher x sme)
  unfolding wl_set_set_cipher
  wl_set_set_cipher-Keeps sme = search keeps_rules depth 14

  wl_set_key_mgmt-Keeps : (sme : Sme) → Keeps link_state (wl_set_key_mgmt x sme)
  unfolding wl_set_key_mgmt
  wl_set_key_mgmt-Keeps sme = search keeps_rules depth 14

  wl_set_set_sharedkey-Keeps : (sme : Sme) → Keeps link_state (wl_set_set_sharedkey x sme)
  unfolding wl_set_set_sharedkey
  wl_set_set_sharedkey-Keeps sme = search keeps_rules depth 14

  send_join-Starting :
      (chan : Option Channel) (request : JoinParams)
      → Starting x (send_join x chan request >> modify (λ p. record p { connecting = true }))
  unfolding send_join wl_dev_ioctl call
  send_join-Starting chan request w s w' e = ground arith

  connect_to-Starting : (sme : Sme) (name : Bytes) → Starting x (connect_to x sme name)
  unfolding connect_to store_target
  connect_to-Starting sme name = then-Starting x _ _ (wl_set_auth_type-Keeps sme) (
      then-Starting x _ _ (wl_set_wpa_version-Keeps sme) (
        then-Starting x _ _ (wl_set_set_cipher-Keeps sme) (
          then-Starting x _ _ (wl_set_key_mgmt-Keeps sme) (
            then-Starting x _ _ (wl_set_set_sharedkey-Keeps sme) (
              bind-Starting x _ _ (wl_dev_bufvar_set-Keeps x link_state blind _ _ _) (
                then-Starting x _ _ (modify-Keeps link_state _ (λ w. refl))
                  (send_join-Starting _ _)))))))

  connect_Starting :
      (sme : Sme) (w : World) (s : Status) (w' : World)
      → wl_cfg80211_connect x sme w ≡ some (s, w')
      → Starts x w s w'
  unfolding wl_cfg80211_connect
  connect_Starting sme = elim (Option-cases sme.ssid) [
    | inl no_name ↦ λ w s w' e. ground (arith, no_name, e)
    | inr (name, given) ↦
        λ w s w' e. connect_to-Starting sme name w s w' (rw (given, wl_cfg80211_connect) at e)
  ]

  -- Where bcm_mkiovar has room and the channel, if one is given, is in one of the driver's two bands,
  -- wl_cfg80211_connect returns. A status of 0 means that the CONNECTING bit is set and that
  -- WLC_SET_SSID was the last thing sent and was accepted; with any other status the CONNECTING and CONNECTED bits
  -- and the running scan are as they were. A connect never changes the last two.
  pub wl_cfg80211_connect-Starts :
      MkiovarFits x
      → (sme : Sme) (w : World) → ((c : Channel) → sme.channel ≡ some c → c.band ≢ Band.other)
      → (s : Status) × (w' : World) × (wl_cfg80211_connect x sme w ≡ some (s, w')) × Starts x w s w'
  wl_cfg80211_connect-Starts fits sme w known =
      let (s, w', h) = runs _ (wl_cfg80211_connect-Total x fits sme known) w in
      (s, w', h, connect_Starting sme w s w' h)
