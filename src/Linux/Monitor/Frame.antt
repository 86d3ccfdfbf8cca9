-- ===== src/Linux/Monitor/Frame.antt =====
-- The layout of a monitored frame: the header, the frame and what is chained behind it
-- (src/wl/sys/wl_linux.c).
use broadcom_bcm4312_fix.Prelude.{
  Bool-cases, List, Option, [], ap, append-nil, append_assoc, arith, drop, false, get_or,
  if◌then◌else◌, inl, inr, length, length-append, length-drop, length-memcpy, length-take, ltb,
  memcpy, none, refl, some, subst, suc, sym, take, take-memcpy, take_all, true, zero, ℕ, ◌&&◌, ◌*◌,
  ◌++◌, ◌+◌, ◌-◌, ◌<◌, ◌==◌, ◌∙◌, ◌∷◌, ◌≡◌, ◌≤◌,
}
use broadcom_bcm4312_fix.Headers.{Bytes}
use broadcom_bcm4312_fix.Linux.Monitor.{
  Monitored, Received, chain_len, copy_chain, frame, frame_of, monitor_amsdu, monitor_radiotap,
  prism_header, prism_items, wl_monitor,
}
use broadcom_bcm4312_fix.Linux.Radiotap.{
  NonHt, Radiotap, RxStatus, brcm2_header, encoding_ht, encoding_vht, ht_header, legacy_header,
  phy_n, vht_header,
}

-- A buffer of `len` bytes that is filled with `text` up to `off`.
record IsFilled (buf : Bytes) (off : ℕ) (text : Bytes) (len : ℕ) : Type 0 where
  filled : take off buf ≡ text
  size : length buf ≡ len
  inside : off ≤ len

abbrev pub chained : List Bytes → Bytes
chained [] = []
chained (p ∷ ps) = p ++ chained ps

length-chained : (ps : List Bytes) → length (chained ps) ≡ chain_len ps
length-chained [] = refl
length-chained (p ∷ ps) = length-append p (chained ps) ∙ ap (λ n. length p + n) (length-chained ps)

-- A copy right behind what is filled.
memcpy-IsFilled :
    {buf text : Bytes} {off len : ℕ} (src : Bytes) (n : ℕ)
    → IsFilled buf off text len
    → length src ≡ n
    → off + n ≤ len
    → IsFilled (memcpy buf off src n) (off + n) (text ++ src) len
memcpy-IsFilled {buf} {text} {off} {len} src n h e room = record {
  filled =
      take-memcpy buf off src n (omega (arith, h.size, room)) (omega (arith, e))
      ∙ ap (λ t. t ++ take n src) h.filled
      ∙ ap (λ t. text ++ t) (take_all n src e);
  size = length-memcpy buf off src n (omega (arith, h.size, room)) (omega (arith, e)) ∙ h.size;
  inside = room;
}

copy_chain-IsFilled :
    {buf text : Bytes} {off len : ℕ} (ps : List Bytes)
    → IsFilled buf off text len
    → off + chain_len ps ≡ len
    → copy_chain buf off ps ≡ text ++ chained ps
unfolding copy_chain
copy_chain-IsFilled {buf} {text} {off} {len} [] h e =
    sym (take_all off buf (omega (arith, h.size, e))) ∙ h.filled ∙ sym (append-nil text)
copy_chain-IsFilled {buf} {text} {off} {len} (p ∷ ps) h e =
    copy_chain-IsFilled {buf = memcpy buf off p (length p)} {text = text ++ p}
      {off = off + length p} ps (memcpy-IsFilled p (length p) h refl (omega (arith, e)))
      (omega (arith, e))
    ∙ append_assoc text p (chained ps)

-- The allocator gives what it is asked for.
abbrev pub GrantsLen : Radiotap → Type 0
GrantsLen k = (n : ℕ) → length (k.fresh n) ≡ n

-- The length that a header announces: msglen, or it_len.
abbrev pub announced : ℕ → Bytes → ℕ
announced type header =
    if type == 1
    then get_or header 4 0 + 256 * get_or header 5 0
    else get_or header 2 0 + 256 * get_or header 3 0

abbrev IsHeader : ℕ → ℕ → Bytes → Type 0
IsHeader type n header = (length header ≡ n) × (announced type header ≡ n)

-- What the kernel gets: a header that announces its length, the frame without its first 6 bytes, and
-- for the third type the bytes that are chained behind it.
abbrev pub IsLaid : ℕ → Received → Monitored → Type 0
IsLaid type p m =
    (header : Bytes) × (m
      ≡ frame (header ++ drop 6 p.data_of ++ chained (if type == 3 then p.chain else [])))
    × (announced type header ≡ length header)

-- The first copy.
copied_first :
    {buf : Bytes} {len : ℕ} (src : Bytes) (n : ℕ)
    → IsFilled buf 0 [] len
    → length src ≡ n
    → n ≤ len
    → IsFilled (memcpy buf 0 src n) n src len
copied_first {buf} {len} src n h e room =
    subst (λ o. IsFilled (memcpy buf 0 src n) o src len) (plus_zero n)
      (memcpy-IsFilled src n h e (omega arith))
  where
    plus_zero : (a : ℕ) → 0 + a ≡ a
    plus_zero a = omega arith

not_short : (n : ℕ) → 6 ≤ n → ltb n 6 ≡ false
not_short n h = ground arith

prism_header-IsHeader :
    (name : Bytes) (jiffies : ℕ) (r : RxStatus) (old : Bytes)
    → length name < 16
    → 144 ≤ length old
    → IsHeader 1 144 (prism_header name jiffies r old)
unfolding prism_header prism_items
prism_header-IsHeader name jiffies r old short long =
    let device = memcpy (take 16 (drop 8 old)) 0 (name ++ 0 ∷ []) (length name + 1) in
    let cut = length-take 16 (drop 8 old) in
    let named =
      length-memcpy (take 16 (drop 8 old)) 0 (name ++ 0 ∷ []) (length name + 1)
        (omega (arith, cut, length-drop 8 old, short, long))
        (omega (arith, length-append name (0 ∷ []))) in
    (
      omega (
        arith,
        length-append device (prism_items jiffies r),
        named,
        cut,
        length-drop 8 old,
        long,
      ),
      refl,
    )

module _ (k : Radiotap) (gives : GrantsLen k) where
  frame_of-IsLaid :
      (type n : ℕ) (header : Bytes → Bytes) (p : Received)
      → ((old : Bytes) → n ≤ length old → IsHeader type n (header old))
      → 6 ≤ length p.data_of
      → IsLaid type p (frame_of k true n header p.data_of (if type == 3 then p.chain else []))
  unfolding frame_of
  frame_of-IsLaid type n header p fits long =
      let ps : List Bytes = if type == 3 then p.chain else [] in
      let m = length p.data_of - 6 in
      let old = k.fresh (n + m + chain_len ps) in
      let room = gives (n + m + chain_len ps) in
      let h = fits old (omega (arith, room)) in
      let new : IsFilled old 0 [] (n + m + chain_len ps) = record {
        filled = refl;
        size = room;
        inside = omega arith;
      } in
      let headed = copied_first (header old) n new (h.0) (omega arith) in
      let copied =
        memcpy-IsFilled (drop 6 p.data_of) m headed (length-drop 6 p.data_of) (omega arith) in
      (
        header old,
        rw (not_short (length p.data_of) long) (ap frame (copy_chain-IsFilled ps copied refl)),
        h.1 ∙ sym (h.0),
      )

  legacy_header-IsHeader :
      (type : ℕ) (ext : Option ℕ) (v : NonHt) (fc : ℕ) (r : RxStatus) (old : Bytes)
      → (type == 1) ≡ false
      → IsHeader type 43 (legacy_header k ext v fc r old)
  unfolding legacy_header
  legacy_header-IsHeader type none v fc r old plain = rw plain (refl, refl)
  legacy_header-IsHeader type (some e) v fc r old plain = rw plain (refl, refl)

  radiotap-IsLaid :
      (r : RxStatus) (p : Received)
      → 6 ≤ length p.data_of
      → IsLaid 2 p (monitor_radiotap k true r p)
  unfolding monitor_radiotap
  radiotap-IsLaid r p long = elim (Bool-cases (r.phytype == phy_n)) [
    | inl ht ↦
        rw ht (frame_of-IsLaid 2 42 _ p (λ old room. unfold brcm2_header in (refl, refl)) long)
    | inr legacy ↦
        rw legacy
          (frame_of-IsLaid 2 43 _ p (λ old room. legacy_header-IsHeader 2 none _ _ r old refl) long)
  ]

  amsdu-IsLaid :
      (r : RxStatus) (p : Received) → 6 ≤ length p.data_of → IsLaid 3 p (monitor_amsdu k true r p)
  unfolding monitor_amsdu
  amsdu-IsLaid r p long = elim (Bool-cases ((r.phytype == phy_n) && (r.encoding == encoding_ht))) [
    | inl ht ↦ rw ht (frame_of-IsLaid 3 28 _ p (λ old room. unfold ht_header in (refl, refl)) long)
    | inr not_ht ↦ elim (Bool-cases ((r.phytype == phy_n) && (r.encoding == encoding_vht))) [
      | inl vht ↦
          rw (not_ht, vht)
            (frame_of-IsLaid 3 48 _ p (λ old room. unfold vht_header in (refl, refl)) long)
      | inr legacy ↦
          rw (not_ht, legacy)
            (frame_of-IsLaid 3 43 _ p (λ old room. legacy_header-IsHeader 3 (some 1) _ _ r old refl)
              long)
    ]
  ]

  -- For an allocator that gives the bytes it is asked for, a device name of less than 16 characters
  -- and a received frame of 6 bytes or more, what wl_monitor hands to the kernel under each of the
  -- three monitor types is a header that announces its own length, the frame without its first 6
  -- bytes, and for the third type all bytes that are chained behind it, and nothing else.
  pub wl_monitor-IsLaid :
      (type : ℕ) (name : Bytes) (jiffies : ℕ) (r : RxStatus) (p : Received)
      → 1 ≤ type
      → type ≤ 3
      → length name < 16
      → 6 ≤ length p.data_of
      → IsLaid type p (wl_monitor k true type true name jiffies r p)
  unfolding wl_monitor
  wl_monitor-IsLaid zero name jiffies r p low high short long = absurd (omega arith)
  wl_monitor-IsLaid (suc zero) name jiffies r p low high short long =
      frame_of-IsLaid 1 144 _ p (λ old room. prism_header-IsHeader name jiffies r old short room)
        long
  wl_monitor-IsLaid (suc (suc zero)) name jiffies r p low high short long = radiotap-IsLaid r p long
  wl_monitor-IsLaid (suc (suc (suc zero))) name jiffies r p low high short long =
      amsdu-IsLaid r p long
  wl_monitor-IsLaid (suc (suc (suc (suc n)))) name jiffies r p low high short long =
      absurd (omega arith)
