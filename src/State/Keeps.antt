-- ===== src/State/Keeps.antt =====
-- Which observations of the world a computation leaves alone: rules for each way to build one.
use broadcom_bcm4312_fix.Prelude.{
  Bool, Option, Option-cases, arith, false, if◌then◌else◌, inl, inr, none, some, subst, true, ◌∙◌,
  ◌∷◌, ◌≡◌,
}
use broadcom_bcm4312_fix.Headers.{Errno, Status, fail, ok}
use broadcom_bcm4312_fix.State.{
  Effect, M, Priv, World, bug, emit, get, if_ok, modify, on_option, pure, when, world, ◌>>=◌, ◌>>◌,
}

-- Wherever the computation returns, the observation is what it was.
pub record Keeps {A B : Type 0} (f : World → B) (m : M A) : Type 0 where
  pub apply : (w : World) (a : A) (w' : World) → m w ≡ some (a, w') → f w' ≡ f w

module _ {B : Type 0} (f : World → B) where
  pub pure-Keeps : {A : Type 0} (a : A) → Keeps f (pure a)
  pure-Keeps a = record { apply = λ w b w' e. ground arith }

  pub get-Keeps : Keeps f get
  get-Keeps = record { apply = λ w b w' e. ground arith }

  pub bug-Keeps : (A : Type 0) → Keeps f (bug {A = A})
  bug-Keeps A = record { apply = λ w b w' e. cc }

  pub bind-Keeps :
      {A C : Type 0} (m : M A) (k : A → M C)
      → Keeps f m
      → ((a : A) → Keeps f (k a))
      → Keeps f (m >>= k)
  bind-Keeps m k hm hk = record {
    apply = λ w c w' e. elim (Option-cases (m w)) [
      | inl none_e ↦ ground (arith, none_e)
      | inr ((a, w1), some_e) ↦
          (hk a).apply w1 c w' (rw (some_e, ◌>>=◌) at e) ∙ hm.apply w a w1 some_e
    ];
  }

  pub if_ok-Keeps : (s : Status) (k : M Status) → Keeps f k → Keeps f (if_ok s k)
  if_ok-Keeps ok k h = h
  if_ok-Keeps (fail e) k h = pure-Keeps (fail e)

  pub then-Keeps : (m k : M Status) → Keeps f m → Keeps f k → Keeps f (m >> k)
  then-Keeps m k hm hk = bind-Keeps m (λ err. if_ok err k) hm (λ err. if_ok-Keeps err k hk)

  pub if-Keeps :
      {A : Type 0} (b : Bool) (m k : M A) → Keeps f m → Keeps f k → Keeps f (if b then m else k)
  if-Keeps true m k hm hk = hm
  if-Keeps false m k hm hk = hk

  pub when-Keeps : (b : Bool) (m : M Status) → Keeps f m → Keeps f (when b m)
  when-Keeps true m h = h
  when-Keeps false m h = pure-Keeps ok

  pub modify-Keeps :
      (g : Priv → Priv)
      → ((w : World) → f (record w { priv = g w.priv }) ≡ f w)
      → Keeps f (modify g)
  modify-Keeps g h = record { apply = λ w b w' e. ground (arith, h w) }

  pub emit-Keeps :
      (e : Effect) → ((w : World) → f (record w { log = e ∷ w.log }) ≡ f w) → Keeps f (emit e)
  emit-Keeps x h = record { apply = λ w b w' e. ground (arith, h w) }

  pub world-Keeps : Keeps f world
  world-Keeps = record { apply = λ w b w' e. ground arith }

  pub on_option-Keeps :
      {A C : Type 0} (o : Option A) (m : M C) (k : A → M C)
      → Keeps f m
      → ((a : A) → Keeps f (k a))
      → Keeps f (on_option o m k)
  on_option-Keeps none m k hm hk = hm
  on_option-Keeps (some a) m k hm hk = hk a

-- Wherever the computation returns when run in the world, its result and the world it leaves are
-- in the relation.
pub record Ends {A : Type 0} (Q : A → World → Type 0) (m : M A) (w : World) : Type 0 where
  pub apply : (a : A) (w' : World) → m w ≡ some (a, w') → Q a w'

pub bind-Ends :
    {A C : Type 0} (Q : C → World → Type 0) (m : M A) (k : A → M C) (w : World)
    → ((a : A) (w1 : World) → m w ≡ some (a, w1) → Ends Q (k a) w1)
    → Ends Q (m >>= k) w
bind-Ends Q m k w h = record {
  apply = λ c w' e. elim (Option-cases (m w)) [
    | inl none_e ↦ ground (arith, none_e)
    | inr ((a, w1), some_e) ↦ (h a w1 some_e).apply c w' (rw (some_e, ◌>>=◌) at e)
  ];
}

pub modify-Ends :
    {C : Type 0} (Q : C → World → Type 0) (f : Priv → Priv) (k : Status → M C) (w : World)
    → Ends Q (k ok) (record w { priv = f w.priv })
    → Ends Q (modify f >>= k) w
modify-Ends Q f k w h = record { apply = λ c w' e. h.apply c w' e }

pub get-Ends :
    {C : Type 0} (Q : C → World → Type 0) (k : Priv → M C) (w : World)
    → Ends Q (k w.priv) w
    → Ends Q (get >>= k) w
get-Ends Q k w h = record { apply = λ c w' e. h.apply c w' e }

-- A step that fails ends the function with its error, as `>>` has it.
pub then-Ends :
    (Q : Status → World → Type 0) (m k : M Status) (w : World)
    → ((n : Errno) (w1 : World) → m w ≡ some (fail n, w1) → Q (fail n) w1)
    → ((w1 : World) → m w ≡ some (ok, w1) → Ends Q k w1)
    → Ends Q (m >> k) w
then-Ends Q m k w failing h = bind-Ends _ m (λ err. if_ok err k) w go
  where
    some_inj :
        {s t : Status} {v w : World}
        → pure s v ≡ some (t, w)
        → ◌≡◌ {A = Status × World} (s, v) (t, w)
    some_inj e = cc

    go : (a : Status) (w1 : World) → m w ≡ some (a, w1) → Ends Q (if_ok a k) w1
    go ok w1 e = h w1 e
    go (fail n) w1 e = record {
      apply = λ s w' r. subst (λ p. Q p.0 p.1) (some_inj r) (failing n w1 e);
    }
