-- ===== src/State/Total.antt =====
-- Which computations always return, none of them in BUG(): rules for each way to build one.
use broadcom_bcm4312_fix.Prelude.{
  Bool, Option, Option-cases, arith, false, if◌then◌else◌, inl, inr, none, some, true, ◌≡◌, ◌≢◌,
}
use broadcom_bcm4312_fix.Headers.{Status, fail, ok}
use broadcom_bcm4312_fix.State.{
  Effect, M, Priv, World, emit, get, if_ok, modify, on_option, pure, when, world, ◌>>=◌, ◌>>◌,
}

pub record Total {A : Type 0} (m : M A) : Type 0 where
  pub returns : (w : World) → m w ≢ none

pub pure-Total : {A : Type 0} (a : A) → Total (pure a)
pure-Total a = record { returns = λ w e. ground arith }

pub get-Total : Total get
get-Total = record { returns = λ w e. ground arith }

pub world-Total : Total world
world-Total = record { returns = λ w e. ground arith }

pub modify-Total : (g : Priv → Priv) → Total (modify g)
modify-Total g = record { returns = λ w e. ground arith }

pub emit-Total : (e : Effect) → Total (emit e)
emit-Total x = record { returns = λ w e. ground arith }

pub bind-Total :
    {A C : Type 0} (m : M A) (k : A → M C) → Total m → ((a : A) → Total (k a)) → Total (m >>= k)
bind-Total m k hm hk = record {
  returns = λ w e. elim (Option-cases (m w)) [
    | inl none_e ↦ hm.returns w none_e
    | inr ((a, w1), some_e) ↦ (hk a).returns w1 (rw (some_e, ◌>>=◌) at e)
  ];
}

pub if_ok-Total : (s : Status) (k : M Status) → Total k → Total (if_ok s k)
if_ok-Total ok k h = h
if_ok-Total (fail e) k h = pure-Total (fail e)

pub then-Total : (m k : M Status) → Total m → Total k → Total (m >> k)
then-Total m k hm hk = bind-Total m (λ err. if_ok err k) hm (λ err. if_ok-Total err k hk)

pub if-Total : {A : Type 0} (b : Bool) (m k : M A) → Total m → Total k → Total (if b then m else k)
if-Total true m k hm hk = hm
if-Total false m k hm hk = hk

pub when-Total : (b : Bool) (m : M Status) → Total m → Total (when b m)
when-Total true m h = h
when-Total false m h = pure-Total ok

pub on_option-Total :
    {A C : Type 0} (o : Option A) (m : M C) (k : A → M C)
    → Total m
    → ((a : A) → Total (k a))
    → Total (on_option o m k)
on_option-Total none m k hm hk = hm
on_option-Total (some a) m k hm hk = hk a

-- The ruleset for `search`.
pub ruleset total_rules = (
  pure-Total, get-Total, world-Total, modify-Total, emit-Total, bind-Total, then-Total, if_ok-Total,
  if-Total, when-Total, on_option-Total,
)

pub runs :
    {A : Type 0} (m : M A) → Total m → (w : World) → (a : A) × (w' : World) × (m w ≡ some (a, w'))
runs m t w = elim (Option-cases (m w)) [
  | inl e ↦ absurd (t.returns w e)
  | inr ((a, w'), e) ↦ (a, w', e)
]
