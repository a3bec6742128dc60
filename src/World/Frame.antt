-- ===== src/World/Frame.antt =====
-- Lemmas on conjunctions and on equal texts, for the searches of rows, and on branches.
use subscription_billing_eng.Prelude.{
  Bool, true, String, ◌≡◌, sym, ◌∙◌, ap, ◌&&◌, str_eq, arith, false, if◌then◌else◌,
}
use subscription_billing_eng.World.State.{World}
use subscription_billing_eng.World.Monad.{Action, Result}
use text.Mathlib.TextEquality.{eq_iff}

pub and-left : (a b : Bool) → (a && b) ≡ true → a ≡ true
and-left a b h = ground arith

pub and-right : (a b : Bool) → (a && b) ≡ true → b ≡ true
and-right a b h = ground arith

-- Two texts that equal a third are equal.
pub str_eq-join : (a b c : String) → str_eq a c ≡ true → str_eq b c ≡ true → str_eq a b ≡ true
str_eq-join a b c h k = (eq_iff a b).1 ((eq_iff a c).0 h ∙ sym ((eq_iff b c).0 k))

pub str_eq-subst_left : (a b c : String) → str_eq a b ≡ true → str_eq a c ≡ str_eq b c
str_eq-subst_left a b c h = ap (λ x. str_eq x c) ((eq_iff a b).0 h)

-- What both branches answer and do to the state, the test does.
pub if-keeps :
    {A : Type 0} (P : Result A × World → Type 0) (b : Bool) (m k : Action A) (w : World)
    → P (m w)
    → P (k w)
    → P ((if b then m else k) w)
if-keeps P true m k w h h' = h
if-keeps P false m k w h h' = h'
