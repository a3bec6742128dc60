-- ===== src/World/Monad.antt =====
-- A service call: it may throw, and what it wrote before that stays written, since the services
-- open no transaction.
use subscription_billing_eng.Prelude.{
  ◌≡◌, ◌⊎◌, inl, inr, refl, Bool, true, false, String, Option, none, some,
}
use subscription_billing_eng.World.State.{World}

-- The exceptions of @nestjs/common that the services throw, with their messages; `type_error` is a
-- read of a property of `undefined`.
pub data Error : Type 0 where
  bad_request not_found unauthorized forbidden conflict failure : String → Error
  type_error query_failed : Error

pub data Result (A : Type 0) : Type 0 where
  ok : A → Result A
  err : Error → Result A

abbrev pub Action : Type 0 → Type 0
Action A = World → Result A × World

module _ {A : Type 0} where
  abbrev pub pure : A → Action A
  pure a w = (ok a, w)

  abbrev pub throw : Error → Action A
  throw e w = (err e, w)

  abbrev pub gets : (World → A) → Action A
  gets f w = (ok (f w), w)

  abbrev pub or_throw : Option A → Error → Action A
  or_throw none e = throw e
  or_throw (some a) _ = pure a

infixl 5 ◌>>=◌ ◌>>◌
abbrev pub ◌>>=◌ : {A B : Type 0} → Action A → (A → Action B) → Action B
◌>>=◌ m f w = let (r, w') = m w in elim r [ ok a ↦ f a w' | err e ↦ throw e w' ]

abbrev pub ◌>>◌ : {A B : Type 0} → Action A → Action B → Action B
m >> k = m >>= λ _. k

abbrev pub throw_if : Bool → Error → Action (Unit {0})
throw_if c e w = elim c [ true ↦ (err e, w) | false ↦ (ok tt, w) ]

abbrev pub when : Bool → Action (Unit {0}) → Action (Unit {0})
when c m w = elim c [ true ↦ m w | false ↦ (ok tt, w) ]

-- A change of the state that cannot fail.
abbrev pub modify : (World → World) → Action (Unit {0})
modify f w = (ok tt, f w)

-- `catch`: the handler starts from what the body had written.
abbrev pub catch : {A : Type 0} → Action A → (Error → Action A) → Action A
catch m h w = let (r, w') = m w in elim r [ ok a ↦ (ok a, w') | err e ↦ h e w' ]

abbrev pub error_message : Error → String
error_message (Error.bad_request m) = m
error_message (Error.not_found m) = m
error_message (Error.unauthorized m) = m
error_message (Error.forbidden m) = m
error_message (Error.conflict m) = m
error_message (Error.failure m) = m
error_message Error.type_error = "Cannot read properties of undefined"
error_message Error.query_failed = "invalid input syntax for type uuid"

-- To split on a result and keep the equation.
pub Result-cases :
    {A : Type 0} (r : Result A) → ((e : Error) × (r ≡ err e)) ⊎ ((a : A) × (r ≡ ok a))
Result-cases (ok a) = inr (a, refl)
Result-cases (err e) = inl (e, refl)
