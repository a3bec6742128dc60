-- ===== src/Entities/Json.antt =====
-- The values of a `jsonb` column, as src/portal/portal.service.ts reads them.
use subscription_billing_eng.Prelude.{
  ℕ, Bool, String, Option, none, some, true, false, str_eq, if◌then◌else◌,
}

mutual
  pub data Json : Type 0 where
    null : Json
    number : ℕ → Json
    flag : Bool → Json
    text : String → Json
    array : Items → Json
    object : Fields → Json

  pub data Items : Type 0 where
    nil : Items
    cons : Json → Items → Items

  pub data Fields : Type 0 where
    end : Fields
    field : String → Json → Fields → Fields

-- `o[key]`, absent where the object has no such key.
unfoldable pub property : String → Fields → Option Json
property key Fields.end = none
property key (Fields.field k v rest) =
    let later = property key rest in if str_eq k key then some v else later

-- `key in o`.
unfoldable pub has_property : String → Fields → Bool
unfolding property
has_property key o = elim (property key o) [ none ↦ false | some v ↦ true ]
