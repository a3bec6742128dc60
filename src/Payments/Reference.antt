-- ===== src/Payments/Reference.antt =====
-- Payment references: src/payments/monnify.util.ts, character by character.
use Prim.Native.Char.{Char, code}
use Prim.Native.String
use subscription_billing_eng.Prelude.{
  ℕ, zero, suc, ◌+◌, ◌-◌, ◌/◌, ◌%◌, Bool, true, false, String, Option, none, some, List, [], ◌∷◌,
  ◌&&◌, ◌||◌, not, ◌==◌, leb, ltb, is_empty, if◌then◌else◌,
}

-- A number in decimal, with fuel for its digits.
decimal_from : ℕ → ℕ → String → String
decimal_from zero n acc = acc
decimal_from (suc f) n acc =
    let d = String.slice "0123456789" (n % 10) (n % 10 + 1) in
    let rest = decimal_from f (n / 10) (String.◌++◌ d acc) in
    if ltb n 10 then String.◌++◌ d acc else rest

unfoldable pub decimal : ℕ → String
unfolding decimal_from
decimal n = decimal_from (n + 1) n ""

-- `buildPaymentReference`.
unfoldable pub build_payment_reference : String → ℕ → String
build_payment_reference payment_id attempt_number =
    String.◌++◌ "sub_" (String.◌++◌ payment_id (String.◌++◌ "_attempt_" (decimal attempt_number)))

abbrev between : ℕ → ℕ → ℕ → Bool
between lo hi c = leb lo c && leb c hi

abbrev lower : ℕ → ℕ
lower c = if between b'A' b'Z' c then c + 32 else c

abbrev is_digit : ℕ → Bool
is_digit c = between b'0' b'9' c

abbrev is_hex : ℕ → Bool
is_hex c = is_digit c || between b'a' b'f' (lower c)

abbrev is_hex_or_dash : ℕ → Bool
is_hex_or_dash c = is_hex c || c == b'-'

-- `toUpperCase`, on the ASCII letters.
upper_char : Char → String → String
upper_char c rest =
    if between b'a' b'z' (code c)
    then String.◌++◌ (String.slice "ABCDEFGHIJKLMNOPQRSTUVWXYZ" (code c - 97) (code c - 96)) rest
    else String.◌∷◌ c rest

unfoldable pub to_upper : String → String
unfolding upper_char
to_upper String.[] = ""
to_upper (String.◌∷◌ c s) = upper_char c (to_upper s)

-- A literal of the pattern, under the flag `i`; the rest of the text.
strip_prefix : String → String → Option String
strip_prefix String.[] s = some s
strip_prefix (String.◌∷◌ p ps) String.[] = none
strip_prefix (String.◌∷◌ p ps) (String.◌∷◌ c s) =
    let rest = strip_prefix ps s in if lower (code p) == lower (code c) then rest else none

-- `[class]{n}`: the characters matched, and the rest.
take_class : (ℕ → Bool) → ℕ → String → Option (String × String)
take_class in_class zero s = some ("", s)
take_class in_class (suc n) String.[] = none
take_class in_class (suc n) (String.◌∷◌ c s) =
    let rest = take_class in_class n s in
    if in_class (code c)
    then elim rest [ none ↦ none | some (found, left) ↦ some (String.◌∷◌ c found, left) ]
    else none

all_digits : String → Bool
all_digits String.[] = true
all_digits (String.◌∷◌ c s) = is_digit (code c) && all_digits s

-- `\d+$`.
ends_in_digits : String → Bool
unfolding all_digits
ends_in_digits s = not (is_empty s) && all_digits s

-- `/^sub_([0-9a-f-]{36})_attempt_\d+$/i`, and its first group.
match_merchant_tx : String → Option String
unfolding strip_prefix take_class ends_in_digits
match_merchant_tx s = elim (strip_prefix "sub_" s) [
  | none ↦ none
  | some after ↦ elim (take_class is_hex_or_dash 36 after) [
    | none ↦ none
    | some (id, left) ↦ elim (strip_prefix "_attempt_" left) [
      | none ↦ none
      | some number ↦ if ends_in_digits number then some id else none
    ]
  ]
]

-- Groups of hexadecimal digits, joined by dashes, to the end of the text.
match_groups : List ℕ → String → Bool
unfolding take_class strip_prefix
match_groups [] s = is_empty s
match_groups (n ∷ ns) s = elim (take_class is_hex n s) [
  | none ↦ false
  | some (found, left) ↦ elim ns [
    | [] ↦ is_empty left
    | m ∷ ms ↦ elim (strip_prefix "-" left) [ none ↦ false | some rest ↦ match_groups ns rest ]
  ]
]

-- The pattern of a UUID.
unfoldable pub is_uuid : String → Bool
unfolding match_groups
is_uuid s = match_groups (8 ∷ 4 ∷ 4 ∷ 4 ∷ 12 ∷ []) s

-- `parsePaymentIdFromReference`.
unfoldable pub parse_payment_id : Option String → Option String
unfolding match_merchant_tx is_uuid
parse_payment_id none = none
parse_payment_id (some reference) =
    if is_empty reference then none else elim (match_merchant_tx reference) [
      | some id ↦ some id
      | none ↦ if is_uuid reference then some reference else none
    ]

abbrev pub is_space : ℕ → Bool
is_space c = c == 32 || between 9 13 c || c == 0xa0

-- `\s*`: the rest after the spaces.
unfoldable pub skip_spaces : String → String
skip_spaces String.[] = ""
skip_spaces (String.◌∷◌ c s) =
    let rest = skip_spaces s in if is_space (code c) then rest else String.◌∷◌ c s

-- Groups of hexadecimal digits, joined by dashes, at the head of the text: what was matched.
take_groups : List ℕ → String → Option String
unfolding take_class strip_prefix
take_groups [] s = some ""
take_groups (n ∷ ns) s = elim (take_class is_hex n s) [
  | none ↦ none
  | some (found, left) ↦ elim ns [
    | [] ↦ some found
    | m ∷ ms ↦ elim (strip_prefix "-" left) [
      | none ↦ none
      | some rest ↦ elim (take_groups ns rest) [
        | none ↦ none
        | some more ↦ some (String.◌++◌ found (String.◌++◌ "-" more))
      ]
    ]
  ]
]

-- `Invoice\s+(uuid)` at the head of a text.
match_invoice : String → Option String
unfolding skip_spaces take_groups
match_invoice s = elim (strip_prefix "Invoice" s) [
  | none ↦ none
  | some String.[] ↦ none
  | some (String.◌∷◌ c rest) ↦
      if is_space (code c) then take_groups (8 ∷ 4 ∷ 4 ∷ 4 ∷ 12 ∷ []) (skip_spaces rest) else none
]

-- The first place of the text where the pattern matches.
search_invoice : String → Option String
unfolding match_invoice
search_invoice String.[] = none
search_invoice (String.◌∷◌ c s) =
    let rest = search_invoice s in
    elim (match_invoice (String.◌∷◌ c s)) [ some id ↦ some id | none ↦ rest ]

-- `extractInvoiceId`.
unfoldable pub parse_invoice_id : Option String → Option String
unfolding search_invoice
parse_invoice_id none = none
parse_invoice_id (some description) = search_invoice description
