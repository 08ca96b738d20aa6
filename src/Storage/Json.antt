-- ===== src/Storage/Json.antt =====
-- json.loads: what a JSON text stands for, and the reads of it that the store makes.
use hermes_personal_options.Common.{
  ℕ, ◌+◌, Bool, true, false, ◌&&◌, ◌||◌, Option, none, some, List, [], ◌∷◌, String, leb, ◌==◌,
  str_eq, any, if◌then◌else◌,
}
use hermes_personal_options.Common.Text.{codes}
use hermes_personal_options.Common.Int.{ℤ}

mutual
  pub data Json : Type 0 where
    null : Json
    boolean : Bool → Json
    integer : ℤ → Json
    real : String → Json
    text : String → Json
    list : JsonItems → Json
    object : JsonFields → Json

  pub data JsonItems : Type 0 where
    nil : JsonItems
    item : Json → JsonItems → JsonItems

  pub data JsonFields : Type 0 where
    end : JsonFields
    field : String → Json → JsonFields → JsonFields

-- `data[name]`; the last of several fields of one name counts.
abbrev pub field_or : Option Json → JsonFields → String → Option Json
field_or found end name = found
field_or found (field k v fs) name = field_or (if str_eq k name then some v else found) fs name

abbrev pub get_field : Json → String → Option Json
get_field (object fs) name = field_or none fs name
get_field _ name = none

-- A lower case letter of ASCII is what `lower` makes of a capital, of the Kelvin sign (k) and, with a
-- combining dot behind it, of the dotted capital I.
abbrev lower_code : ℕ → List ℕ
lower_code c =
    if leb b'A' c && leb c b'Z'
    then (c + 32) ∷ []
    else if c == 0x212A
    then b'k' ∷ []
    else if c == 0x130
    then b'i' ∷ 0x307 ∷ []
    else c ∷ []

abbrev lower_onto : List ℕ → List ℕ → List ℕ
lower_onto [] rest = rest
lower_onto (c ∷ cs) rest = c ∷ lower_onto cs rest

abbrev pub lower_codes : List ℕ → List ℕ
lower_codes [] = []
lower_codes (c ∷ cs) = lower_onto (lower_code c) (lower_codes cs)

abbrev pub starts_with : List ℕ → List ℕ → Bool
starts_with [] ds = true
starts_with (c ∷ cs) [] = false
starts_with (c ∷ cs) (d ∷ ds) = c == d && starts_with cs ds

-- `marker in text`
abbrev pub occurs_in : List ℕ → List ℕ → Bool
occurs_in marker [] = starts_with marker []
occurs_in marker (d ∷ ds) = starts_with marker (d ∷ ds) || occurs_in marker ds

-- `_FORBIDDEN_SECRET_MARKERS`
abbrev pub forbidden_secret_markers : List String
forbidden_secret_markers =
    "api_key" ∷ "apikey" ∷ "password" ∷ "passwd" ∷ "client_secret" ∷ "access_token"
    ∷ "refresh_token" ∷ "private_key" ∷ "credential" ∷ []

unfoldable pub is_secret_key : String → Bool
is_secret_key key =
    any (λ (marker : String). occurs_in (codes marker) (lower_codes (codes key)))
      forbidden_secret_markers

-- `_check` of `_assert_no_secrets`
unfoldable mutual
  pub has_secret : Json → Bool
  has_secret (object fs) = has_secret_fields fs
  has_secret (list xs) = has_secret_items xs
  has_secret null = false
  has_secret (boolean b) = false
  has_secret (integer n) = false
  has_secret (real r) = false
  has_secret (text t) = false

  pub has_secret_items : JsonItems → Bool
  has_secret_items nil = false
  has_secret_items (item j xs) = has_secret j || has_secret_items xs

  pub has_secret_fields : JsonFields → Bool
  has_secret_fields end = false
  has_secret_fields (field k j fs) = is_secret_key k || has_secret j || has_secret_fields fs
