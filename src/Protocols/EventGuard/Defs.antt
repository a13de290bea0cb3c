-- ===== src/Protocols/EventGuard/Defs.antt =====
-- The values and the search of protocols/event_guard.py.
use nipo_science.Prelude.{
  Bool, List, Text, [], any, codes, ends_with, false, if◌then◌else◌, leb, not, occurs, starts_with,
  ℕ, ◌&&◌, ◌||◌, ◌∷◌,
}

mutual
  pub data Json : Type 0 where
    null : Json
    bool : Bool → Json
    number : Text → Json
    string : Text → Json
    array : Items → Json
    object : Fields → Json

  pub data Items : Type 0 where
    nil : Items
    cons : Json → Items → Items

  pub data Fields : Type 0 where
    end : Fields
    field : Text → Json → Fields → Fields

abbrev pub monetary_stems : List Text
monetary_stems =
    codes "cost"
    ∷ codes "price"
    ∷ codes "spend"
    ∷ codes "budget"
    ∷ codes "monetary"
    ∷ codes "currency"
    ∷ []

abbrev pub credential_names : List Text
credential_names =
    codes "authorization"
    ∷ codes "token"
    ∷ codes "credential"
    ∷ codes "credentials"
    ∷ codes "apikey"
    ∷ codes "cookie"
    ∷ codes "password"
    ∷ codes "passwd"
    ∷ codes "secret"
    ∷ codes "privatekey"
    ∷ codes "bearer"
    ∷ []

abbrev pub benign_prefixes : List Text
benign_prefixes =
    codes "tokenization" ∷ codes "passwordless" ∷ codes "secretory" ∷ codes "secretome" ∷ []

-- What the libraries compute: `normalize("NFKC", key).casefold()`, and whether one of
-- `SECRET_VALUE_PATTERNS` is found in `normalize("NFKC", value)`.
pub record TextServices : Type 0 where
  pub fold : Text → Text
  pub secret_value : Text → Bool

-- `character.isascii() and character.isalnum()`
abbrev pub is_ascii_alnum : ℕ → Bool
is_ascii_alnum c =
    (leb b'0' c && leb c b'9') || (leb b'A' c && leb c b'Z') || (leb b'a' c && leb c b'z')

unfoldable pub keep_alnum : Text → Text
keep_alnum [] = []
keep_alnum (c ∷ text) = let rest = keep_alnum text in if is_ascii_alnum c then c ∷ rest else rest

module _ (services : TextServices) where
  unfoldable pub forbidden_event_key : Text → Bool
  unfolding occurs starts_with ends_with keep_alnum
  forbidden_event_key key =
      let normalized = keep_alnum (services.fold key) in
      let monetary = any (λ stem. occurs stem normalized) monetary_stems in
      let prefix = any (λ name. starts_with name normalized) credential_names in
      let benign = any (λ name. starts_with name normalized) benign_prefixes in
      let credential = any (λ name. ends_with name normalized) credential_names in
      let fallback = occurs (codes "provider") normalized && occurs (codes "fallback") normalized in
      monetary || ((credential || (prefix && not benign)) || fallback)

unfoldable mutual
  pub contains_forbidden_event_data : TextServices → Json → Bool
  contains_forbidden_event_data services null = false
  contains_forbidden_event_data services (bool b) = false
  contains_forbidden_event_data services (number n) = false
  contains_forbidden_event_data services (string value) = services.secret_value value
  contains_forbidden_event_data services (array items) = any_item services items
  contains_forbidden_event_data services (object fields) = any_field services fields

  pub any_item : TextServices → Items → Bool
  any_item services nil = false
  any_item services (cons value items) =
      contains_forbidden_event_data services value || any_item services items

  pub any_field : TextServices → Fields → Bool
  any_field services end = false
  any_field services (field key value fields) =
      (forbidden_event_key services key || contains_forbidden_event_data services value)
      || any_field services fields
