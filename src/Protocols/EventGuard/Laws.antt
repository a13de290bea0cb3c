-- ===== src/Protocols/EventGuard/Laws.antt =====
-- The event guard finds what is forbidden at any depth, and nothing else.
use nipo_science.Prelude.{
  Bool, Eq, List, Text, [], any, arith, ends_with, ends_with-append, false, inl, inr, mem, nat_eq,
  refl, text_eq, true, uuid_pair_eq, uuid_triple_eq, ◌++◌, ◌||◌, ◌↔◌, ◌∷◌, ◌≡◌, ◌⊎◌,
}
use nipo_science.Protocols.EventGuard.Defs.{
  Fields, Items, Json, TextServices, any_field, any_item, array, bool, cons,
  contains_forbidden_event_data, credential_names, end, field, forbidden_event_key, keep_alnum, nil,
  null, number, object, string,
}

-- Somewhere in the value there is a forbidden key or a secret text.

mutual
  pub data HasForbidden (services : TextServices) : Json → Type 0 where
    secret :
        (value : Text) → services.secret_value value ≡ true → HasForbidden services (string value)
    in_array : (items : Items) → InItems services items → HasForbidden services (array items)
    in_object : (fields : Fields) → InFields services fields → HasForbidden services (object fields)

  pub data InItems (services : TextServices) : Items → Type 0 where
    here :
        (value : Json) (items : Items)
        → HasForbidden services value
        → InItems services (cons value items)
    there :
        (value : Json) (items : Items)
        → InItems services items
        → InItems services (cons value items)

  pub data InFields (services : TextServices) : Fields → Type 0 where
    bad_key :
        (key : Text) (value : Json) (fields : Fields)
        → forbidden_event_key services key ≡ true
        → InFields services (field key value fields)
    bad_value :
        (key : Text) (value : Json) (fields : Fields)
        → HasForbidden services value
        → InFields services (field key value fields)
    further :
        (key : Text) (value : Json) (fields : Fields)
        → InFields services fields
        → InFields services (field key value fields)

||-cases : (a b : Bool) → (a || b) ≡ true → (a ≡ true) ⊎ (b ≡ true)
||-cases true b h = inl refl
||-cases false b h = inr h

mutual
  unfolding contains_forbidden_event_data

  found_sound :
      (s : TextServices) (v : Json) → contains_forbidden_event_data s v ≡ true → HasForbidden s v
  found_sound s null h = absurd (cc)
  found_sound s (bool b) h = absurd (cc)
  found_sound s (number n) h = absurd (cc)
  found_sound s (string t) h = secret t h
  found_sound s (array items) h = in_array items (item_sound s items h)
  found_sound s (object fields) h = in_object fields (field_sound s fields h)

  item_sound : (s : TextServices) (xs : Items) → any_item s xs ≡ true → InItems s xs
  item_sound s nil h = absurd (cc)
  item_sound s (cons v xs) h =
      elim (||-cases (contains_forbidden_event_data s v) (any_item s xs) h) [
        | inl p ↦ here v xs (found_sound s v p)
        | inr p ↦ there v xs (item_sound s xs p)
      ]

  field_sound : (s : TextServices) (fs : Fields) → any_field s fs ≡ true → InFields s fs
  field_sound s end h = absurd (cc)
  field_sound s (field k v fs) h =
      elim (||-cases (forbidden_event_key s k || contains_forbidden_event_data s v) (any_field s fs)
        h) [
          | inl p ↦
              elim (||-cases (forbidden_event_key s k) (contains_forbidden_event_data s v) p) [
                | inl q ↦ bad_key k v fs q
                | inr q ↦ bad_value k v fs (found_sound s v q)
              ]
          | inr p ↦ further k v fs (field_sound s fs p)
        ]

||-left : (a b : Bool) → a ≡ true → (a || b) ≡ true
||-left a b h = ground arith

||-right : (a b : Bool) → b ≡ true → (a || b) ≡ true
||-right a b h = ground arith

mutual
  unfolding contains_forbidden_event_data

  found_complete :
      (s : TextServices) {v : Json} → HasForbidden s v → contains_forbidden_event_data s v ≡ true
  found_complete s (secret value h) = h
  found_complete s (in_array items h) = item_complete s h
  found_complete s (in_object fields h) = field_complete s h

  item_complete : (s : TextServices) {xs : Items} → InItems s xs → any_item s xs ≡ true
  item_complete s (here v xs h) = ||-left _ _ (found_complete s h)
  item_complete s (there v xs h) = ||-right _ _ (item_complete s h)

  field_complete : (s : TextServices) {fs : Fields} → InFields s fs → any_field s fs ≡ true
  field_complete s (bad_key k v fs h) = ||-left _ _ (||-left _ _ h)
  field_complete s (bad_value k v fs h) = ||-left _ _ (||-right _ _ (found_complete s h))
  field_complete s (further k v fs h) = ||-right _ _ (field_complete s h)

-- The guard rejects a value exactly when a forbidden key or a secret text stands in it, at any
-- depth of arrays and objects.
pub contains_forbidden_iff :
    (s : TextServices) (v : Json) → (contains_forbidden_event_data s v ≡ true) ↔ HasForbidden s v
contains_forbidden_iff s v = (found_sound s v, found_complete s)

any_of_mem {ℓ} :
    {A : Type ℓ} ⦃e : Eq A⦄ (test : A → Bool) (x : A) (xs : List A)
    → mem x xs ≡ true
    → test x ≡ true
    → any test xs ≡ true
unfolding mem
any_of_mem test x [] m h = cc
any_of_mem test x (y ∷ xs) m h = ground (arith, any_of_mem test x xs)

-- A key whose folded letters and digits end in a credential name is forbidden, whatever stands
-- before the name, a benign prefix included.
pub forbidden_key_suffix :
    (s : TextServices) (key before name : Text)
    → mem name credential_names ≡ true
    → keep_alnum (s.fold key) ≡ before ++ name
    → forbidden_event_key s key ≡ true
unfolding forbidden_event_key
forbidden_key_suffix s key before name listed e = ||-right _ _ (
    ||-left _ _ (
      ||-left _ _ (
        any_of_mem (λ n. ends_with n (keep_alnum (s.fold key))) name credential_names listed
          (rw e (ends_with-append before name)))))
