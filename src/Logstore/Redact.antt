-- ===== src/Logstore/Redact.antt =====
-- pkg/logstore/logstore.go: `redactMap` and `redactSlice`, which hide what stands under a sensitive
-- key.
use jb_mesh.Base.{
  List, ◌↔◌, ◌≡◌, if◌then◌else◌, ap, [], inr, inl, Bool, true, subst, Bool-cases, ◌∷◌, refl, any,
}
use jb_mesh.Base.Text.{to_lower, lit, contains, remove_byte, Text}
use jb_mesh.Base.Json.{
  Json, Items, Fields, null, boolean, number, string, array, object, nothing, item, empty, field,
}

abbrev pub sensitive_keys : List Text
sensitive_keys =
    lit "token"
    ∷ lit "api_key"
    ∷ lit "apikey"
    ∷ lit "password"
    ∷ lit "secret"
    ∷ lit "auth"
    ∷ lit "authorization"
    ∷ lit "cookie"
    ∷ lit "bearer"
    ∷ lit "webhooktoken"
    ∷ []

-- `normalizeSensitiveKey`
unfoldable pub normalize_sensitive_key : Text → Text
normalize_sensitive_key s = remove_byte 95 (remove_byte 45 (to_lower s))

-- `isSensitiveKey`
unfoldable pub is_sensitive_key : Text → Bool
unfolding normalize_sensitive_key
is_sensitive_key key =
    any (λ needle. contains (normalize_sensitive_key key) (normalize_sensitive_key needle))
      sensitive_keys

abbrev pub redacted : Json
redacted = string (lit "[REDACTED]")

-- `redactMap`, `redactSlice`, and the type switch that both have
unfoldable mutual
  pub redact_value : Json → Json
  redact_value (object m) = object (redact_map m)
  redact_value (array xs) = array (redact_slice xs)
  redact_value v = v

  pub redact_slice : Items → Items
  redact_slice nothing = nothing
  redact_slice (item v xs) = item (redact_value v) (redact_slice xs)

  pub redact_map : Fields → Fields
  redact_map empty = empty
  redact_map (field k v m) =
      field k (if is_sensitive_key k then redacted else redact_value v) (redact_map m)

-- At whatever depth, what stands under a sensitive key is the mark.
unfoldable mutual
  pub IsRedacted : Json → Type 0
  IsRedacted (object m) = AreRedacted m
  IsRedacted (array xs) = ItemsRedacted xs
  IsRedacted v = Unit

  pub ItemsRedacted : Items → Type 0
  ItemsRedacted nothing = Unit
  ItemsRedacted (item v xs) = IsRedacted v × ItemsRedacted xs

  pub AreRedacted : Fields → Type 0
  AreRedacted empty = Unit
  AreRedacted (field k v m) =
      ((is_sensitive_key k ≡ true) → v ≡ redacted) × IsRedacted v × AreRedacted m

mutual
  unfolding redact_value redact_slice redact_map IsRedacted ItemsRedacted AreRedacted

  redact_value-IsRedacted : (v : Json) → IsRedacted (redact_value v)
  redact_value-IsRedacted (object m) = redact_map-AreRedacted m
  redact_value-IsRedacted (array xs) = redact_slice-ItemsRedacted xs
  redact_value-IsRedacted null = tt
  redact_value-IsRedacted (boolean b) = tt
  redact_value-IsRedacted (number n) = tt
  redact_value-IsRedacted (string s) = tt

  redact_slice-ItemsRedacted : (xs : Items) → ItemsRedacted (redact_slice xs)
  redact_slice-ItemsRedacted nothing = tt
  redact_slice-ItemsRedacted (item v xs) =
      (redact_value-IsRedacted v, redact_slice-ItemsRedacted xs)

  redact_map-AreRedacted : (m : Fields) → AreRedacted (redact_map m)
  redact_map-AreRedacted empty = tt
  redact_map-AreRedacted (field k v m) = elim (Bool-cases (is_sensitive_key k)) [
    | inl secret ↦ rw secret (λ h. refl, tt, redact_map-AreRedacted m)
    | inr open_key ↦ rw open_key (λ h. cc, redact_value-IsRedacted v, redact_map-AreRedacted m)
  ]

mutual
  unfolding redact_value redact_slice redact_map IsRedacted ItemsRedacted AreRedacted

  redact_value_of_IsRedacted : (v : Json) → IsRedacted v → redact_value v ≡ v
  redact_value_of_IsRedacted (object m) h = ap object (redact_map_of_AreRedacted m h)
  redact_value_of_IsRedacted (array xs) h = ap array (redact_slice_of_ItemsRedacted xs h)
  redact_value_of_IsRedacted null h = refl
  redact_value_of_IsRedacted (boolean b) h = refl
  redact_value_of_IsRedacted (number n) h = refl
  redact_value_of_IsRedacted (string s) h = refl

  redact_slice_of_ItemsRedacted : (xs : Items) → ItemsRedacted xs → redact_slice xs ≡ xs
  redact_slice_of_ItemsRedacted nothing h = refl
  redact_slice_of_ItemsRedacted (item v xs) h =
      rw (redact_value_of_IsRedacted v h.0, redact_slice_of_ItemsRedacted xs h.1) refl

  redact_map_of_AreRedacted : (m : Fields) → AreRedacted m → redact_map m ≡ m
  redact_map_of_AreRedacted empty h = refl
  redact_map_of_AreRedacted (field k v m) h = elim (Bool-cases (is_sensitive_key k)) [
    | inl secret ↦ rw (secret, redact_map_of_AreRedacted m h.2, h.0 secret) refl
    | inr open_key ↦
        rw (open_key, redact_value_of_IsRedacted v h.1, redact_map_of_AreRedacted m h.2) refl
  ]

-- A map is left as it is by redaction exactly if whatever stands under a sensitive key, at any
-- depth, is the mark already; and redaction makes every map so.
pub redact_map_iff :
    (m : Fields) → AreRedacted (redact_map m) × ((redact_map m ≡ m) ↔ AreRedacted m)
redact_map_iff m = (
  redact_map-AreRedacted m,
  (λ e. subst AreRedacted e (redact_map-AreRedacted m), redact_map_of_AreRedacted m),
)
