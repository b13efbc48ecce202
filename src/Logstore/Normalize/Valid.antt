-- ===== src/Logstore/Normalize/Valid.antt =====
-- What every record that `Normalize` returns satisfies.
use jb_mesh.Base.Text.{
  contains, remove_byte, to_lower, same, has_prefix, is_empty, same_iff, lit, Text,
}
use jb_mesh.Base.Json.{get, Fields}
use jb_mesh.Base.Result.{guard, Result, bind-eq-ok, ok-injective, ok}
use jb_mesh.Base.{
  ◌||◌, if◌then◌else◌, subst, false, refl, zero, inl, take, ℕ, some, Option, List, ◌≤◌, length,
  Bool, inr, none, arith, true, ◌≢◌, suc, ◌∷◌, [], ◌≡◌,
}
use jb_mesh.Logstore.Normalize.{
  finished, Library, Config, Record, LogError, schema_v1, message_limit, data_limit,
  truncate_string, truncate_data, summary, encoded, fits, redact_data, validate, finish,
  normalize_event, event_record, log_record, normalize_log, normalize_object, normalize, as_string,
  invalid_ts,
}
use jb_mesh.Logstore.Redact.{IsRedacted, redact_map, is_sensitive_key, AreRedacted, redact_map_iff}
use jb_mesh.Logstore.Subject.{
  levels, kinds, one_of, infer_from_subject-kinds, EmptyOr, normalize_level-EmptyOr,
  normalize_kind-EmptyOr,
}

abbrev pub IsRedactedData : Option Fields → Type 0
IsRedactedData none = Unit
IsRedactedData (some m) = AreRedacted m

-- The same, where redaction is on.
abbrev pub IsRedactedIf : Bool → Option Fields → Type 0
IsRedactedIf true content = IsRedactedData content
IsRedactedIf false content = Unit

-- A record that can be stored: its fields are there, its level and its kind are known ones, its
-- message is within the limit, and its data is redacted where redaction is on.
abbrev pub IsValid : Library → Config → Record → Type 0
IsValid lib cfg rec =
    (rec.schema ≡ schema_v1)
    × (rec.subject ≢ [])
    × (rec.message ≢ [])
    × (rec.origin.node ≢ [])
    × (one_of rec.level levels ≡ true)
    × (one_of rec.origin.kind kinds ≡ true)
    × (lib.is_time rec.ts ≡ true)
    × (length rec.message ≤ message_limit cfg)
    × IsRedactedIf cfg.redact rec.content

length-take : (n : ℕ) (s : Text) → length (take n s) ≤ n
length-take zero s = omega arith
length-take (suc n) [] = omega arith
length-take (suc n) (c ∷ s) = omega (arith, length-take n s)

length-truncate_string : (max : ℕ) (s : Text) → length (truncate_string max s) ≤ max
unfolding truncate_string
length-truncate_string max s = ground (arith, length-take max s)

summary-AreRedacted : (lib : Library) (b : Text) → AreRedacted (summary lib b)
unfolding AreRedacted IsRedacted is_sensitive_key contains remove_byte to_lower
summary-AreRedacted lib b = (
  (λ h. let plain : is_sensitive_key (lit "truncated") ≡ false = refl in cc),
  tt,
  (
    (λ h. let plain : is_sensitive_key (lit "original_bytes") ≡ false = refl in cc),
    tt,
    ((λ h. let plain : is_sensitive_key (lit "sha256") ≡ false = refl in cc), tt, tt),
  ),
)

-- Data that fits is kept.
kept-IsRedactedData :
    (lib : Library) (m : Fields) (b : Bool)
    → AreRedacted m
    → let p : Option Fields × Bool =
        if b then (some m, false) else (some (summary lib (encoded lib m)), true) in
      IsRedactedData p.0
kept-IsRedactedData lib m true h = h
kept-IsRedactedData lib m false h = summary-AreRedacted lib (encoded lib m)

truncate_data-IsRedactedData :
    (lib : Library) (max : ℕ) (content : Option Fields)
    → IsRedactedData (truncate_data lib max (redact_data true content)).0
unfolding truncate_data
truncate_data-IsRedactedData lib max none = tt
truncate_data-IsRedactedData lib max (some m) =
    kept-IsRedactedData lib (redact_map m) (fits lib max (redact_map m)) (redact_map_iff m).0

truncate_data-IsRedactedIf :
    (lib : Library) (max : ℕ) (redact : Bool) (content : Option Fields)
    → IsRedactedIf redact (truncate_data lib max (redact_data redact content)).0
truncate_data-IsRedactedIf lib max true content = truncate_data-IsRedactedData lib max content
truncate_data-IsRedactedIf lib max false content = tt

validate-ok :
    (lib : Library) (rec : Record) {u : Unit {0}}
    → validate lib rec ≡ ok u
    → (rec.schema ≡ schema_v1)
      × (rec.subject ≢ [])
      × (rec.message ≢ [])
      × (rec.origin.node ≢ [])
      × (rec.level ≢ [])
      × (rec.origin.kind ≢ [])
      × (lib.is_time rec.ts ≡ true)
unfolding validate
validate-ok lib rec h = ground (arith, same_iff rec.schema schema_v1)

EmptyOr-known : (ts : List Text) (t : Text) → EmptyOr ts t → t ≢ [] → one_of t ts ≡ true
EmptyOr-known ts t (inl h) k = absurd (k h)
EmptyOr-known ts t (inr h) k = h

finish-IsValid :
    (lib : Library) (cfg : Config) (rec : Record) {out : Record}
    → EmptyOr levels rec.level
    → EmptyOr kinds rec.origin.kind
    → finish lib cfg rec ≡ ok out
    → IsValid lib cfg out × (out.subject ≡ rec.subject)
unfolding finish finished
finish-IsValid lib cfg rec h k e =
    let (u, valid, same_out) = bind-eq-ok (validate lib (finished lib cfg rec)) _ e in
    let (schema, subject, message, node, level, kind, ts) =
      validate-ok lib (finished lib cfg rec) valid in
    subst (λ out. IsValid lib cfg out × (out.subject ≡ rec.subject)) (ok-injective same_out)
      (
        (
          schema,
          subject,
          message,
          node,
          EmptyOr-known levels rec.level h level,
          EmptyOr-known kinds rec.origin.kind k kind,
          ts,
          length-truncate_string (message_limit cfg) rec.message,
          truncate_data-IsRedactedIf lib (data_limit cfg) cfg.redact rec.content,
        ),
        refl,
      )

abbrev Answers : Library → Config → Text → Result LogError Record → Type 0
Answers lib cfg subject r =
    (out : Record) → r ≡ ok out → IsValid lib cfg out × (out.subject ≡ subject)

event-Answers :
    (lib : Library) (cfg : Config) (subject : Text) (raw : Fields)
    → Answers lib cfg subject (normalize_event lib cfg subject raw)
unfolding normalize_event event_record same
event-Answers lib cfg subject raw out h =
    finish-IsValid lib cfg (event_record lib cfg subject raw) (inr refl) (inr refl) h

log-Answers :
    (lib : Library) (cfg : Config) (subject : Text) (raw : Fields)
    → Answers lib cfg subject (normalize_log lib cfg subject raw)
unfolding normalize_log log_record
log-Answers lib cfg subject raw out h =
    let ts = as_string (get (lit "ts") raw) in
    let (u, timed, rest) = bind-eq-ok (guard (is_empty ts || lib.is_time ts) invalid_ts) _ h in
    finish-IsValid lib cfg (log_record lib cfg subject raw)
      (normalize_level-EmptyOr (as_string (get (lit "level") raw)) cfg.strict)
      (infer_from_subject-kinds subject _
        (normalize_kind-EmptyOr (as_string (get (lit "kind") raw)) cfg.strict))
      rest

either-Answers :
    (lib : Library) (cfg : Config) (subject : Text) (b : Bool) (r s : Result LogError Record)
    → Answers lib cfg subject r
    → Answers lib cfg subject s
    → Answers lib cfg subject (if b then r else s)
either-Answers lib cfg subject true r s h k = h
either-Answers lib cfg subject false r s h k = k

-- Every record that is normalized with success can be stored: its schema is the current one, it
-- has a node and a message within the limit, its subject is the message's, its level is one of the
-- four levels and its kind one of the six kinds, its timestamp is one, and if redaction is on no
-- sensitive key of its data shows a value at any depth.
pub normalize-IsValid :
    (lib : Library) (cfg : Config) (subject : Text) (payload : Option Fields) {out : Record}
    → normalize lib cfg subject payload ≡ ok out
    → IsValid lib cfg out × (out.subject ≡ subject)
unfolding normalize normalize_object
normalize-IsValid lib cfg subject none h = cc
normalize-IsValid lib cfg subject (some raw) {out} h =
    either-Answers lib cfg subject (has_prefix subject (lit "events."))
      (normalize_event lib cfg subject raw) (normalize_log lib cfg subject raw)
      (event-Answers lib cfg subject raw) (log-Answers lib cfg subject raw) out h
