-- ===== src/Cli/Inputs.antt =====
-- cmd/jb-mesh/init_service.go: the name of a new service and the name of its class; logs_cmd.go and
-- main.go: lists and values that are given as arguments, and types of files. The JSON decoder is an
-- argument.
use jb_mesh.Base.{
  refl, false, ==_iff, take, arith, ◌≢◌, List, [], if◌then◌else◌, ◌||◌, ◌&&◌, All, none, ◌++◌, ◌==◌,
  some, Option, ◌-◌, ◌≡◌, true, ℕ, not, Bool, Bool-cases, leb, ◌∷◌,
}
use jb_mesh.Base.Result.{bind-eq-ok, ok, ◌>>◌, Result, guard, err, ◌>>=◌}
use jb_mesh.Base.Text.{has_suffix, lit, trim_space, cut, split, is_empty, Text, same}
use jb_mesh.Base.Dict.{Dict, insert}
use jb_mesh.Base.Json.{Json, string}

pub data InputError : Type 0 where
  name_required leading_hyphen : InputError
  bad_name not_a_pair empty_key : Text → InputError

-- A byte that a service name may have
abbrev pub is_name_byte : ℕ → Bool
is_name_byte c = (leb 97 c && leb c 122) || (leb 48 c && leb c 57) || c == 45

-- The bytes of a name after the first
check_rest : Text → Text → Result InputError (Unit {0})
check_rest name [] = ok tt
check_rest name (c ∷ s) = guard (is_name_byte c) (bad_name name) >> check_rest name s

check_name : Text → Result InputError (Unit {0})
unfolding check_rest
check_name [] = ok tt
check_name (c ∷ s) =
    guard (is_name_byte c) (bad_name (c ∷ s))
    >> guard (not (c == 45)) leading_hyphen
    >> check_rest (c ∷ s) s

-- `validateServiceName`
unfoldable pub validate_service_name : Text → Result InputError (Unit {0})
unfolding check_name
validate_service_name name =
    guard (not (is_empty (trim_space name))) name_required >> check_name name

check_rest-All : (name s : Text) → check_rest name s ≡ ok tt → All (λ c. is_name_byte c ≡ true) s
unfolding check_rest
check_rest-All name [] h = tt
check_rest-All name (c ∷ s) h = ground (arith, Bool-cases (is_name_byte c), check_rest-All name s)

guard_of_ok :
    (b : Bool) (e : InputError) (u : Unit {0})
    → ◌≡◌ {A = Result InputError (Unit {0})} (guard b e) (ok u)
    → b ≡ true
guard_of_ok true e u h = refl
guard_of_ok false e u h = cc

eq_false : (b : Bool) → not b ≡ true → b ≡ false
eq_false true h = cc
eq_false false h = refl

check_name-All :
    (name : Text)
    → check_name name ≡ ok tt
    → All (λ c. is_name_byte c ≡ true) name × (take 1 name ≢ 45 ∷ [])
unfolding check_name
check_name-All [] h = (tt, λ e. cc)
check_name-All (c ∷ s) h =
    let (u, first, rest) =
      bind-eq-ok (guard (is_name_byte c) (bad_name (c ∷ s)) >> guard (not (c == 45)) leading_hyphen)
        (λ u. check_rest (c ∷ s) s) h in
    let (v, p, q) =
      bind-eq-ok (guard (is_name_byte c) (bad_name (c ∷ s)))
        (λ v. guard (not (c == 45)) leading_hyphen) first in
    (
      (guard_of_ok (is_name_byte c) (bad_name (c ∷ s)) v p, check_rest-All (c ∷ s) s rest),
      λ e.
          let d = eq_false (c == 45) (guard_of_ok (not (c == 45)) leading_hyphen u q) in
          let f = (==_iff c 45).1 cc in cc,
    )

-- A name that is accepted is not empty, consists of lower-case letters, digits and hyphens, and does
-- not start with a hyphen.
pub validate_service_name-All :
    (name : Text)
    → validate_service_name name ≡ ok tt
    → (name ≢ []) × All (λ c. is_name_byte c ≡ true) name × (take 1 name ≢ 45 ∷ [])
unfolding validate_service_name trim_space
validate_service_name-All [] h = (λ e. cc, tt, λ e. cc)
validate_service_name-All (c ∷ s) h =
    let (u, p, q) =
      bind-eq-ok (guard (not (is_empty (trim_space (c ∷ s)))) name_required)
        (λ u. check_name (c ∷ s)) h in
    let (a, b) = check_name-All (c ∷ s) q in (λ e. cc, a, b)

-- The parts of a class name
abbrev pub upper_byte : ℕ → ℕ
upper_byte c = if leb 97 c && leb c 122 then c - 32 else c

abbrev pub capital : Text → Text
capital [] = []
capital (c ∷ s) = upper_byte c ∷ s

capitals : List Text → Text
capitals [] = []
capitals (part ∷ parts) = capital part ++ capitals parts

-- `serviceClassName`
unfoldable pub service_class_name : Text → Text
unfolding capitals
service_class_name name =
    let class_name = capitals (split 45 name) in
    if is_empty class_name
    then lit "Service"
    else if has_suffix class_name (lit "Service")
    then class_name
    else class_name ++ lit "Service"

named_parts : List Text → List Text
named_parts [] = []
named_parts (part ∷ parts) =
    let rest = named_parts parts in
    if is_empty (trim_space part) then rest else trim_space part ∷ rest

-- `splitCSV`
unfoldable pub split_csv : Text → List Text
unfolding named_parts
split_csv raw = if is_empty (trim_space raw) then [] else named_parts (split 44 raw)

module _ (decode : Text → Option Json) where
  abbrev pub decoded : Text → Option Json → Json
  decoded raw none = string raw
  decoded raw (some v) = v

  -- `parseCLIValue`
  unfoldable pub parse_cli_value : Text → Json
  parse_cli_value raw =
      if is_empty (trim_space raw) then string [] else decoded raw (decode (trim_space raw))

  parse_event_pair : Text → Option (Text × Text) → Dict Json → Result InputError (Dict Json)
  unfolding parse_cli_value
  parse_event_pair arg none data_of = err (not_a_pair arg)
  parse_event_pair arg (some (key, raw)) data_of =
      guard (not (is_empty (trim_space key))) (empty_key arg)
      >> ok (insert (trim_space key) (parse_cli_value raw) data_of)

  parse_event_pairs : List Text → Dict Json → Result InputError (Dict Json)
  unfolding parse_event_pair
  parse_event_pairs [] data_of = ok data_of
  parse_event_pairs (arg ∷ args) data_of =
      parse_event_pair arg (cut 61 arg) data_of >>= parse_event_pairs args

  -- `parseEventDataArgs`
  unfoldable pub parse_event_data_args : List Text → Result InputError (Dict Json)
  unfolding parse_event_pairs
  parse_event_data_args args = parse_event_pairs args []

-- The text from the last dot on, which is empty if there is no dot
unfoldable pub extension : Text → Text
extension [] = []
extension (c ∷ path) =
    let rest = extension path in
    if not (is_empty rest) then rest else if c == 46 then c ∷ path else []

type_of : List (Text × Text) → Text → Text
unfolding same
type_of [] ext = lit "application/octet-stream"
type_of ((known, content_type) ∷ types) ext =
    if same known ext then content_type else type_of types ext

abbrev content_types : List (Text × Text)
content_types =
    (lit ".txt", lit "text/plain")
    ∷ (lit ".json", lit "application/json")
    ∷ (lit ".png", lit "image/png")
    ∷ (lit ".jpg", lit "image/jpeg")
    ∷ (lit ".jpeg", lit "image/jpeg")
    ∷ (lit ".gif", lit "image/gif")
    ∷ (lit ".wav", lit "audio/wav")
    ∷ (lit ".mp3", lit "audio/mpeg")
    ∷ (lit ".mp4", lit "video/mp4")
    ∷ (lit ".pdf", lit "application/pdf")
    ∷ (lit ".yaml", lit "text/yaml")
    ∷ (lit ".yml", lit "text/yaml")
    ∷ (lit ".py", lit "text/x-python")
    ∷ (lit ".go", lit "text/x-go")
    ∷ []

-- `detectContentType`
unfoldable pub detect_content_type : Text → Text
unfolding extension type_of
detect_content_type path = type_of content_types (extension path)
