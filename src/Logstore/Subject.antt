-- ===== src/Logstore/Subject.antt =====
-- pkg/logstore: the subjects of the records, `SubjectFor` of producer.go, and what logstore.go reads
-- back from a subject: `inferFromSubject`, `normalizeLevel` and `normalizeKind`.
use jb_mesh.Base.{
  inr, true, ◌⊎◌, Bool-cases, refl, inl, arith, ap, ◌≡◌, zero, ◌∷◌, List, All, false, suc, any, ℕ,
  Bool, if◌then◌else◌, ◌||◌, [],
}
use jb_mesh.Base.Text.{same_refl, split, Text, lit, to_lower, is_empty, same, join}
use jb_mesh.Logstore.Sanitize.{sanitize_node}
use jb_mesh.Base.Text.Split.{NoByte, split-join}

abbrev pub one_of : Text → List Text → Bool
one_of t ts = any (same t) ts

abbrev pub levels : List Text
levels = lit "debug" ∷ lit "info" ∷ lit "warn" ∷ lit "error" ∷ []

abbrev pub kinds : List Text
kinds = lit "node" ∷ lit "tool" ∷ lit "tool_call" ∷ lit "event" ∷ lit "audit" ∷ lit "system" ∷ []

-- `normalizeLevel`
unfoldable pub normalize_level : Text → Bool → Text
normalize_level level strict =
    if one_of (to_lower level) levels
    then to_lower level
    else if same (to_lower level) (lit "warning")
    then lit "warn"
    else if is_empty (to_lower level)
    then lit "info"
    else if strict
    then []
    else lit "info"

-- `normalizeKind`
unfoldable pub normalize_kind : Text → Bool → Text
normalize_kind kind strict =
    if one_of (to_lower kind) kinds
    then to_lower kind
    else if is_empty (to_lower kind)
    then lit "system"
    else if strict
    then []
    else lit "system"

-- The fields of a record that its subject can fill in.
pub record Origin : Type 0 where
  pub kind : Text
  pub node : Text
  pub tool : Text
  pub method : Text

-- The switch on the second token of a log subject, for a kind that is still "system".
kind_of_token : Text → Text
kind_of_token t =
    if same t (lit "node")
    then lit "node"
    else if same t (lit "tool")
    then lit "tool"
    else if same t (lit "call")
    then lit "tool_call"
    else if same t (lit "audit")
    then lit "audit"
    else lit "system"

-- `s` unless it is empty
abbrev pub first_non_empty : Text → Text → Text
first_non_empty [] d = d
first_non_empty (c ∷ s) d = c ∷ s

-- `parts[n]`, or nothing out of range
abbrev pub nth : ℕ → List Text → Text
nth n [] = []
nth zero (t ∷ ts) = t
nth (suc n) (t ∷ ts) = nth n ts

abbrev is_system : Text → Bool
is_system kind = same kind (lit "system")

infer_parts : List Text → Origin → Origin
unfolding kind_of_token
infer_parts [] o = o
infer_parts (first ∷ []) o = o
infer_parts (first ∷ second ∷ rest) o =
    let kind = first_non_empty o.kind (lit "system") in
    if same first (lit "logs")
    then record {
      kind = if is_system kind then kind_of_token second else kind;
      node = first_non_empty o.node (nth 0 rest);
      tool = first_non_empty o.tool (nth 1 rest);
      method = first_non_empty o.method (nth 2 rest);
    }
    else if same first (lit "events")
    then record o { kind = if is_system kind then lit "event" else kind }
    else record o { kind = kind }

-- `inferFromSubject`
unfoldable pub infer_from_subject : Text → Origin → Origin
unfolding infer_parts
infer_from_subject subject o = infer_parts (split 46 subject) o

-- Empty, or one of the texts.
abbrev pub EmptyOr : List Text → Text → Type 0
EmptyOr ts t = (t ≡ []) ⊎ (one_of t ts ≡ true)

pub normalize_level-EmptyOr :
    (level : Text) (strict : Bool) → EmptyOr levels (normalize_level level strict)
unfolding normalize_level
normalize_level-EmptyOr level strict =
    ground (arith, same_refl (lit "warn"), same_refl (lit "info"))

pub normalize_kind-EmptyOr :
    (kind : Text) (strict : Bool) → EmptyOr kinds (normalize_kind kind strict)
unfolding normalize_kind
normalize_kind-EmptyOr kind strict = ground (arith, same_refl (lit "system"))

kind_of_token-kinds : (t : Text) → one_of (kind_of_token t) kinds ≡ true
unfolding kind_of_token
kind_of_token-kinds t = ground (
  arith,
  same_refl (lit "node"),
  same_refl (lit "tool"),
  same_refl (lit "tool_call"),
  same_refl (lit "audit"),
  same_refl (lit "system"),
)

or_system-kinds :
    (kind : Text) → EmptyOr kinds kind → one_of (first_non_empty kind (lit "system")) kinds ≡ true
unfolding same
or_system-kinds [] h = refl
or_system-kinds (c ∷ kind) (inl h) = cc
or_system-kinds (c ∷ kind) (inr h) = h

-- The choice between a kind read from the subject and the record's own.
pick-kinds :
    (b : Bool) (s t : Text)
    → one_of s kinds ≡ true
    → one_of t kinds ≡ true
    → one_of (if b then s else t) kinds ≡ true
pick-kinds true s t h k = h
pick-kinds false s t h k = k

infer_parts-kinds :
    (parts : List Text) (o : Origin)
    → EmptyOr kinds o.kind
    → EmptyOr kinds (infer_parts parts o).kind
unfolding infer_parts
infer_parts-kinds [] o h = h
infer_parts-kinds (first ∷ []) o h = h
infer_parts-kinds (first ∷ second ∷ rest) o h =
    let kind = first_non_empty o.kind (lit "system") in
    let known = or_system-kinds o.kind h in
    let token =
      pick-kinds (is_system kind) (kind_of_token second) kind (kind_of_token-kinds second) known in
    let event = pick-kinds (is_system kind) (lit "event") kind (unfold same in refl) known in
    elim (Bool-cases (same first (lit "logs"))) [
      | inl logs ↦ rw logs (inr token)
      | inr other ↦ rw other (elim (Bool-cases (same first (lit "events"))) [
        | inl events ↦ rw events (inr event)
        | inr neither ↦ rw neither (inr known)
      ])
    ]

-- A subject can only give a record one of the kinds.
pub infer_from_subject-kinds :
    (subject : Text) (o : Origin)
    → EmptyOr kinds o.kind
    → EmptyOr kinds (infer_from_subject subject o).kind
unfolding infer_from_subject
infer_from_subject-kinds subject o h = infer_parts-kinds (split 46 subject) o h

-- A subject of these tokens.
abbrev pub dotted : List Text → Text
dotted = join 46

-- `SubjectFor`
unfoldable pub subject_for : Text → Text → Text → Text → Text
subject_for node kind tool method =
    let node = sanitize_node node in
    if same kind (lit "node")
    then dotted (lit "logs" ∷ lit "node" ∷ node ∷ [])
    else if same kind (lit "tool")
    then (if is_empty tool
        then []
        else dotted (lit "logs" ∷ lit "tool" ∷ node ∷ sanitize_node tool ∷ []))
    else if same kind (lit "tool_call")
    then (if is_empty tool || is_empty method
        then []
        else dotted
            (lit "logs" ∷ lit "call" ∷ node ∷ sanitize_node tool ∷ sanitize_node method ∷ []))
    else if same kind (lit "audit")
    then dotted (lit "logs" ∷ lit "audit" ∷ sanitize_node (first_non_empty tool node) ∷ [])
    else dotted (lit "logs" ∷ lit "node" ∷ node ∷ [])

abbrev pub blank_origin : Origin
blank_origin = record { kind = lit "system"; node = []; tool = []; method = [] }

NoDot-dotted :
    (ts : List Text) (t : Text)
    → All (NoByte 46) (t ∷ ts)
    → infer_from_subject (dotted (t ∷ ts)) blank_origin ≡ infer_parts (t ∷ ts) blank_origin
unfolding infer_from_subject
NoDot-dotted ts t h = ap (λ parts. infer_parts parts blank_origin) (split-join 46 t ts h)

logs-NoDot : NoByte 46 (lit "logs")
logs-NoDot = ground arith

call-NoDot : NoByte 46 (lit "call")
call-NoDot = ground arith

-- Where none of the three names has a dot once it is sanitized, the subject of a call's record tells
-- a record that names nothing the kind of the call and its sanitized node, tool and method.
pub infer_from_subject-subject_for :
    (node tool method : Text)
    → is_empty tool ≡ false
    → is_empty method ≡ false
    → NoByte 46 (sanitize_node node)
    → NoByte 46 (sanitize_node tool)
    → NoByte 46 (sanitize_node method)
    → infer_from_subject (subject_for node (lit "tool_call") tool method) blank_origin ≡ record {
      kind = lit "tool_call";
      node = sanitize_node node;
      tool = sanitize_node tool;
      method = sanitize_node method;
    }
unfolding subject_for same infer_parts kind_of_token
infer_from_subject-subject_for node tool method t m dotless_node dotless_tool dotless_method =
    rw (t, m)
      (NoDot-dotted
        (lit "call" ∷ sanitize_node node ∷ sanitize_node tool ∷ sanitize_node method ∷ [])
        (lit "logs")
        (logs-NoDot, (call-NoDot, (dotless_node, (dotless_tool, (dotless_method, tt))))))
