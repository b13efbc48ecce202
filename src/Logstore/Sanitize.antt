-- ===== src/Logstore/Sanitize.antt =====
-- pkg/logstore/logstore.go: `sanitizeNode`, which makes a file name and subject token of a name.
use jb_mesh.Base.{
  ◌≡◌, if◌then◌else◌, not, ◌==◌, ◌≢◌, ◌||◌, false, [], inr, inl, ◌&&◌, ℕ, leb, Bool, true,
  Bool-cases, All, ◌∷◌, refl,
}
use jb_mesh.Base.Text.{lit, trim_space, Text}

-- The bytes that `nodeSanitizer` leaves: letters, digits, dot, underscore and dash.
abbrev pub is_safe : ℕ → Bool
is_safe c =
    (leb 97 c && leb c 122)
    || (leb 65 c && leb c 90)
    || (leb 48 c && leb c 57)
    || c == 46
    || c == 95
    || c == 45

-- `nodeSanitizer.ReplaceAllString(node, "-")`: each longest run of other bytes becomes one dash;
-- `inside` says that the run's dash is already there.
replace_runs : Bool → Text → Text
replace_runs inside [] = []
replace_runs inside (c ∷ s) =
    let rest = replace_runs (not (is_safe c)) s in
    if is_safe c then c ∷ rest else (if inside then rest else 45 ∷ rest)

-- A byte of the cutset "-."
abbrev pub is_edge : ℕ → Bool
is_edge c = c == 45 || c == 46

trim_edge_left : Text → Text
trim_edge_left [] = []
trim_edge_left (c ∷ s) = if is_edge c then trim_edge_left s else c ∷ s

cons_edge : ℕ → Text → Text
cons_edge c [] = if is_edge c then [] else c ∷ []
cons_edge c (d ∷ t) = c ∷ d ∷ t

trim_edge_right : Text → Text
unfolding cons_edge
trim_edge_right [] = []
trim_edge_right (c ∷ s) = cons_edge c (trim_edge_right s)

-- `strings.Trim(node, "-.")`
trim_edges : Text → Text
unfolding trim_edge_left trim_edge_right
trim_edges s = trim_edge_right (trim_edge_left s)

abbrev pub or_unknown : Text → Text
or_unknown [] = lit "unknown"
or_unknown (c ∷ s) = c ∷ s

-- `sanitizeNode`
unfoldable pub sanitize_node : Text → Text
unfolding replace_runs trim_edges
sanitize_node node = or_unknown (trim_edges (replace_runs false (trim_space node)))

abbrev pub AreSafe : Text → Type 0
AreSafe = All (λ c. is_safe c ≡ true)

abbrev pub StartsInside : Text → Type 0
StartsInside [] = Unit
StartsInside (c ∷ s) = is_edge c ≡ false

-- A name of safe bytes, not empty, that begins with neither a dot nor a dash.
abbrev pub IsSafeName : Text → Type 0
IsSafeName s = (s ≢ []) × AreSafe s × StartsInside s

replace_runs-AreSafe : (inside : Bool) (s : Text) → AreSafe (replace_runs inside s)
unfolding replace_runs
replace_runs-AreSafe inside [] = tt
replace_runs-AreSafe inside (c ∷ s) = elim (Bool-cases (is_safe c)) [
  | inl safe ↦ rw safe (safe, replace_runs-AreSafe false s)
  | inr other ↦ rw other (kept inside (replace_runs true s) (replace_runs-AreSafe true s))
]
  where
    kept : (inside : Bool) (t : Text) → AreSafe t → AreSafe (if inside then t else 45 ∷ t)
    kept true t h = h
    kept false t h = (refl, h)

trim_edge_left-AreSafe :
    (s : Text) → AreSafe s → AreSafe (trim_edge_left s) × StartsInside (trim_edge_left s)
unfolding trim_edge_left
trim_edge_left-AreSafe [] h = (tt, tt)
trim_edge_left-AreSafe (c ∷ s) h = elim (Bool-cases (is_edge c)) [
  | inl edge ↦ rw edge (trim_edge_left-AreSafe s h.1)
  | inr plain ↦ rw plain (h, plain)
]

cons_edge-AreSafe : (c : ℕ) (t : Text) → is_safe c ≡ true → AreSafe t → AreSafe (cons_edge c t)
unfolding cons_edge
cons_edge-AreSafe c [] h k = elim (Bool-cases (is_edge c)) [
  | inl edge ↦ rw edge tt
  | inr plain ↦ rw plain (h, tt)
]
cons_edge-AreSafe c (d ∷ t) h k = (h, k)

trim_edge_right-AreSafe : (s : Text) → AreSafe s → AreSafe (trim_edge_right s)
unfolding trim_edge_right
trim_edge_right-AreSafe [] h = tt
trim_edge_right-AreSafe (c ∷ s) h =
    cons_edge-AreSafe c (trim_edge_right s) h.0 (trim_edge_right-AreSafe s h.1)

trim_edge_right-StartsInside : (s : Text) → StartsInside s → StartsInside (trim_edge_right s)
unfolding trim_edge_right cons_edge
trim_edge_right-StartsInside [] h = tt
trim_edge_right-StartsInside (c ∷ s) h = cons_inside c (trim_edge_right s) h
  where
    cons_inside : (c : ℕ) (t : Text) → is_edge c ≡ false → StartsInside (cons_edge c t)
    cons_inside c [] h = rw h h
    cons_inside c (d ∷ t) h = h

or_unknown-IsSafeName : (s : Text) → AreSafe s → StartsInside s → IsSafeName (or_unknown s)
or_unknown-IsSafeName [] h k =
    (λ e. cc, (refl, (refl, (refl, (refl, (refl, (refl, (refl, tt))))))), refl)
or_unknown-IsSafeName (c ∷ s) h k = (λ e. cc, h, k)

-- A sanitized name is not empty, has only letters, digits, dots, underscores and dashes, and begins
-- with neither a dot nor a dash: it names no parent directory, and holds no path separator.
pub sanitize_node-IsSafeName : (node : Text) → IsSafeName (sanitize_node node)
unfolding sanitize_node trim_edges
sanitize_node-IsSafeName node =
    let safe = replace_runs-AreSafe false (trim_space node) in
    let (left, inside) = trim_edge_left-AreSafe (replace_runs false (trim_space node)) safe in
    or_unknown-IsSafeName _ (trim_edge_right-AreSafe _ left) (trim_edge_right-StartsInside _ inside)
