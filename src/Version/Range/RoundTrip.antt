-- ===== src/Version/Range/RoundTrip.antt =====
-- Printing a constraint and parsing it back.
use jb_mesh.Version.{Version, to_string}
use jb_mesh.Base.{
  map, List, ◌++◌, [], refl, All, All-append, false, ◌≡◌, ◌≢◌, ◌∷◌, ◌∙◌, ◌⊎◌, ap, arith, ◌<◌,
  All-weaken, inr, inl,
}
use jb_mesh.Base.Text.{join, is_empty, Text, lit, same, has_prefix, trim_space, is_space}
use jb_mesh.Base.Result.{ok}
use jb_mesh.Base.Text.Split.{NoByte, split-join}
use jb_mesh.Base.Text.Trim.{NoSpace, trim_space_of_NoSpace}
use jb_mesh.Version.RoundTrip.{IsRelease, IsPlain, to_string-IsPlain, parse-to_string}
use jb_mesh.Version.Range.{
  Check, checked, parse_one_check, parse_checks, parse_constraint, check_string, constraint_string,
}

-- One of the five operators that the parser produces.
abbrev pub IsOp : Text → Type 0
IsOp op = (op ≡ lit "=") ⊎ (op ≡ lit ">=") ⊎ (op ≡ lit ">") ⊎ (op ≡ lit "<=") ⊎ (op ≡ lit "<")

abbrev pub IsCheck : Check → Type 0
IsCheck ch = IsOp ch.op × IsRelease ch.version

checked-to_string :
    (op : Text) (v : Version)
    → IsRelease v
    → checked op (to_string v) ≡ ok (record { op = op; version = v })
unfolding checked
checked-to_string op v h = rw (parse-to_string v h)

IsPlain-NoSpace : (s : Text) → IsPlain s → NoSpace s
IsPlain-NoSpace =
    All-weaken (λ c. (45 < c) × (c < 127)) (λ c. is_space c ≡ false) (λ c h. ground arith)

IsPlain-NoByte : (s : Text) → IsPlain s → NoByte b',' s
IsPlain-NoByte = All-weaken (λ c. (45 < c) × (c < 127)) (λ c. c ≢ b',') (λ c h. omega arith)

trim_space-to_string : (v : Version) → IsRelease v → trim_space (to_string v) ≡ to_string v
trim_space-to_string v h = trim_space_of_NoSpace _ (IsPlain-NoSpace _ (to_string-IsPlain v h))

abbrev printed : Text → Version → Text
printed op v = check_string (record { op = op; version = v })

parse_one_check-check_string :
    (op : Text) (v : Version)
    → IsOp op
    → IsRelease v
    → parse_one_check (printed op v) ≡ ok (record { op = op; version = v })
unfolding parse_one_check check_string to_string has_prefix same
parse_one_check-check_string op v (inl e) h = rw e (checked-to_string (lit "=") v h)
parse_one_check-check_string op v (inr (inl e)) h =
    rw e (ap (checked (lit ">=")) (trim_space-to_string v h) ∙ checked-to_string (lit ">=") v h)
parse_one_check-check_string op v (inr (inr (inl e))) h =
    rw e (ap (checked (lit ">")) (trim_space-to_string v h) ∙ checked-to_string (lit ">") v h)
parse_one_check-check_string op v (inr (inr (inr (inl e)))) h =
    rw e (ap (checked (lit "<=")) (trim_space-to_string v h) ∙ checked-to_string (lit "<=") v h)
parse_one_check-check_string op v (inr (inr (inr (inr e)))) h =
    rw e (ap (checked (lit "<")) (trim_space-to_string v h) ∙ checked-to_string (lit "<") v h)

printed-IsPlain : (op : Text) (v : Version) → IsOp op → IsRelease v → IsPlain (printed op v)
unfolding check_string same
printed-IsPlain op v (inl e) h = rw e (to_string-IsPlain v h)
printed-IsPlain op v (inr (inl e)) h = rw e (omega arith, (omega arith, to_string-IsPlain v h))
printed-IsPlain op v (inr (inr (inl e))) h = rw e (omega arith, to_string-IsPlain v h)
printed-IsPlain op v (inr (inr (inr (inl e)))) h =
    rw e (omega arith, (omega arith, to_string-IsPlain v h))
printed-IsPlain op v (inr (inr (inr (inr e)))) h = rw e (omega arith, to_string-IsPlain v h)

printed_ne_empty : (op : Text) (v : Version) → IsOp op → is_empty (printed op v) ≡ false
unfolding check_string same to_string
printed_ne_empty op v (inl e) = rw e
printed_ne_empty op v (inr (inl e)) = rw e
printed_ne_empty op v (inr (inr (inl e))) = rw e
printed_ne_empty op v (inr (inr (inr (inl e)))) = rw e
printed_ne_empty op v (inr (inr (inr (inr e)))) = rw e

parse_checks-check_string :
    (checks : List Check) → All IsCheck checks → parse_checks (map check_string checks) ≡ ok checks
unfolding parse_checks
parse_checks-check_string [] h = refl
parse_checks-check_string (ch ∷ checks) ((op, release), h) = rw (
  trim_space_of_NoSpace _ (IsPlain-NoSpace _ (printed-IsPlain ch.op ch.version op release)),
  printed_ne_empty ch.op ch.version op,
  parse_one_check-check_string ch.op ch.version op release,
  parse_checks-check_string checks h,
)

check_strings-IsPlain :
    (checks : List Check) → All IsCheck checks → All IsPlain (map check_string checks)
check_strings-IsPlain [] h = tt
check_strings-IsPlain (ch ∷ checks) ((op, release), h) =
    (printed-IsPlain ch.op ch.version op release, check_strings-IsPlain checks h)

join-NoSpace : (ps : List Text) → All IsPlain ps → NoSpace (join b',' ps)
unfolding join
join-NoSpace [] h = tt
join-NoSpace (p ∷ []) h = IsPlain-NoSpace p h.0
join-NoSpace (p ∷ q ∷ ps) h =
    All-append _ p _ (IsPlain-NoSpace p h.0) (refl, join-NoSpace (q ∷ ps) h.1)

is_empty-append : (s t : Text) → is_empty s ≡ false → is_empty (s ++ t) ≡ false
is_empty-append [] t h = cc
is_empty-append (c ∷ s) t h = refl

join_ne_empty :
    (p : Text) (ps : List Text) → is_empty p ≡ false → is_empty (join b',' (p ∷ ps)) ≡ false
unfolding join
join_ne_empty p [] h = h
join_ne_empty p (q ∷ ps) h = is_empty-append p _ h

-- Printing a constraint that has at least one check, with the five operators and release
-- versions, and parsing the text gives the same constraint back.
pub parse_constraint-constraint_string :
    (ch : Check) (checks : List Check)
    → IsCheck ch
    → All IsCheck checks
    → parse_constraint (constraint_string (record { checks = ch ∷ checks }))
      ≡ ok (record { checks = ch ∷ checks })
unfolding parse_constraint constraint_string
parse_constraint-constraint_string ch checks h k =
    let plain = check_strings-IsPlain (ch ∷ checks) (h, k) in
    let no_comma =
      All-weaken IsPlain (NoByte b',') IsPlain-NoByte (map check_string (ch ∷ checks)) plain in
    rw (
      trim_space_of_NoSpace _ (join-NoSpace (map check_string (ch ∷ checks)) plain),
      join_ne_empty (check_string ch) (map check_string checks)
          (printed_ne_empty ch.op ch.version h.0),
      split-join b',' (check_string ch) (map check_string checks) no_comma,
      parse_checks-check_string (ch ∷ checks) (h, k),
    )
