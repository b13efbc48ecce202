-- ===== src/Manifest.antt =====
-- pkg/config/manifest.go: a tool's manifest, with the fields that the node, the tool manager,
-- `Validate` and `ApplyDefaults` read. Of a method it has the name and whether it streams.
use jb_mesh.Base.{
  Bool, List, not, ◌≢◌, [], ◌≡◌, some, arith, zero, refl, subst, ◌↔◌, suc, none, ◌∷◌, Option, ℕ,
}
use jb_mesh.Base.Int.{negsuc, ℤ, pos}
use jb_mesh.Base.Text.{Text, lit, is_empty}
use jb_mesh.Base.Result.{ok, guard, Result, ◌>>◌, err}
use jb_mesh.Version

pub record Runtime : Type 0 where
  pub python : Text
  pub requirements : Text
  pub packages : List Text
  pub conda_packages : List Text
  pub mode : Text
  pub transport : Text
  pub entrypoint : Text
  pub startup_timeout : ℤ

pub record Health : Type 0 where
  pub method : Text
  pub interval : ℤ
  pub failure_threshold : ℤ

pub record Setup : Type 0 where
  pub method : Text
  pub timeout : ℤ

pub record Manifest : Type 0 where
  pub name : Text
  pub version : Text
  pub runtime : Runtime
  pub rpc_transport : Text
  pub rpc_methods : List (Text × Bool)
  pub health : Option Health
  pub setup : Option Setup

pub data ManifestError : Type 0 where
  name_required version_required : ManifestError
  bad_version : Version.Error → ManifestError

abbrev pub with_manifest : Result Version.Error (Unit {0}) → Result ManifestError (Unit {0})
with_manifest (ok u) = ok u
with_manifest (err e) = err (bad_version e)

-- `Validate`
unfoldable pub validate_manifest : Manifest → Result ManifestError (Unit {0})
validate_manifest m =
    guard (not (is_empty m.name)) name_required
    >> guard (not (is_empty m.version)) version_required
    >> with_manifest (Version.validate m.version)

abbrev pub text_or : Text → Text → Text
text_or [] d = d
text_or (c ∷ s) d = c ∷ s

abbrev pub int_or : ℤ → ℤ → ℤ
int_or (pos zero) d = d
int_or (pos (suc n)) d = pos (suc n)
int_or (negsuc n) d = negsuc n

fill_runtime : Runtime → Runtime
fill_runtime r = record r {
  mode = text_or r.mode (lit "oneshot");
  transport = text_or r.transport (lit "repl");
  entrypoint = text_or r.entrypoint (lit "main.py");
  startup_timeout = int_or r.startup_timeout (pos 60);
}

fill_health : Option Health → Option Health
fill_health none = none
fill_health (some h) = some (record {
  method = text_or h.method (lit "health");
  interval = int_or h.interval (pos 30);
  failure_threshold = int_or h.failure_threshold (pos 3);
})

fill_setup : Option Setup → Option Setup
fill_setup none = none
fill_setup (some s) =
    some (record { method = text_or s.method (lit "setup"); timeout = int_or s.timeout (pos 600) })

-- `ApplyDefaults`
unfoldable pub apply_defaults : Manifest → Manifest
unfolding fill_runtime fill_health fill_setup
apply_defaults m = record m {
  runtime = fill_runtime m.runtime;
  rpc_transport = text_or m.rpc_transport (lit "jsonqueue");
  health = fill_health m.health;
  setup = fill_setup m.setup;
}

abbrev pub IsFilledHealth : Option Health → Type 0
IsFilledHealth none = Unit
IsFilledHealth (some h) = (h.method ≢ []) × (h.interval ≢ pos 0) × (h.failure_threshold ≢ pos 0)

abbrev pub IsFilledSetup : Option Setup → Type 0
IsFilledSetup none = Unit
IsFilledSetup (some s) = (s.method ≢ []) × (s.timeout ≢ pos 0)

-- A manifest in which nothing that has a default is missing.
abbrev pub IsFilled : Manifest → Type 0
IsFilled m =
    (m.runtime.mode ≢ [])
    × (m.runtime.transport ≢ [])
    × (m.runtime.entrypoint ≢ [])
    × (m.runtime.startup_timeout ≢ pos 0)
    × (m.rpc_transport ≢ [])
    × IsFilledHealth m.health
    × IsFilledSetup m.setup

text_or-ne_nil : (s d : Text) → d ≢ [] → text_or s d ≢ []
text_or-ne_nil [] d h = h
text_or-ne_nil (c ∷ s) d h = λ e. cc

int_or-ne_zero : (n : ℤ) (d : ℕ) → int_or n (pos (suc d)) ≢ pos 0
int_or-ne_zero (pos zero) d = λ e. ground arith
int_or-ne_zero (pos (suc n)) d = λ e. ground arith
int_or-ne_zero (negsuc n) d = λ e. cc

text_or_of_ne_nil : (s d : Text) → s ≢ [] → text_or s d ≡ s
text_or_of_ne_nil [] d h = absurd (h refl)
text_or_of_ne_nil (c ∷ s) d h = refl

int_or_of_ne_zero : (n d : ℤ) → n ≢ pos 0 → int_or n d ≡ n
int_or_of_ne_zero (pos zero) d h = absurd (h refl)
int_or_of_ne_zero (pos (suc n)) d h = refl
int_or_of_ne_zero (negsuc n) d h = refl

fill_health-IsFilledHealth : (o : Option Health) → IsFilledHealth (fill_health o)
unfolding fill_health
fill_health-IsFilledHealth none = tt
fill_health-IsFilledHealth (some h) = (
  text_or-ne_nil h.method (lit "health") (λ e. cc),
  int_or-ne_zero h.interval 29,
  int_or-ne_zero h.failure_threshold 2,
)

fill_setup-IsFilledSetup : (o : Option Setup) → IsFilledSetup (fill_setup o)
unfolding fill_setup
fill_setup-IsFilledSetup none = tt
fill_setup-IsFilledSetup (some s) =
    (text_or-ne_nil s.method (lit "setup") (λ e. cc), int_or-ne_zero s.timeout 599)

apply_defaults-IsFilled : (m : Manifest) → IsFilled (apply_defaults m)
unfolding apply_defaults fill_runtime
apply_defaults-IsFilled m = (
  text_or-ne_nil m.runtime.mode (lit "oneshot") (λ e. cc),
  text_or-ne_nil m.runtime.transport (lit "repl") (λ e. cc),
  text_or-ne_nil m.runtime.entrypoint (lit "main.py") (λ e. cc),
  int_or-ne_zero m.runtime.startup_timeout 59,
  text_or-ne_nil m.rpc_transport (lit "jsonqueue") (λ e. cc),
  fill_health-IsFilledHealth m.health,
  fill_setup-IsFilledSetup m.setup,
)

fill_health_of_IsFilledHealth : (o : Option Health) → IsFilledHealth o → fill_health o ≡ o
unfolding fill_health
fill_health_of_IsFilledHealth none h = refl
fill_health_of_IsFilledHealth (some o) (a, b, c) = λ i. some (record {
  method = text_or_of_ne_nil o.method (lit "health") a i;
  interval = int_or_of_ne_zero o.interval (pos 30) b i;
  failure_threshold = int_or_of_ne_zero o.failure_threshold (pos 3) c i;
})

fill_setup_of_IsFilledSetup : (o : Option Setup) → IsFilledSetup o → fill_setup o ≡ o
unfolding fill_setup
fill_setup_of_IsFilledSetup none h = refl
fill_setup_of_IsFilledSetup (some o) (a, b) = λ i. some (record {
  method = text_or_of_ne_nil o.method (lit "setup") a i;
  timeout = int_or_of_ne_zero o.timeout (pos 600) b i;
})

apply_defaults_of_IsFilled : (m : Manifest) → IsFilled m → apply_defaults m ≡ m
unfolding apply_defaults fill_runtime
apply_defaults_of_IsFilled m (a, b, c, d, e, f, g) = λ i. record m {
  runtime = record m.runtime {
    mode = text_or_of_ne_nil m.runtime.mode (lit "oneshot") a i;
    transport = text_or_of_ne_nil m.runtime.transport (lit "repl") b i;
    entrypoint = text_or_of_ne_nil m.runtime.entrypoint (lit "main.py") c i;
    startup_timeout = int_or_of_ne_zero m.runtime.startup_timeout (pos 60) d i;
  };
  rpc_transport = text_or_of_ne_nil m.rpc_transport (lit "jsonqueue") e i;
  health = fill_health_of_IsFilledHealth m.health f i;
  setup = fill_setup_of_IsFilledSetup m.setup g i;
}

-- The defaults leave nothing missing that has one, and they change exactly the manifests in which
-- something is missing; so to apply them twice is to apply them once.
pub apply_defaults_iff :
    (m : Manifest) → IsFilled (apply_defaults m) × ((apply_defaults m ≡ m) ↔ IsFilled m)
apply_defaults_iff m = (
  apply_defaults-IsFilled m,
  (λ e. subst IsFilled e (apply_defaults-IsFilled m), apply_defaults_of_IsFilled m),
)
