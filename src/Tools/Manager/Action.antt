-- ===== src/Tools/Manager/Action.antt =====
-- The errors of the tool manager, and its operations on the machine: they change its state and
-- return a value or an error.
use jb_mesh.Base.{Bool, true, false, Option, none, some}
use jb_mesh.Base.Text.{Text}
use jb_mesh.Base.Result.{Result, ok, err}

pub data ManagerError : Type 0 where
  source_required no_path no_root out_of_fuel unreadable invalid_yaml : ManagerError
  not_found : Text → ManagerError
  already_installed : Text → Text → ManagerError
  name_changed : Text → Text → ManagerError
  bad_backend : ManagerError
  no_base no_conda no_venv package_failed pip_failed requirements_failed : ManagerError
  no_repl entrypoint_failed import_failed no_module no_queue setup_failed : ManagerError
  setup_error : Text → ManagerError
  symlink_failed no_temp clone_failed move_failed pull_failed not_removed : ManagerError

abbrev pub Action : Type 0 → Type 0 → Type 0
Action W A = W → W × Result ManagerError A

module _ {W : Type 0} where
  unfoldable pub after :
      {A B : Type 0} → W × Result ManagerError A → (A → Action W B) → W × Result ManagerError B
  after (w, ok a) f = f a w
  after (w, err e) f = (w, err e)

  infixl 5 ◌>>=◌ ◌>>◌
  abbrev pub ◌>>=◌ : {A B : Type 0} → Action W A → (A → Action W B) → Action W B
  ◌>>=◌ m f w = after (m w) f

  abbrev pub ◌>>◌ : {B : Type 0} → Action W (Unit {0}) → Action W B → Action W B
  ◌>>◌ m k w = after (m w) (λ _. k)

  abbrev pub pure : {A : Type 0} → A → Action W A
  pure a w = (w, ok a)

  abbrev pub fail : {A : Type 0} → ManagerError → Action W A
  fail e w = (w, err e)

  -- The result of a command, or the error that its failure is.
  abbrev pub produced : {A : Type 0} → ManagerError → W × Option A → W × Result ManagerError A
  produced e (w, none) = (w, err e)
  produced e (w, some a) = (w, ok a)

  abbrev pub done : ManagerError → W × Bool → W × Result ManagerError (Unit {0})
  done e (w, false) = (w, err e)
  done e (w, true) = (w, ok tt)

  -- `if err != nil { ...; return err }` with a command in front of the return
  unfoldable pub cleaned_after :
      {A : Type 0} → (W → W) → W × Result ManagerError A → W × Result ManagerError A
  cleaned_after clean (w, ok a) = (w, ok a)
  cleaned_after clean (w, err e) = (clean w, err e)

  abbrev pub cleaned : {A : Type 0} → (W → W) → Action W A → Action W A
  cleaned clean m w = cleaned_after clean (m w)

  -- A deferred command
  abbrev pub closing : {A : Type 0} → (W → W) → Action W A → Action W A
  closing close m w = let (w', r) = m w in (close w', r)

-- The error of the first, or what the second makes of its value.
abbrev pub and_then :
    {A B : Type 0} → Result ManagerError A → (A → Result ManagerError B) → Result ManagerError B
and_then (ok a) f = f a
and_then (err e) f = err e
