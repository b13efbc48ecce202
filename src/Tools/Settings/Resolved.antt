-- ===== src/Tools/Settings/Resolved.antt =====
-- What `Resolve` returns.
use jb_mesh.Base.Result.{ok-injective, bind-eq-ok, ok}
use jb_mesh.Base.{
  ap, ◌∙◌, Bool, true, ◌≡◌, List, inr, ◌∷◌, refl, some, subst, [], Bool-cases, is_some, none, All,
  Option, some-injective, inl, arith,
}
use jb_mesh.Base.Text.{same_sound, same, Text}
use jb_mesh.Base.Dict.{lookup-insert, lookup, Dict}
use jb_mesh.Base.Json.{Json}
use jb_mesh.Tools.Settings.{
  ConfigParam, ToolConfig, overlay, check_required, validate_param, check_value, check_values,
  validate, config_defaults, loaded, resolve,
}

abbrev pub or_else {ℓ} : {A : Type ℓ} → Option A → Option A → Option A
or_else none b = b
or_else (some a) b = some a

lookup-overlay :
    (j : Text) (base values : Dict Json)
    → lookup j (overlay base values) ≡ or_else (lookup j values) (lookup j base)
unfolding overlay lookup
lookup-overlay j base [] = refl
lookup-overlay j base ((key, v) ∷ values) =
    ground (arith, lookup-insert key j v (overlay base values), lookup-overlay j base values)

module _ (is_integral : Text → Bool) (show : Json → Text) where
  -- Every required key has a value, every key with a value is in the schema, and the value is of the
  -- type and among the allowed values that the schema names.
  abbrev pub IsConfigured : Option ToolConfig → Dict Json → Type 0
  IsConfigured none values = Unit
  IsConfigured (some config) values =
      All (λ key. is_some (lookup key values) ≡ true) config.required
      × ((key : Text) (v : Json)
          → lookup key values ≡ some v
          → (param : ConfigParam) × (lookup key config.schema ≡ some param)
            × (validate_param is_integral show key v param ≡ ok tt))

  required-ok :
      (keys : List Text) (values : Dict Json)
      → check_required keys values ≡ ok tt
      → All (λ key. is_some (lookup key values) ≡ true) keys
  unfolding check_required
  required-ok [] values h = tt
  required-ok (key ∷ keys) values h = ground (arith, required-ok keys values)

  value-ok :
      (key : Text) (v : Json) (o : Option ConfigParam)
      → check_value is_integral show key v o ≡ ok tt
      → (param : ConfigParam) × (o ≡ some param)
        × (validate_param is_integral show key v param ≡ ok tt)
  unfolding check_value
  value-ok key v none h = cc
  value-ok key v (some param) h = (param, refl, h)

  values-ok :
      (schema : Dict ConfigParam) (values : Dict Json)
      → check_values is_integral show schema values ≡ ok tt
      → (key : Text) (v : Json) → lookup key values ≡ some v
      → (param : ConfigParam) × (lookup key schema ≡ some param)
        × (validate_param is_integral show key v param ≡ ok tt)
  unfolding check_values lookup
  values-ok schema [] h key v found = cc
  values-ok schema ((k, w) ∷ values) h key v found =
      let (u, first, rest) = bind-eq-ok (check_value is_integral show k w (lookup k schema)) _ h in
      elim (Bool-cases (same k key)) [
        | inl here ↦
            let found' = rw here at found in
            let e = same_sound k key here in
            let w_ok = value-ok k w (lookup k schema) first in
            subst
              (λ x.
                (param : ConfigParam) × (lookup x schema ≡ some param)
                × (validate_param is_integral show x v param ≡ ok tt))
              e
              (subst
                (λ x.
                  (param : ConfigParam) × (lookup k schema ≡ some param)
                  × (validate_param is_integral show k x param ≡ ok tt))
                (some-injective found') w_ok)
        | inr there ↦ values-ok schema values rest key v (rw there at found)
      ]

  validate-ok :
      (config : Option ToolConfig) (values : Dict Json)
      → validate is_integral show config values ≡ ok tt
      → IsConfigured config values
  unfolding validate
  validate-ok none values h = tt
  validate-ok (some config) values h =
      let (u, first, rest) = bind-eq-ok (check_required config.required values) _ h in
      (required-ok config.required values first, values-ok config.schema values rest)

  loaded-ok :
      (o : Option (Dict Json)) {saved a : Dict Json} → o ≡ some saved → loaded o ≡ ok a → a ≡ saved
  loaded-ok none h k = cc
  loaded-ok (some b) h k = cc

  -- The configuration that is resolved for a tool satisfies the schema of its manifest, and the value
  -- of each key is that of the overrides, or else the persisted one, or else the default.
  pub resolve-IsConfigured :
      (config : Option ToolConfig) (persisted : Option (Dict Json)) (overrides : Dict Json)
      {saved result : Dict Json}
      → persisted ≡ some saved
      → resolve is_integral show config persisted overrides ≡ ok result
      → IsConfigured config result
        × ((key : Text)
            → lookup key result
              ≡ or_else
                  (lookup key overrides)
                  (or_else (lookup key saved) (lookup key (config_defaults config))))
  unfolding resolve
  resolve-IsConfigured config persisted overrides {saved} {result} h k =
      let (a, was_loaded, k1) = bind-eq-ok (loaded persisted) _ k in
      let (u, valid, k2) =
        bind-eq-ok
          (validate is_integral show config
            (overlay (overlay (config_defaults config) a) overrides))
          _ k1 in
      let e = loaded-ok persisted h was_loaded in
      let same_result = ok-injective k2 in
      (
        subst (IsConfigured config) same_result (validate-ok config _ valid),
        λ key.
            subst
              (λ r.
                lookup key r
                ≡ or_else (lookup key overrides)
                    (or_else (lookup key saved) (lookup key (config_defaults config))))
              same_result
              (subst
                (λ b.
                  lookup key (overlay (overlay (config_defaults config) a) overrides)
                  ≡ or_else (lookup key overrides)
                      (or_else (lookup key b) (lookup key (config_defaults config))))
                e
                (lookup-overlay key (overlay (config_defaults config) a) overrides
                  ∙ ap (or_else (lookup key overrides))
                      (lookup-overlay key (config_defaults config) a))),
      )
