-- ===== src/Base/Json.antt =====
-- The values that package encoding/json decodes into `any`: an object is the list of its entries,
-- and a number the text of its digits.
use mathlib.Core.Bool.{Bool}
use mathlib.Core.Option.{Option, none, some}
use mathlib.Core.List.{List, [], ◌∷◌}
use jb_mesh.Base.Tests.{if◌then◌else◌}
use jb_mesh.Base.Text.{Text, same}

mutual
  pub data Json : Type 0 where
    null : Json
    boolean : Bool → Json
    number : Text → Json
    string : Text → Json
    array : Items → Json
    object : Fields → Json

  pub data Items : Type 0 where
    nothing : Items
    item : Json → Items → Items

  pub data Fields : Type 0 where
    empty : Fields
    field : Text → Json → Fields → Fields

-- `m[k]`
unfoldable pub get : Text → Fields → Option Json
get k empty = none
get k (field j v m) = if same j k then some v else get k m

-- `m[k] = v` for a key that is not there
unfoldable pub add : Text → Json → Fields → Fields
add k v empty = field k v empty
add k v (field j w m) = field j w (add k v m)

abbrev pub keys : Fields → List Text
keys empty = []
keys (field k v m) = k ∷ keys m
