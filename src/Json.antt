-- ===== src/Json.antt =====
-- Values of a dynamic request: a parsed JSON body, a query or the route's parameters. A number is
-- held by the text that `String(v)` prints for it, which is all that the modelled code reads of one.
use cliqhub_core.Prelude.{String, Bool, List, [], ◌∷◌, if◌then◌else◌}
use text.Mathlib.Text.{◌==◌}

mutual
  pub data Json : Type 0 where
    undefined : Json
    null : Json
    bool : Bool → Json
    num : String → Json
    str : String → Json
    arr : Items → Json
    obj : Fields → Json

  pub data Items : Type 0 where
    nil : Items
    cons : Json → Items → Items

  pub data Fields : Type 0 where
    end : Fields
    field : String → Json → Fields → Fields

abbrev pub items : Items → List Json
items nil = []
items (cons v vs) = v ∷ items vs

unfoldable pub get_field : Fields → String → Json
get_field end key = undefined
get_field (field k v fs) key = if k == key then v else get_field fs key

-- `src?.[key]`: undefined where `src` is missing or has no such field. (An index or `length` of an
-- array or a text is not read by name in the modelled code.)
unfoldable pub get_prop : Json → String → Json
unfolding get_field
get_prop (obj fs) key = get_field fs key
get_prop _ key = undefined

-- `{ ...fields, [key]: v }`: a field that is there keeps its place and takes the new value.
abbrev pub set_field : Fields → String → Json → Fields
set_field end key v = field key v end
set_field (field k w fs) key v =
    let rest = set_field fs key v in if k == key then field k v fs else field k w rest
