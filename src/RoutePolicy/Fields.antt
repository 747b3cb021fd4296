-- ===== src/RoutePolicy/Fields.antt =====
-- engine.ts, helpers: the ids that a policy names in the request.
use text.Mathlib.Text.{◌==◌}
use cliqhub_core.Prelude.{
  String, Bool, ◌||◌, List, [], ◌∷◌, ◌++◌, Option, none, some, if◌then◌else◌, is_empty, trim,
  ends_with, includes,
}
use cliqhub_core.Json.{Json, str, num, arr, items, get_prop}
use cliqhub_core.RoutePolicy.Policy.{FieldRef, Source, body, query, params, RequestLike}

abbrev source_of : RequestLike → Source → Json
source_of req body = req.body
source_of req query = req.query
source_of req params = req.params

-- A text is trimmed and must not be blank; a number is printed.
unfoldable pub value_text : Json → Option String
value_text (str s) = if is_empty (trim s) then none else some (trim s)
value_text (num n) = some n
value_text _ = none

unfoldable pub read_field : RequestLike → FieldRef → Option String
unfolding value_text
read_field req ref = value_text (get_prop (source_of req ref.where_in) ref.key)

-- One text, or an array: what is neither counts as no id.
abbrev id_values : Json → List Json
id_values (arr vs) = items vs
id_values v = v ∷ []

-- `Set.add`: the set keeps the order of first insertion.
unfoldable pub add : String → List String → List String
add a out = if includes out a then out else out ++ a ∷ []

add_id : List String → Json → List String
unfolding add
add_id out (str s) = if is_empty (trim s) then out else add (trim s) out
add_id out _ = out

add_ids : List String → List Json → List String
unfolding add_id
add_ids out [] = out
add_ids out (v ∷ vs) = add_ids (add_id out v) vs

read_ids_from : RequestLike → List String → List FieldRef → List String
unfolding add_ids
read_ids_from req out [] = out
read_ids_from req out (ref ∷ refs) =
    read_ids_from req (add_ids out (id_values (get_prop (source_of req ref.where_in) ref.key))) refs

unfoldable pub read_ids : RequestLike → List FieldRef → List String
unfolding read_ids_from
read_ids req refs = read_ids_from req [] refs

pub record FoundField : Type 0 where
  pub ref : FieldRef
  pub value : String

-- The first field that is present; the empty text of `String(v)` would not count.
first_or : FieldRef → Option String → Option FoundField → Option FoundField
first_or ref none rest = rest
first_or ref (some value) rest =
    if is_empty value then rest else some (record { ref = ref; value = value })

unfoldable pub first_field : RequestLike → List FieldRef → Option FoundField
unfolding first_or
first_field req [] = none
first_field req (ref ∷ refs) = first_or ref (read_field req ref) (first_field req refs)

-- `ref.endsWith('.slug')`, on the text `body.slug`: the dot before the key belongs to it.
unfoldable pub names_slug : FieldRef → Bool
unfolding ends_with
names_slug ref = ref.key == "slug" || ends_with ref.key ".slug"
