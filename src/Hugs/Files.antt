-- ===== src/Hugs/Files.antt =====
-- hugs.service.ts, `HugsService._attach_files`: the files of an answer.
use text.Mathlib.Text.{◌==◌}
use cliqhub_core.Prelude.{
  ℕ, String, Bool, true, false, not, ◌&&◌, ◌||◌, List, [], ◌∷◌, Option, none, some, map, ltb, any,
  if◌then◌else◌, print, update_where,
}
use cliqhub_core.Json.{
  Json, Fields, Items, nil, cons, items, undefined, null, end, field, str, num, arr, obj, get_field,
  get_prop, set_field,
}
use cliqhub_core.Hugs.{
  Hug, StoredArtifact, file_invalid, internal, HugResult, done, refused, ◌>>=◌, or_refuse,
  RequestedInput,
}

abbrev text_of : Json → Option String
text_of (str t) = some t
text_of _ = none

abbrev ids_of : List Json → List (Option String)
ids_of refs = map (λ r. text_of (get_prop r "artifact_id")) refs

-- A value that is not an array has no `map`, which is an exception.
abbrev refs_of : Bool → Json → HugResult (List Json)
refs_of false v = done (v ∷ [])
refs_of true (arr vs) = done (items vs)
refs_of true _ = refused internal

abbrev find_artifact : Option String → List StoredArtifact → Option StoredArtifact
find_artifact none rows = none
find_artifact (some id) [] = none
find_artifact (some id) (r ∷ rs) =
    let rest = find_artifact (some id) rs in if r.id == id then some r else rest

abbrev is_some_text : Option String → String → Bool
is_some_text none t = false
is_some_text (some u) t = u == t

abbrev pub is_own_upload : Hug → RequestedInput → String → StoredArtifact → Bool
is_own_upload h input user_id a =
    is_some_text a.hug_id h.id
    && is_some_text a.hug_requested_input input.name
    && is_some_text a.uploaded_by user_id

abbrev fits : Option ℕ → ℕ → Bool
fits none size = true
fits (some limit) size = not (ltb limit size)

abbrev or_empty : Option String → String
or_empty none = ""
or_empty (some t) = t

abbrev file_value : StoredArtifact → Json
file_value a = obj (
    field "artifact_id" (str a.id) (
      field "name" (str a.name) (
        field "size" (num (print a.size_bytes))
          (field "content_type" (str a.mime_type) (field "sha256" (str (or_empty a.sha256)) end)))))

unfoldable attach_one :
    Hug → RequestedInput → String → List StoredArtifact → Option String → HugResult StoredArtifact
attach_one h input user_id rows id = or_refuse (find_artifact id rows) file_invalid >>= λ a.
    if not (is_own_upload h input user_id a)
    then refused file_invalid
    else if not (fits input.max_bytes a.size_bytes)
    then refused file_invalid
    else done a

unfoldable pub attach_each :
    Hug
    → RequestedInput
    → String
    → List StoredArtifact
    → List (Option String)
    → HugResult (List StoredArtifact)
unfolding attach_one
attach_each h input user_id rows [] = done []
attach_each h input user_id rows (id ∷ ids) = attach_one h input user_id rows id >>= λ a.
    attach_each h input user_id rows ids >>= λ rest. done (a ∷ rest)

abbrev values_of : List StoredArtifact → Items
values_of [] = nil
values_of (a ∷ rest) = cons (file_value a) (values_of rest)

abbrev first_of : List StoredArtifact → Json
first_of [] = undefined
first_of (a ∷ rest) = file_value a

abbrev file_json : Bool → List StoredArtifact → Json
file_json multiple found = if multiple then arr (values_of found) else first_of found

abbrev marked_ready : StoredArtifact → StoredArtifact
marked_ready a = record a { status = "ready" }

abbrev is_among : List StoredArtifact → StoredArtifact → Bool
is_among found a = any (λ f. f.id == a.id) found

abbrev is_missing : Json → Bool
is_missing undefined = true
is_missing null = true
is_missing _ = false

-- One round of `_attach_files`: the values and the artifacts after it.
unfoldable attach_input :
    Hug
    → String
    → RequestedInput
    → Fields × List StoredArtifact
    → HugResult (Fields × List StoredArtifact)
unfolding attach_each update_where get_field
attach_input h user_id input (values, rows) =
    if not input.is_file || is_missing (get_field values input.name)
    then done (values, rows)
    else refs_of input.multiple (get_field values input.name) >>= λ refs.
        attach_each h input user_id rows (ids_of refs) >>= λ found. done (
          set_field values input.name (file_json input.multiple found),
          update_where (is_among found) marked_ready rows,
        )

unfoldable pub attach_files :
    Hug
    → String
    → List RequestedInput
    → Fields × List StoredArtifact
    → HugResult (Fields × List StoredArtifact)
unfolding attach_input
attach_files h user_id [] state = done state
attach_files h user_id (input ∷ inputs) state =
    attach_input h user_id input state >>= λ after. attach_files h user_id inputs after
