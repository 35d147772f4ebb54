-- ===== src/Upstream/Json.antt =====
-- The values that `encoding/json` decodes into `any`. How bytes become such a value is the decoder's.
use grok2api.Prelude.{Bool, Option, none, some, Text, text_eq, if◌then◌else◌}

mutual
  pub data Value : Type 0 where
    null : Value
    boolean : Bool → Value
    number : Text → Value
    str : Text → Value
    arr : Items → Value
    obj : Fields → Value

  pub data Items : Type 0 where
    nil : Items
    cons : Value → Items → Items

  pub data Fields : Type 0 where
    end : Fields
    field : Text → Value → Fields → Fields

-- `m[k]` of a `map[string]any`; a missing key reads as `nil`.
unfoldable pub get : Text → Fields → Option Value
get k end = none
get k (field j v fs) = if text_eq j k then some v else get k fs

-- `v.(string)`
abbrev pub as_string : Option Value → Option Text
as_string (some (str s)) = some s
as_string _ = none

-- `v.(map[string]any)`
abbrev pub as_object : Option Value → Option Fields
as_object (some (obj fs)) = some fs
as_object _ = none
