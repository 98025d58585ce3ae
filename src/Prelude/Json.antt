-- ===== src/Prelude/Json.antt =====
-- Values as `json.loads` returns them. An object keeps its pairs in the order of the text, repeated
-- keys included, which is what an `object_pairs_hook` receives. Numbers that are no naturals
-- (negative, fractional) keep only their text.
pub mod Sorted
pub mod Code
use Prim.Native.Nat.{ℕ}
use mathlib.Core.Bool.{Bool, true, false, not, ◌&&◌}
use mathlib.Core.Option.{Option, none, some}
use userfreezer.Prelude.Text.{Text, ◌==◌}
use mathlib.Core.List.{[]}
use userfreezer.Prelude.Tests.{nat_eq, if◌then◌else◌}

mutual
  pub data Json : Type 0 where
    null : Json
    bool : Bool → Json
    num : ℕ → Json
    other_num : Text → Json
    str : Text → Json
    arr : Items → Json
    obj : Fields → Json

  pub data Items : Type 0 where
    nil : Items
    item : Json → Items → Items

  pub data Fields : Type 0 where
    end : Fields
    field : Text → Json → Fields → Fields

-- `key in obj`
unfoldable pub mem_field : Text → Fields → Bool
mem_field k end = false
mem_field k (field j v fs) = if j == k then true else mem_field k fs

-- `obj.get(key)` of an object with distinct keys
unfoldable pub get_field : Text → Fields → Option Json
get_field k end = none
get_field k (field j v fs) = if j == k then some v else get_field k fs

-- `set(obj) <= allowed`
unfoldable pub only_fields : (Text → Bool) → Fields → Bool
only_fields allowed end = true
only_fields allowed (field j v fs) = allowed j && only_fields allowed fs

-- What an `object_pairs_hook` that refuses a repeated key lets pass: no object of the text, at any
-- depth, repeats a key.
unfoldable mutual
  pub is_unique : Json → Bool
  is_unique null = true
  is_unique (bool b) = true
  is_unique (num n) = true
  is_unique (other_num t) = true
  is_unique (str t) = true
  is_unique (arr js) = all_unique js
  is_unique (obj fs) = unique_object fs

  pub all_unique : Items → Bool
  all_unique nil = true
  all_unique (item j js) = is_unique j && all_unique js

  pub unique_object : Fields → Bool
  unique_object end = true
  unique_object (field k v fs) = not (mem_field k fs) && is_unique v && unique_object fs

-- `isinstance(value, str)`, and the text then
abbrev pub text_of : Option Json → Option Text
text_of (some (str s)) = some s
text_of _ = none

-- `bool(value)`; whether a number that is no natural is zero is not read off its text.
abbrev pub truthy : (Text → Bool) → Json → Bool
truthy nonzero null = false
truthy nonzero (bool b) = b
truthy nonzero (num n) = not (nat_eq n 0)
truthy nonzero (other_num t) = nonzero t
truthy nonzero (str s) = not (s == [])
truthy nonzero (arr nil) = false
truthy nonzero (arr (item j js)) = true
truthy nonzero (obj end) = false
truthy nonzero (obj (field k v fs)) = true
