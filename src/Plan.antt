-- ===== src/Plan.antt =====
-- nt_commit_experimental.py and win32_relative_directory.py: which paths a plan may hold. Of the
-- characters whose upper case is an ASCII letter only ASCII ones occur in the names of devices.
pub mod Paths
pub mod Checked
pub mod Apply
mod Examples
use userfreezer.Prelude.{
  ℕ, ◌-◌, Bool, true, false, not, ◌&&◌, ◌||◌, Option, none, some, List, [], ◌∷◌, map, any_of,
  if◌then◌else◌, ltb, leb, nat_eq, length,
}
use userfreezer.Prelude.Text.{Text, codes, ◌==◌, split, starts_with, slash, contains}
use userfreezer.Core.Outcome.{Result, ok, err, value_error, ◌>>=◌}

abbrev pub invalid : {A : Type 0} → Result A
invalid = err value_error

-- `ord(c) < 32 or c in '/\\:<>"|?*'`
abbrev pub is_bad : ℕ → Bool
is_bad c =
    ltb c 32
    || nat_eq c 47
    || nat_eq c 92
    || nat_eq c 58
    || nat_eq c 60
    || nat_eq c 62
    || nat_eq c 34
    || nat_eq c 124
    || nat_eq c 63
    || nat_eq c 42

-- `name[-1] in (".", " ")`
unfoldable pub ends_badly : Text → Bool
ends_badly [] = false
ends_badly (c ∷ []) = nat_eq c 46 || nat_eq c 32
ends_badly (c ∷ (d ∷ name)) = ends_badly (d ∷ name)

abbrev pub upper : ℕ → ℕ
upper c = if leb 97 c && leb c 122 then c - 32 else c

-- `name.split(".", 1)[0].upper()`
unfoldable pub device_name : Text → Text
device_name [] = []
device_name (c ∷ name) = let rest = device_name name in if nat_eq c 46 then [] else upper c ∷ rest

abbrev pub is_numbered : Text → Bool
is_numbered (a ∷ (b ∷ (c ∷ (n ∷ [])))) =
    leb 49 n
    && leb n 57
    && (((a ∷ (b ∷ (c ∷ []))) == codes "COM") || ((a ∷ (b ∷ (c ∷ []))) == codes "LPT"))
is_numbered _ = false

unfoldable pub is_device : Text → Bool
is_device d = any_of (λ n. n == d) (map codes ("CON" ∷ "PRN" ∷ "AUX" ∷ "NUL" ∷ [])) || is_numbered d

abbrev pub is_unsafe : Text → Bool
is_unsafe name =
    name == [] || name == codes "." || name == codes ".." || any_of is_bad name || ends_badly name

-- `_validate_component`
unfoldable pub validate_component : Text → Result Text
validate_component name =
    if is_unsafe name then invalid else if is_device (device_name name) then invalid else ok name

unfoldable pub validate_all : List Text → Result (List Text)
validate_all [] = ok []
validate_all (p ∷ ps) = do q ← validate_component p; qs ← validate_all ps; ok (q ∷ qs)

-- `_split_relative`
unfoldable pub split_relative : Text → Result (List Text)
split_relative rel =
    if rel == [] || starts_with rel (slash ∷ []) then invalid else validate_all (split slash rel)

-- The items of a plan before and after the check.
pub record Item : Type 0 where
  pub kind : Text
  pub path : Text
  pub payload : Option Text

pub record CheckedItem : Type 0 where
  pub kind : Text
  pub path : Text
  pub parts : List Text
  pub payload : Option Text

abbrev pub is_kind : Text → Bool
is_kind k = k == codes "W" || k == codes "M" || k == codes "F" || k == codes "D"

-- Bytes for a write and nothing else for the rest.
abbrev pub fits : Text → Option Text → Bool
fits k none = not (k == codes "W")
fits k (some bytes) = k == codes "W"

unfoldable pub validate_item : Item → Result CheckedItem
validate_item i =
    if is_kind i.kind
    then (split_relative i.path >>= λ parts.
        if fits i.kind i.payload
        then ok (record { kind = i.kind; path = i.path; parts = parts; payload = i.payload })
        else invalid)
    else invalid

unfoldable pub validate_items : List Item → Result (List CheckedItem)
validate_items [] = ok []
validate_items (i ∷ is) = do c ← validate_item i; cs ← validate_items is; ok (c ∷ cs)

-- `_validate_plan`
unfoldable pub validate_plan : List Item → Result (List CheckedItem)
validate_plan plan = if ltb 10000 (length plan) then invalid else validate_items plan
