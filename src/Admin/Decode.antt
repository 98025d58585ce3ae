-- ===== src/Admin/Decode.antt =====
-- admin_ipc.py: `decode_message` and `load_targets` on POSIX. `json.loads` of the decoded bytes is a
-- parameter, with `none` for an error, and so is whether a number that is no natural equals 1.
use mathlib.Core.List.{reverse}
use userfreezer.Prelude.{
  ℕ, suc, Bool, true, false, not, ◌&&◌, ◌||◌, Option, none, some, List, [], ◌∷◌, ◌++◌,
  if◌then◌else◌, ltb, leb, nat_eq, length, all_of, foldl,
}
use userfreezer.Prelude.Text.{Text, codes, ◌==◌, split, join, starts_with, strip, slash, is_digit}
use userfreezer.Prelude.Dict.{Dict, has_key}
use userfreezer.Prelude.Json.{
  Json, bool, num, other_num, str, arr, obj, Items, nil, item, Fields, get_field, only_fields,
  is_unique, truthy,
}
use userfreezer.Core.Outcome.{Result, ok, err, protocol_error, ◌>>=◌}
use userfreezer.Nt.Root.{resolve}
use userfreezer.Admin.Wire.{max_bytes}
use userfreezer.Admin.Broker.{Action, prepare, freeze_now, discard, commit}

pub data UwfAction : Type 0 where
  uwf_status uwf_prepare uwf_stage : UwfAction

-- A member of ACTIONS.
pub data Command : Type 0 where
  status : Command
  core : Action → Command
  filter : UwfAction → Command

pub record Message : Type 0 where
  pub id : Text
  pub command : Command
  pub target : Option Json
  pub confirm : Option Json
  pub operation : Option Json

abbrev pub refused : {A : Type 0} → Result A
refused = err protocol_error

abbrev pub require : Bool → Result (Unit {0})
require true = ok tt
require false = refused

abbrev pub command_of : Text → Result Command
command_of a =
    if a == codes "status"
    then ok status
    else if a == codes "prepare"
    then ok (core prepare)
    else if a == codes "freeze"
    then ok (core freeze_now)
    else if a == codes "discard"
    then ok (core discard)
    else if a == codes "commit"
    then ok (core commit)
    else if a == codes "uwf-status"
    then ok (filter uwf_status)
    else if a == codes "uwf-prepare"
    then ok (filter uwf_prepare)
    else if a == codes "uwf-stage"
    then ok (filter uwf_stage)
    else refused

abbrev pub as_command : Option Json → Result Command
as_command (some (str a)) = command_of a
as_command _ = refused

-- `str(uuid.UUID(text)) == text`: 8, 4, 4, 4 and 12 small hexadecimal digits.
abbrev pub is_hex : ℕ → Bool
is_hex c = is_digit c || (leb 97 c && leb c 102)

unfoldable pub has_shape : List ℕ → List Text → Bool
has_shape [] [] = true
has_shape (n ∷ ns) (g ∷ gs) = nat_eq (length g) n && all_of is_hex g && has_shape ns gs
has_shape _ _ = false

abbrev pub is_uuid : Text → Bool
is_uuid s = has_shape (8 ∷ (4 ∷ (4 ∷ (4 ∷ (12 ∷ []))))) (split b'-' s)

abbrev pub as_id : Option Json → Result Text
as_id (some (str s)) = if is_uuid s then ok s else refused
as_id _ = refused

abbrev pub is_allowed : Text → Bool
is_allowed k =
    k == codes "v"
    || k == codes "id"
    || k == codes "action"
    || k == codes "target"
    || k == codes "confirm"
    || k == codes "operation"

module _ (equals_one : Text → Bool) where
  -- `obj.get("v") == 1`, which holds of `true` too.
  abbrev pub is_version : Option Json → Bool
  is_version (some (num n)) = nat_eq n 1
  is_version (some (bool b)) = b
  is_version (some (other_num t)) = equals_one t
  is_version _ = false

  unfoldable pub decode_fields : Fields → Result Message
  decode_fields fs = do
    version ← require (is_version (get_field (codes "v") fs))
    keys ← require (only_fields is_allowed fs)
    id ← as_id (get_field (codes "id") fs)
    command ← as_command (get_field (codes "action") fs)
    ok (record {
      id = id;
      command = command;
      target = get_field (codes "target") fs;
      confirm = get_field (codes "confirm") fs;
      operation = get_field (codes "operation") fs;
    })

  abbrev pub decode_value : Option Json → Result Message
  decode_value (some (obj fs)) = if is_unique (obj fs) then decode_fields fs else refused
  decode_value _ = refused

  unfoldable pub decode_message : (Text → Option Json) → Text → Result Message
  decode_message loads raw =
      if ltb max_bytes (length raw) then refused else decode_value (loads raw)

-- `os.path.normpath` of an absolute path: two slashes at the start are kept, other numbers are one.
abbrev pub root_of : Text → Text
root_of raw =
    if starts_with raw (codes "//") && not (starts_with raw (codes "///"))
    then codes "//"
    else codes "/"

unfoldable pub normal_path : Text → Text
normal_path raw = root_of raw ++ join slash (reverse (foldl resolve [] (split slash raw)))

pub record Configured : Type 0 where
  pub overlay : Option Json
  pub verify : Bool

module _ (nonzero : Text → Bool) where
  abbrev pub verify_of : Option Json → Bool
  verify_of none = false
  verify_of (some j) = truthy nonzero j

  -- One turn of the loop of `load_targets`.
  abbrev pub add_target : Option Json → Fields → Dict Configured → Result (Dict Configured)
  add_target (some (str raw)) fs targets =
      if strip raw == [] || not (starts_with raw (slash ∷ []))
      then refused
      else if has_key (normal_path raw) targets
      then refused
      else ok (
          targets
          ++ ((
            normal_path raw,
            record {
              overlay = get_field (codes "overlay") fs;
              verify = verify_of (get_field (codes "verify") fs);
            },
          )
              ∷ []))
  add_target _ fs targets = refused

  unfoldable pub add_targets : Items → Dict Configured → Result (Dict Configured)
  add_targets nil targets = ok targets
  add_targets (item (obj fs) more) targets =
      add_target (get_field (codes "target") fs) fs targets >>= add_targets more
  add_targets (item _ more) targets = refused

  unfoldable pub count_items : Items → ℕ
  count_items nil = 0
  count_items (item j more) = suc (count_items more)

  abbrev pub listed : Option Json → Result (Dict Configured)
  listed (some (arr js)) =
      if leb 1 (count_items js) && leb (count_items js) 256 then add_targets js [] else refused
  listed _ = refused

  -- `load_targets` of the decoded configuration
  abbrev pub targets_of : Option Json → Result (Dict Configured)
  targets_of (some (obj fs)) =
      if is_unique (obj fs) then listed (get_field (codes "targets") fs) else refused
  targets_of (some j) = refused
  targets_of none = refused
