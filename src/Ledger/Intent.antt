-- ===== src/Ledger/Intent.antt =====
-- nt_commit_checkpoint_experimental.py: `_describe_plan`, `_intent_record` and `_parse_intent`. Objects are
-- written with sorted keys, as `_json` writes them. `json.dumps`, `json.loads` with distinct keys and an error
-- as `none`, the hexadecimal SHA-256 and `ntpath.normcase` are parameters.
pub mod RoundTrip
mod Examples
use userfreezer.Prelude.{
  ℕ, suc, Bool, true, false, not, ◌&&◌, ◌||◌, Option, none, some, List, [], ◌∷◌, ◌++◌, map, all_of,
  if◌then◌else◌, leb, ltb, nat_eq, length,
}
use userfreezer.Prelude.Text.{Text, codes, ◌==◌, is_digit}
use userfreezer.Prelude.Json.{
  Json, null, num, str, arr, obj, Items, nil, item, Fields, field, end, mem_field, get_field,
  only_fields,
}
use userfreezer.Core.Outcome.{Result, ok, err, value_error, ◌>>=◌}
use userfreezer.Plan.{invalid, Item, CheckedItem, validate_plan, is_kind}
use userfreezer.Nt.Bridge.{blank_payload}
use userfreezer.Nt.Pinned.{as_text, as_nat, require, ends_line}
use userfreezer.Nt.Root.{canonical_root}
use userfreezer.Nt.Identity.{checked_identity, numbers, as_numbers}
use userfreezer.Ledger.Inspect.{Intent}

abbrev pub max_steps : ℕ
max_steps = 256

abbrev pub max_intent_bytes : ℕ
max_intent_bytes = 524288

abbrev pub as_items : Option Json → Result Items
as_items (some (arr js)) = ok js
as_items _ = invalid

unfoldable pub count_items : Items → ℕ
count_items nil = 0
count_items (item j js) = suc (count_items js)

-- `unsigned.pop("digest")`
unfoldable pub drop_field : Text → Fields → Fields
drop_field k end = end
drop_field k (field j v fs) = let rest = drop_field k fs in if j == k then rest else field j v rest

abbrev pub is_field : Text → Bool
is_field k =
    k == codes "v"
    || k == codes "root"
    || k == codes "overlay"
    || k == codes "root_id"
    || k == codes "overlay_id"
    || k == codes "steps"
    || k == codes "digest"

abbrev pub has_fields : Fields → Bool
has_fields fs =
    mem_field (codes "v") fs
    && mem_field (codes "root") fs
    && mem_field (codes "overlay") fs
    && mem_field (codes "root_id") fs
    && mem_field (codes "overlay_id") fs
    && mem_field (codes "steps") fs
    && mem_field (codes "digest") fs
    && only_fields is_field fs

abbrev pub is_step_field : Text → Bool
is_step_field k = k == codes "kind" || k == codes "path" || k == codes "size" || k == codes "sha256"

abbrev pub has_step_fields : Fields → Bool
has_step_fields fs =
    mem_field (codes "kind") fs
    && mem_field (codes "path") fs
    && mem_field (codes "size") fs
    && mem_field (codes "sha256") fs
    && only_fields is_step_field fs

abbrev pub is_hex : ℕ → Bool
is_hex c = is_digit c || (leb 97 c && leb c 102)

abbrev pub is_hash : Text → Bool
is_hash s = nat_eq (length s) 64 && all_of is_hex s

-- The tests of "size" and "sha256" of a step.
abbrev pub fits_content : Text → ℕ → Option Json → Bool
fits_content kind size (some (str s)) = kind == codes "W" && is_hash s
fits_content kind size (some null) = not (kind == codes "W") && nat_eq size 0
fits_content kind size _ = false

-- One turn of the loop over the steps of a record.
unfoldable pub check_step : Json → Result (Unit {0})
check_step (obj fs) = do
  keys ← require (has_step_fields fs)
  size ← as_nat (get_field (codes "size") fs)
  kind ← as_text (get_field (codes "kind") fs)
  path ← as_text (get_field (codes "path") fs)
  checked ← validate_plan (record { kind = kind; path = path; payload = blank_payload kind } ∷ [])
  require (fits_content kind size (get_field (codes "sha256") fs))
check_step _ = invalid

unfoldable pub check_steps : Items → Result (Unit {0})
check_steps nil = ok tt
check_steps (item j js) = do good ← check_step j; check_steps js

module _ (dumps : Json → Text) (loads : Text → Option Json) (sha256 normcase : Text → Text) where
  -- `_json`
  abbrev pub json_text : Json → Text
  json_text j = dumps j ++ (10 ∷ [])

  abbrev pub size_of : Option Text → ℕ
  size_of none = 0
  size_of (some bytes) = length bytes

  abbrev pub hash_of : Option Text → Json
  hash_of none = null
  hash_of (some bytes) = str (sha256 bytes)

  abbrev pub step_of : CheckedItem → Json
  step_of c = obj (
      field (codes "kind") (str c.kind) (
        field (codes "path") (str c.path) (
          field (codes "sha256") (hash_of c.payload)
            (field (codes "size") (num (size_of c.payload)) end))))

  abbrev pub steps_of : List CheckedItem → Items
  steps_of [] = nil
  steps_of (c ∷ cs) = item (step_of c) (steps_of cs)

  -- `_describe_plan`
  unfoldable pub describe_plan : List Item → Result Items
  describe_plan plan = do
    checked ← validate_plan plan
    some_ ← require (leb 1 (length checked) && leb (length checked) max_steps)
    ok (steps_of checked)

  abbrev pub unsigned_fields : Text → Text → List ℕ → List ℕ → Items → Fields
  unsigned_fields root overlay root_id overlay_id steps = field (codes "overlay") (str overlay) (
      field (codes "overlay_id") (arr (numbers overlay_id)) (
        field (codes "root") (str root) (
          field (codes "root_id") (arr (numbers root_id))
            (field (codes "steps") (arr steps) (field (codes "v") (num 1) end)))))

  abbrev pub signed : Fields → Fields
  signed fs = field (codes "digest") (str (sha256 (json_text (obj fs)))) fs

  -- The bytes of `_intent_record`.
  unfoldable pub intent_record : Text → Text → List ℕ → List ℕ → List Item → Result Text
  intent_record root overlay root_id overlay_id plan = do
    steps ← describe_plan plan
    r ← canonical_root normcase root
    o ← canonical_root normcase overlay
    ri ← checked_identity root_id
    oi ← checked_identity overlay_id
    let data_ = json_text (obj (signed (unsigned_fields r o ri oi steps)))
    small ← require (leb (length data_) max_intent_bytes)
    ok data_

  abbrev pub parse_fields : Text → Text → Fields → Result Intent
  parse_fields bytes expected_root fs = do
    keys ← require (has_fields fs)
    v ← as_nat (get_field (codes "v") fs)
    one ← require (nat_eq v 1)
    root ← as_text (get_field (codes "root") fs)
    canonical ← canonical_root normcase expected_root
    same ← require (root == canonical)
    steps ← as_items (get_field (codes "steps") fs)
    some_ ← require (leb 1 (count_items steps) && leb (count_items steps) max_steps)
    overlay ← as_text (get_field (codes "overlay") fs)
    o ← canonical_root normcase overlay
    root_id ← as_numbers (get_field (codes "root_id") fs)
    ri ← checked_identity root_id
    overlay_id ← as_numbers (get_field (codes "overlay_id") fs)
    oi ← checked_identity overlay_id
    good ← check_steps steps
    digest ← as_text (get_field (codes "digest") fs)
    sealed ← require (
        sha256 (json_text (obj (drop_field (codes "digest") fs))) == digest
        && json_text (obj fs) == bytes)
    ok (record { total = count_items steps; digest = digest })

  abbrev pub parse_value : Text → Text → Option Json → Result Intent
  parse_value bytes expected_root (some (obj fs)) = parse_fields bytes expected_root fs
  parse_value bytes expected_root _ = invalid

  abbrev pub is_blank : Text → Bool
  is_blank bytes = bytes == []

  -- `_parse_intent`
  unfoldable pub parse_intent : Text → Text → Result Intent
  parse_intent bytes expected_root = do
    whole ← require (not (is_blank bytes) && leb (length bytes) max_intent_bytes && ends_line bytes)
    parse_value bytes expected_root (loads bytes)
