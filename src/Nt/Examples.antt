-- ===== src/Nt/Examples.antt =====
-- A journal of one write, its plan, and an instance that has removed what it wrote.
use userfreezer.Prelude.{
  ℕ, ◌*◌, ◌≤◌, ◌≡◌, refl, true, false, Option, none, some, List, [], ◌∷◌, if◌then◌else◌, map, arith,
  All, Bool, inr, leb, ◌&&◌,
}
use userfreezer.Prelude.Text.{Text, codes, ◌==◌, split, join, starts_with, contains}
use userfreezer.Prelude.Dict.{Dict, lookup, insert}
use userfreezer.Prelude.Json.{
  Json, num, str, obj, field, end, mem_field, get_field, only_fields, is_unique,
}
use userfreezer.Core.Types.{written, Op, Ops}
use userfreezer.Core.Outcome.{Result, ok, err, value_error}
use userfreezer.Core.PayloadId.{valid_id, is_decimal}
use userfreezer.Core.Overlay.{Overlay, clean}
use userfreezer.Core.Journal.{Loaded}
use userfreezer.Core.Commit.{insert_op, by_seq}
use userfreezer.Plan.{
  Item, validate_component, validate_all, split_relative, validate_item, validate_items,
  validate_plan, ends_badly, device_name, is_device,
}
use userfreezer.Nt.Root.{canonical_root, root_tail, normal_tail}
use userfreezer.Nt.Bridge.{
  Entry, Meta, native_kind, read_entry, read_entries, preflight, load_one, load_all,
  prepare_native_plan, mebi,
}
use userfreezer.Nt.Bridge.Bounds.{Follows, plan_bytes, IsSmall, prepare_native_plan-bounds}
use userfreezer.Nt.Bridge.Total.{prepare_native_plan-total}
use userfreezer.Nt.Pinned.{
  splitlines, lines_from, ends_line, take_source, take_fields, take_lines, included, entries_of,
  computed, parse_pinned_metadata,
}
use userfreezer.Nt.Pinned.Loop.{line_of}
use userfreezer.Nt.Pinned.Stale.{is_write, parse_pinned_metadata-owned}
use userfreezer.Core.Lifecycle.{empty_overlay}
use userfreezer.Core.Instance.{DeepFreezer, directory}
use userfreezer.Core.Api.{Target}

abbrev record_json : Json
record_json = obj (
    field (codes "seq") (num 1) (
      field (codes "op") (str (codes "W")) (
        field (codes "p") (str (codes "a/b"))
          (field (codes "d") (num 0) (field (codes "src") (str (codes "7")) end)))))

abbrev manifest_json : Json
manifest_json = obj (
    field (codes "v") (num 1)
      (field (codes "root") (str (codes "C:\\data")) (field (codes "entries") (obj end) end)))

-- A reader that knows two texts.
abbrev loads : Text → Option Json
loads raw =
    if raw == codes "M"
    then some manifest_json
    else if raw == codes "R"
    then some record_json
    else none

abbrev same_case : Text → Text
same_case t = t

abbrev one_op : Op
one_op = record { seq = 1; kind = written; d = 0 }

abbrev ops : Ops
ops = (codes "a/b", one_op) ∷ []

abbrev ids : Dict Text
ids = (codes "a/b", codes "7") ∷ []

abbrev loaded : Loaded
loaded = record { ops = ops; write_payloads = ids; best_seq = 1 }

abbrev one_entry : Entry
one_entry = record {
  parts = codes "a" ∷ (codes "b" ∷ []);
  kind = codes "W";
  is_dir = 0;
  source = some (codes "payloads/7");
}

accepted :
    parse_pinned_metadata loads same_case (codes "M") (codes "R\n") (codes "C:\\data") ops ids 1
    ≡ ok (one_entry ∷ [])
unfolding parse_pinned_metadata computed canonical_root root_tail normal_tail splitlines lines_from
    ends_line included entries_of insert_op by_seq lookup insert take_lines take_fields take_source
    mem_field get_field only_fields is_unique valid_id is_decimal validate_plan validate_items
    validate_item split_relative validate_all validate_component ends_badly device_name is_device
    ◌==◌ split join starts_with contains
accepted = refl

abbrev pinned_overlay : Overlay
pinned_overlay = record empty_overlay {
  journal = record { lines = map (λ raw. line_of (loads raw)) (codes "R" ∷ []); tail = clean };
  payloads = (codes "7", []) ∷ [];
}

id_kept : lookup (codes "a/b") ids ≡ some (codes "7")
unfolding lookup ◌==◌
id_kept = refl

parse_pinned_metadata-owned_example : is_write (lookup (codes "a/b") ops) ≡ true
parse_pinned_metadata-owned_example =
    parse_pinned_metadata-owned loads same_case (codes "M") (codes "R\n") (codes "C:\\data") ops ids
      1 (one_entry ∷ []) (codes "a/b") (codes "7") accepted id_kept

-- A reader that gives an empty payload for every source.
abbrev no_bytes : Option Text → ℕ → Result Text
no_bytes source limit = ok []

abbrev one_item : Item
one_item = record { kind = codes "W"; path = codes "a/b"; payload = some [] }

prepared : prepare_native_plan no_bytes 10 20 (one_entry ∷ []) ≡ ok (one_item ∷ [])
unfolding prepare_native_plan load_all load_one preflight read_entries read_entry native_kind
    validate_plan validate_items validate_item split_relative validate_all validate_component
    ends_badly device_name is_device ◌==◌ split join starts_with
prepared = refl

prepare_native_plan-bounds_example :
    Follows no_bytes 10 20 (one_entry ∷ []) (one_item ∷ [])
    × All (IsSmall no_bytes 10 20) (one_item ∷ [])
    × (plan_bytes (one_item ∷ []) ≤ 20)
    × (20 ≤ 64 * mebi)
prepare_native_plan-bounds_example =
    prepare_native_plan-bounds no_bytes 10 20 (one_entry ∷ []) (one_item ∷ []) prepared

abbrev one_meta : Meta
one_meta = record { kind = codes "W"; path = codes "a/b"; source = some (codes "payloads/7") }

checked : preflight (one_entry ∷ []) ≡ ok (one_meta ∷ [])
unfolding preflight read_entries read_entry native_kind validate_plan validate_items validate_item
    split_relative validate_all validate_component ends_badly device_name is_device ◌==◌ split join
    starts_with
checked = refl

-- A reader that refuses limits out of range, and knows empty payloads only
abbrev bounded : Option Text → ℕ → Result Text
bounded none limit = err value_error
bounded (some source) limit =
    if leb 1 limit && leb limit (16 * mebi) then ok [] else err value_error

abbrev is_source : Option Text → Bool
is_source none = false
is_source (some source) = true

abbrev no_content : Option Text → Text
no_content source = []

bounded-obeys :
    (source : Option Text) (limit : ℕ)
    → is_source source ≡ true
    → 1 ≤ limit
    → limit ≤ 16 * mebi
    → 0 ≤ limit
    → bounded source limit ≡ ok []
bounded-obeys none limit s a b c = cc
bounded-obeys (some source) limit s a b c = ground (arith, a, b)

prepare_native_plan-total_example :
    (plan : List Item) × (prepare_native_plan bounded 10 20 (one_entry ∷ []) ≡ ok plan)
unfolding ◌==◌
prepare_native_plan-total_example =
    prepare_native_plan-total bounded 10 20 is_source no_content bounded-obeys (one_entry ∷ [])
      (one_meta ∷ []) refl checked (inr (refl, omega arith), tt) (omega arith)

abbrev a : Text
a = codes "a"

-- A frozen instance that keeps a payload ID for `a`.
abbrev writer : DeepFreezer
writer = record {
  locked = true;
  verify_hashes = false;
  frozen = true;
  manifest = none;
  ops = (a, one_op) ∷ [];
  write_payloads = (a, codes "1") ∷ [];
  seq = 1;
  discarding = false;
  disk = record { overlay = directory empty_overlay; discard_marker = false };
}

abbrev some_target : Target
some_target = record {
  is_file = λ parts. false;
  is_dir = λ parts. true;
  exists = λ parts. true;
  contents = λ parts. [];
  stat_size = λ parts. none;
  scan = λ parts. [];
  sha256 = λ parts. [];
}
