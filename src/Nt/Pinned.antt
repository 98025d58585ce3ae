-- ===== src/Nt/Pinned.antt =====
-- nt_overlay_journal_experimental.py: `_parse_pinned_metadata`, which compares the state of the core
-- with the manifest and the journal that were read through handles. `json.loads` of the decoded bytes is
-- a parameter, with `none` for a ValueError or a UnicodeError.
pub mod Loop
pub mod Strict
pub mod Planned
pub mod Agreed
pub mod Stale
use userfreezer.Prelude.{
  ℕ, Bool, true, false, not, ◌&&◌, ◌||◌, Option, none, some, List, [], ◌∷◌, ◌++◌, if◌then◌else◌,
  ltb, leb, nat_eq, length, all_of,
}
use userfreezer.Prelude.Text.{Text, codes, ◌==◌, split, slash}
use userfreezer.Prelude.Dict.{Dict, lookup, insert, erase}
use userfreezer.Prelude.Json.{
  Json, num, str, obj, Fields, mem_field, get_field, only_fields, is_unique,
}
use userfreezer.Core.Types.{Kind, written, made, deleted, unknown, Op, Ops}
use userfreezer.Core.Outcome.{Result, ok, err, key_error, ◌>>=◌}
use userfreezer.Core.PayloadId.{valid_id}
use userfreezer.Core.Journal.{Loaded, start}
use userfreezer.Core.Commit.{by_seq}
use userfreezer.Plan.{invalid, Item, validate_plan}
use userfreezer.Nt.Bridge.{Entry}
use userfreezer.Nt.Root.{canonical_root}

-- `bytes.splitlines`, of which a carriage return before a line feed is one end. The flag says that
-- the last character was a carriage return.
unfoldable pub lines_from : Bool → Text → Text → List Text
lines_from returned [] [] = []
lines_from returned (x ∷ line) [] = (x ∷ line) ∷ []
lines_from returned line (c ∷ s) =
    let same = lines_from false (line ++ (c ∷ [])) s in
    let swallowed = lines_from false line s in
    let cut = lines_from false [] s in
    let cut_return = lines_from true [] s in
    if nat_eq c 13
    then line ∷ cut_return
    else if nat_eq c 10
    then (if returned then swallowed else line ∷ cut)
    else same

unfoldable pub splitlines : Text → List Text
unfolding lines_from
splitlines s = lines_from false [] s

-- `raw.endswith(b"\n")` of bytes that are not empty
unfoldable pub ends_line : Text → Bool
ends_line [] = true
ends_line (c ∷ []) = nat_eq c 10
ends_line (c ∷ (d ∷ s)) = ends_line (d ∷ s)

abbrev pub as_nat : Option Json → Result ℕ
as_nat (some (num n)) = ok n
as_nat _ = invalid

abbrev pub as_text : Option Json → Result Text
as_text (some (str s)) = ok s
as_text _ = invalid

-- `item.get("d", 0)`
abbrev pub as_flag : Option Json → Result ℕ
as_flag none = ok 0
as_flag (some (num n)) = if leb n 1 then ok n else invalid
as_flag _ = invalid

abbrev pub kind_of : Text → Kind
kind_of k =
    if k == codes "W"
    then written
    else if k == codes "M"
    then made
    else if k == codes "D"
    then deleted
    else unknown k

abbrev pub known : Kind → Result Kind
known (unknown k) = invalid
known k = ok k

abbrev pub as_kind : Option Json → Result Kind
as_kind (some (str k)) = known (kind_of k)
as_kind _ = invalid

abbrev pub kind_name : Kind → Text
kind_name written = codes "W"
kind_name made = codes "M"
kind_name deleted = codes "D"
kind_name (unknown k) = k

-- The plan of one item that checks a path.
abbrev pub probe : Kind → Text → Item
probe written rel = record { kind = codes "W"; path = rel; payload = some [] }
probe kind rel = record { kind = kind_name kind; path = rel; payload = none }

-- The keys that a record must have, and may have.
abbrev pub is_known : Text → Bool
is_known k =
    k == codes "seq" || k == codes "op" || k == codes "p" || k == codes "d" || k == codes "src"

abbrev pub has_keys : Fields → Bool
has_keys fs =
    mem_field (codes "seq") fs
    && mem_field (codes "op") fs
    && mem_field (codes "p") fs
    && only_fields is_known fs

abbrev pub require : Bool → Result (Unit {0})
require true = ok tt
require false = invalid

-- The effect of "src" on `computed_ids`.
unfoldable pub take_source : Kind → Text → ℕ → Option Json → Dict Text → Result (Dict Text)
take_source written rel d (some (str src)) ids =
    if nat_eq d 0 && valid_id src then ok (insert rel src ids) else invalid
take_source made rel d none ids = if nat_eq d 1 then ok (erase rel ids) else invalid
take_source deleted rel d none ids = ok (erase rel ids)
take_source kind rel d src ids = invalid

-- The loop's body. `ops`, `write_payloads` and `best_seq` are `computed_ops`, `computed_ids` and
-- `last_seq`.
unfoldable pub take_fields : Fields → Loaded → Result Loaded
take_fields fs m = do
  all ← require (has_keys fs)
  seq ← as_nat (get_field (codes "seq") fs)
  later ← require (ltb m.best_seq seq)
  d ← as_flag (get_field (codes "d") fs)
  rel ← as_text (get_field (codes "p") fs)
  kind ← as_kind (get_field (codes "op") fs)
  checked ← validate_plan (probe kind rel ∷ [])
  ids ← take_source kind rel d (get_field (codes "src") fs) m.write_payloads
  let op : Op = record { seq = seq; kind = kind; d = d }
  ok (record { ops = insert rel op m.ops; write_payloads = ids; best_seq = seq })

abbrev pub take_value : Option Json → Loaded → Result Loaded
take_value (some (obj fs)) m = if is_unique (obj fs) then take_fields fs m else invalid
take_value _ m = invalid

-- Every entry of one dictionary stands in the other with the same value.
unfoldable pub included {ℓ} : {V : Type ℓ} → (V → V → Bool) → Dict V → Dict V → Bool
included same a b = all_of (λ e. elim (lookup e.0 b) [ none ↦ false | some w ↦ same e.1 w ]) a

-- `dict.__eq__`: the same keys with the same values, in whatever order.
abbrev pub same_dict {ℓ} : {V : Type ℓ} → (V → V → Bool) → Dict V → Dict V → Bool
same_dict same a b = included same a b && included same b a

abbrev pub same_op : Op → Op → Bool
same_op a b = nat_eq a.seq b.seq && kind_name a.kind == kind_name b.kind && nat_eq a.d b.d

abbrev pub source_of : Dict Text → Text → Kind → Result (Option Text)
source_of ids rel written = elim (lookup rel ids) [
  | none ↦ err key_error
  | some id ↦ ok (some (codes "payloads/" ++ id))
]
source_of ids rel _ = ok none

-- The list that is returned.
unfoldable pub entries_of : Dict Text → Ops → Result (List Entry)
entries_of ids [] = ok []
entries_of ids ((rel, op) ∷ ops) = do
  source ← source_of ids rel op.kind
  rest ← entries_of ids ops
  let e : Entry = record {
    parts = split slash rel;
    kind = kind_name op.kind;
    is_dir = op.d;
    source = source;
  }
  ok (e ∷ rest)

abbrev pub is_obj : Json → Bool
is_obj (obj fs) = true
is_obj _ = false

-- `isinstance(manifest.get("entries"), dict)`
abbrev pub is_table : Option Json → Bool
is_table none = false
is_table (some j) = is_obj j

-- The loop.
unfoldable pub take_lines : (Text → Option Json) → List Text → Loaded → Result Loaded
take_lines loads [] m = ok m
take_lines loads (raw ∷ raws) m = take_value (loads raw) m >>= take_lines loads raws

module _ (loads : Text → Option Json) (normcase : Text → Text) where
  abbrev pub owned_by : Text → Option Json → Result (Unit {0})
  owned_by canonical (some (obj fs)) = do
    unique ← require (is_unique (obj fs))
    v ← as_nat (get_field (codes "v") fs)
    one ← require (nat_eq v 1)
    root ← as_text (get_field (codes "root") fs)
    own ← canonical_root normcase root
    require (own == canonical && is_table (get_field (codes "entries") fs))
  owned_by canonical _ = invalid

  unfoldable pub computed : Text → Text → Text → Result Loaded
  computed manifest journal root = do
    canonical ← canonical_root normcase root
    owned ← owned_by canonical (loads manifest)
    whole ← require (ends_line journal)
    let raws = splitlines journal
    short ← require (leb (length raws) 10000)
    take_lines loads raws start

  unfoldable pub parse_pinned_metadata :
      Text → Text → Text → Ops → Dict Text → ℕ → Result (List Entry)
  parse_pinned_metadata manifest journal root expected_ops expected_ids expected_seq = do
    m ← computed manifest journal root
    same ← require (
        nat_eq m.best_seq expected_seq
        && same_dict same_op m.ops expected_ops
        && same_dict ◌==◌ m.write_payloads expected_ids)
    entries_of m.write_payloads (by_seq m.ops)
