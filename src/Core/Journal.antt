-- ===== src/Core/Journal.antt =====
-- deepfreezer.py: `_load_journal`, which rebuilds the operations of an overlay from its journal.
pub mod Replay
use Prim.Native.Nat.{max}
use userfreezer.Prelude.{
  ℕ, Bool, true, false, ◌&&◌, Option, none, some, List, [], ◌∷◌, ◌++◌, leb, if◌then◌else◌, keep_if,
}
use userfreezer.Prelude.Text.{Text, ◌==◌}
use userfreezer.Prelude.Dict.{Dict, lookup, insert, erase, has_key}
use userfreezer.Core.Types.{Kind, written, made, deleted, unknown, Op, Ops}
use userfreezer.Core.Outcome.{Result, ok, err, ◌>>=◌, deep_freeze, key_error}
use userfreezer.Core.Overlay.{
  Source, ident, no_text, Rec, Line, blank, broken, entry, Tail, clean, torn, unended, Overlay, mem,
}
use userfreezer.Core.PayloadId.{valid_id}

-- `self.ops`, `self._write_payloads` and `best_seq` during the loop.
pub record Loaded : Type 0 where
  pub ops : Ops
  pub write_payloads : Dict Text
  pub best_seq : ℕ

abbrev pub or_zero : Option ℕ → ℕ
or_zero none = 0
or_zero (some n) = n

-- `rec[...]`, which raises KeyError
abbrev pub item {ℓ} : {A : Type ℓ} → Option A → Result A
item none = err key_error
item (some a) = ok a

abbrev pub invalid_id : Result (Dict Text)
invalid_id = err (deep_freeze "ID de payload invalido no journal")

unfoldable pub source : Text → Kind → Source → Dict Text → Result (Dict Text)
source key written (ident src) ids = if valid_id src then ok (insert key src ids) else invalid_id
source key written no_text ids = invalid_id
source key _ _ ids = ok (erase key ids)

-- A record for a path that is not older than the one held.
unfoldable pub replace_op : Text → Rec → Loaded → Result Loaded
replace_op key rec m = do
  kind ← item rec.op
  seq ← item rec.seq
  let op : Op = record { seq = seq; kind = kind; d = or_zero rec.d }
  ids ← source key kind rec.src m.write_payloads
  ok (record m { ops = insert key op m.ops; write_payloads = ids })

abbrev pub is_current : Rec → Option Op → Bool
is_current rec none = true
is_current rec (some cur) = leb cur.seq (or_zero rec.seq)

abbrev pub replay_path : Option Text → Rec → Loaded → Result Loaded
replay_path none rec m = ok m
replay_path (some key) rec m =
    if key == []
    then ok m
    else if is_current rec (lookup key m.ops)
    then replace_op key rec m
    else ok m

unfoldable pub replay_rec : Rec → Loaded → Result Loaded
replay_rec rec m = replay_path rec.p rec (record m { best_seq = max m.best_seq (or_zero rec.seq) })

-- The loop over the lines, which ends at the first one that is no JSON; a rest without line end is
-- read as a line.
unfoldable pub replay : List Line → Tail → Loaded → Result Loaded
replay [] clean m = ok m
replay [] torn m = ok m
replay [] (unended rec) m = replay_rec rec m
replay (blank ∷ lines) tail m = replay lines tail m
replay (broken ∷ lines) tail m = ok m
replay (entry rec ∷ lines) tail m = replay_rec rec m >>= replay lines tail

abbrev pub start : Loaded
start = record { ops = []; write_payloads = []; best_seq = 0 }

-- `os.path.isfile` of the payload or marker of an operation.
abbrev pub payload_kept : Overlay → Text → Option Text → Bool
payload_kept o rel none = has_key rel o.files
payload_kept o rel (some id) = has_key id o.payloads

unfoldable pub has_content : Overlay → Dict Text → Text × Op → Bool
has_content o ids (rel, op) = elim op.kind [
  | written ↦ payload_kept o rel (lookup rel ids)
  | made ↦ mem rel o.md
  | deleted ↦ mem rel o.del
  | unknown k ↦ false
]

unfoldable pub known_kinds : Ops → Bool
known_kinds [] = true
known_kinds ((rel, op) ∷ ops) =
    elim op.kind [ unknown k ↦ false | written ↦ true | made ↦ true | deleted ↦ true ]
    && known_kinds ops

-- `for rel in dead: self._write_payloads.pop(rel, None)`
unfoldable pub drop_dead : Overlay → Dict Text → Ops → Dict Text → Dict Text
drop_dead o ids [] kept = kept
drop_dead o ids (e ∷ ops) kept =
    drop_dead o ids ops (if has_content o ids e then kept else erase e.0 kept)

-- The validation after the loop: records without content are dropped.
unfoldable pub keep_alive : Overlay → Loaded → Result Loaded
keep_alive o m =
    if known_kinds m.ops
    then ok (record m {
      ops = keep_if (has_content o m.write_payloads) m.ops;
      write_payloads = drop_dead o m.write_payloads m.ops m.write_payloads;
    })
    else err (deep_freeze "operacao invalida no journal")

unfoldable pub load_journal : Overlay → Result Loaded
load_journal o = replay o.journal.lines o.journal.tail start >>= keep_alive o
