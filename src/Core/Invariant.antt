-- ===== src/Core/Invariant.antt =====
-- The well-formedness of a `DeepFreezer` instance on its disk: what memory says is what the journal
-- would rebuild, and every operation has its content.
pub mod Step
pub mod Writing
pub mod Marking
pub mod Recovery
use userfreezer.Prelude.{
  ℕ, suc, ◌+◌, ◌≤◌, ◌<◌, ◌≡◌, Bool, true, false, Option, some, List, [], ◌∷◌, All, all_of, arith,
}
use userfreezer.Prelude.Text.{Text}
use userfreezer.Prelude.Dict.{Dict, lookup, NodupKeys}
use userfreezer.Core.Types.{written, Op, Ops}
use userfreezer.Core.Outcome.{ok}
use userfreezer.Core.RelPath.Safety.{IsSafe}
use userfreezer.Core.PayloadId.{payload_id}
use userfreezer.Core.Overlay.{Line, blank, broken, entry, clean, Overlay}
use userfreezer.Core.Journal.Replay.{IsWhole}
use userfreezer.Core.Journal.{Loaded, replay, start, has_content}
use userfreezer.Core.Classify.Newest.{SeqBelow}
use userfreezer.Core.Classify.Elsewhere.{HasKeys}
use userfreezer.Core.Instance.{DeepFreezer, directory, require_frozen}

-- The operations are allowed: `_require_frozen` lets them pass.
pub record IsReady (s : DeepFreezer) : Type 0 where
  pub frozen : s.frozen ≡ true
  pub locked : s.locked ≡ true
  pub kept : s.discarding ≡ false

-- An ID that `write` made while the sequence was at most `n`.
abbrev pub IdBelow : ℕ → Text → Type 0
IdBelow n id = (k : ℕ) × (k ≤ n) × (id ≡ payload_id k)

-- The state that a loader of this overlay has after its loop.
abbrev pub as_loaded : DeepFreezer → Dict Text → Loaded
as_loaded s ids = record { ops = s.ops; write_payloads = ids; best_seq = s.seq }

-- `ids` are the payload IDs that the journal gives. Memory may hold more: `mkdirs` and `remove` do
-- not drop the ID of an earlier write.
pub record IsWell (s : DeepFreezer) (o : Overlay) (ids : Dict Text) : Type 0 where
  pub on_disk : s.disk.overlay ≡ directory o
  pub unmarked : s.disk.discard_marker ≡ false
  pub same_manifest : o.manifest ≡ s.manifest
  pub seqs : SeqBelow s.seq s.ops
  pub keys : HasKeys s.ops
  pub nodup : NodupKeys s.ops
  pub ids_below : (k id : Text) → lookup k s.write_payloads ≡ some id → IdBelow s.seq id
  pub ids_same :
      (k : Text) (op : Op)
      → lookup k s.ops ≡ some op
      → op.kind ≡ written
      → lookup k ids ≡ lookup k s.write_payloads
  pub ended : o.journal.tail ≡ clean
  pub whole : All IsWhole o.journal.lines
  pub replayed : replay o.journal.lines clean start ≡ ok (as_loaded s ids)
  pub contents : all_of (has_content o ids) s.ops ≡ true

pub require_frozen-ready : (s : DeepFreezer) → IsReady s → require_frozen s ≡ ok tt
unfolding require_frozen
require_frozen-ready s h = ground arith

-- Well-formed on some overlay.
abbrev pub Well : DeepFreezer → Type 0
Well s = (o : Overlay) × (ids : Dict Text) × IsWell s o ids
