-- ===== src/Core/Lifecycle/Reopen.antt =====
-- From `freeze` through a session to the next instance.
use userfreezer.Prelude.{◌≡◌, refl, Bool, true, false, Option, none, some, List, []}
use userfreezer.Prelude.Text.{Text}
use userfreezer.Prelude.Dict.{Dict, lookup}
use userfreezer.Core.Types.{Kind, Op, written, made, deleted, unknown}
use userfreezer.Core.Overlay.{Overlay, Manifest}
use userfreezer.Core.Journal.{replay}
use userfreezer.Core.Instance.{nothing, DeepFreezer}
use userfreezer.Core.Invariant.{IsWell}
use userfreezer.Core.Lifecycle.{WalkRow, walk, frozen_state, frozen_overlay, empty_overlay}

-- The manifest that `freeze` writes.
abbrev pub manifest_of : List WalkRow → Text → Text → Bool → Manifest
manifest_of rows root now verify = record {
  v = 1;
  root = root;
  frozen_at = now;
  entries = (walk verify rows (record { entries = []; hashes = [] })).entries;
  hashes = (walk verify rows (record { entries = []; hashes = [] })).hashes;
}

module _ (rows : List WalkRow) (root now : Text) (s : DeepFreezer) (thawed : s.frozen ≡ false)
    (locked : s.locked ≡ true) (kept : s.discarding ≡ false)
    (none_yet : s.disk.overlay ≡ nothing) where
  abbrev man : Manifest
  man = manifest_of rows root now s.verify_hashes

  pub frozen-IsWell :
      s.disk.discard_marker ≡ false
      → IsWell (frozen_state man empty_overlay s) (frozen_overlay man empty_overlay) []
  unfolding replay lookup
  frozen-IsWell unmarked = record {
    on_disk = refl;
    unmarked = unmarked;
    same_manifest = refl;
    seqs = tt;
    keys = tt;
    nodup = tt;
    ids_below = λ k id e. cc;
    ids_same = λ k op e t. refl;
    ended = refl;
    whole = tt;
    replayed = refl;
    contents = refl;
  }

-- The payload IDs of a path are the same if its operation is a write.
abbrev pub SameFor : Kind → Option Text → Option Text → Type 0
SameFor written x y = x ≡ y
SameFor made x y = Unit
SameFor deleted x y = Unit
SameFor (unknown k) x y = Unit

abbrev pub SameId : Option Op → Option Text → Option Text → Type 0
SameId none x y = Unit
SameId (some op) x y = SameFor op.kind x y
