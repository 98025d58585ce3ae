-- ===== src/Core/Unjournaled.antt =====
-- deepfreezer.py: a `write` whose append to the journal raises.
use native.Mathlib.Numerals.{add-one}
use userfreezer.Prelude.{suc, ◌<◌, ◌^◌, ◌≡◌, refl, List, ◌∷◌}
use userfreezer.Prelude.Text.{Text}
use userfreezer.Prelude.Dict.{Dict}
use userfreezer.Core.Outcome.{ok, err, os_error}
use userfreezer.Core.RelPath.{norm}
use userfreezer.Core.RelPath.Safety.{norm-IsSafe}
use userfreezer.Core.Overlay.{Overlay}
use userfreezer.Core.Journal.{load_journal}
use userfreezer.Core.Instance.{
  DeepFreezer, directory, on_disk, put_payload, journal, journal_rec, unjournaled, Left, no_line,
  part_of_line, unended_line, whole_line,
}
use userfreezer.Core.Api.{write_with, write_at_with}
use userfreezer.Core.Invariant.{IsWell, IsReady, require_frozen-ready}
use userfreezer.Core.Crash.{
  Cut, after_payload, inside_line, before_line_end, finished, crashed, recovered, crash-write,
}

-- The crash that leaves the same overlay.
abbrev pub cut_of : Left → Cut
cut_of no_line = after_payload
cut_of part_of_line = inside_line
cut_of unended_line = before_line_end
cut_of whole_line = finished

module _ (s : DeepFreezer) (o : Overlay) (ids : Dict Text) (ready : IsReady s) (w : IsWell s o ids)
    (rel : Text) (p : Text) (ps : List Text) (normed : norm rel ≡ ok (p ∷ ps)) (bytes : Text) where
  abbrev left_state : Left → DeepFreezer
  left_state left = record (on_disk s (crashed s o ids p ps bytes (cut_of left))) {
    seq = suc s.seq;
  }

  unjournaled_lem :
      (left : Left) → write_with (unjournaled left) rel bytes s ≡ (err os_error, left_state left)
  unfolding write_with write_at_with put_payload journal journal_rec
  unjournaled_lem no_line = rw (require_frozen-ready s ready, normed, w.on_disk, add-one) refl
  unjournaled_lem part_of_line = rw (require_frozen-ready s ready, normed, w.on_disk, add-one) refl
  unjournaled_lem unended_line =
      rw (require_frozen-ready s ready, normed, w.on_disk, add-one, w.ended) refl
  unjournaled_lem whole_line = rw (require_frozen-ready s ready, normed, w.on_disk, add-one) refl

  -- Where the append to the journal raises, a `write` by a frozen, well-formed instance, to a path
  -- that `_norm` accepts and that is not the root, raises an OSError, and memory keeps the
  -- operations and payload IDs from before. The next loader finds the same only if
  -- the whole line has not reached the disk; if it has, with or without its end, the loader has
  -- the operations, payload IDs and sequence of the write. The new sequence is below 10^32.
  pub write-unjournaled :
      (left : Left)
      → suc s.seq < 10 ^ 32
      → let (r, t) = write_with (unjournaled left) rel bytes s in
        (r ≡ err os_error)
        × (t.ops ≡ s.ops)
        × (t.write_payloads ≡ s.write_payloads)
        × ((after : Overlay) × (t.disk.overlay ≡ directory after)
            × (load_journal after ≡ ok (recovered s o ids p ps bytes (cut_of left))))
  write-unjournaled left room = rw (unjournaled_lem left) (
    refl,
    refl,
    refl,
    (
      crashed s o ids p ps bytes (cut_of left),
      refl,
      crash-write s o ids p ps bytes w (norm-IsSafe rel (p ∷ ps) normed) room (cut_of left),
    ),
  )
