-- ===== src/Core/Crash.antt =====
-- A crash inside `write`: what the next instance finds on the disk.
use mathlib.Core.Path.{subst}
use userfreezer.Prelude.{
  suc, ◌<◌, ◌^◌, ◌≡◌, refl, sym, ap, ◌∙◌, Bool, true, false, List, [], ◌∷◌, All, arith,
  if◌then◌else◌, all_of, and-eq-true, Option-cases, inl, inr,
}
use userfreezer.Prelude.Text.{Text, join, slash}
use userfreezer.Prelude.Text.Split.{join-ne-nil}
use userfreezer.Prelude.Dict.{Dict, lookup, has_key-insert}
use userfreezer.Core.Types.{written, Op, Ops}
use userfreezer.Core.Outcome.{ok, ◌>>=◌}
use userfreezer.Core.RelPath.Safety.{IsSafe}
use userfreezer.Core.PayloadId.{payload_id, valid_id-payload_id}
use userfreezer.Core.Overlay.{Rec, ident, Overlay, Tail, clean, torn, unended}
use userfreezer.Core.Journal.{
  source, has_content, load_journal, replay, start, keep_alive, Loaded, replay_rec,
}
use userfreezer.Core.Journal.Replay.{new_rec, replay-tail, replay_rec-new}
use userfreezer.Core.Instance.{DeepFreezer, put_payload}
use userfreezer.Core.Invariant.{IsWell, as_loaded}
use userfreezer.Core.Invariant.Writing.{written_state, written_ids, written_overlay, written-IsWell}
use userfreezer.Core.Invariant.Recovery.{keep_alive_all, load-IsWell}

-- How far a `write` came: before the payload's `os.replace`, after it, with part of the journal's
-- line on disk, with the whole line but for its end, or to the end.
pub data Cut : Type 0 where
  before_payload after_payload inside_line before_line_end finished : Cut

module _ (s : DeepFreezer) (o : Overlay) (ids : Dict Text) (p : Text) (ps : List Text)
    (bytes : Text) where
  abbrev key : Text
  key = join slash (p ∷ ps)

  abbrev id : Text
  id = payload_id (suc s.seq)

  abbrev with_tail : Tail → Overlay
  with_tail tail = record (put_payload id bytes o) {
    journal = record { lines = o.journal.lines; tail = tail };
  }

  abbrev line : Rec
  line = new_rec s.seq written key 0 (ident id)

  -- The overlay that the crash leaves.
  abbrev pub crashed : Cut → Overlay
  crashed before_payload = o
  crashed after_payload = put_payload id bytes o
  crashed inside_line = with_tail torn
  crashed before_line_end = with_tail (unended line)
  crashed finished = written_overlay s o ids p ps bytes

  -- What the next instance should have: the operations before the write or after it.
  abbrev pub survives : Cut → Bool
  survives before_line_end = true
  survives finished = true
  survives _ = false

  abbrev pub recovered : Cut → Loaded
  recovered cut =
      if survives cut
      then as_loaded (written_state s o ids p ps bytes) (written_ids s o ids p ps bytes)
      else as_loaded s ids

  content-kept :
      (tail : Tail) (e : Text × Op)
      → has_content o ids e ≡ true
      → has_content (with_tail tail) ids e ≡ true
  unfolding has_content put_payload
  content-kept tail (j, op) h = elim (Option-cases (lookup j ids)) [
    | inl e ↦ ground (arith, h, e)
    | inr (i, e) ↦ ground (arith, h, e, has_key-insert id i bytes o.payloads)
  ]

  pub contents-kept :
      (tail : Tail) (ops : Ops)
      → all_of (has_content o ids) ops ≡ true
      → all_of (has_content (with_tail tail) ids) ops ≡ true
  contents-kept tail [] h = refl
  contents-kept tail (e ∷ ops) h =
      let (c, rest) = and-eq-true (has_content o ids e) _ h in
      rw (content-kept tail e c) (contents-kept tail ops rest)

  module _ (w : IsWell s o ids) where
    -- Until its line is complete the write has not taken place.
    load-unwritten :
        (tail : Tail)
        → replay [] tail (as_loaded s ids) ≡ ok (as_loaded s ids)
        → load_journal (with_tail tail) ≡ ok (as_loaded s ids)
    unfolding load_journal
    load-unwritten tail e =
        ap (λ r. r >>= keep_alive (with_tail tail))
          (replay-tail o.journal.lines tail start (as_loaded s ids) w.whole w.replayed ∙ e)
        ∙ keep_alive_all (with_tail tail) ids s.ops s.seq (contents-kept tail s.ops w.contents)

    payload_ended : with_tail clean ≡ put_payload id bytes o
    unfolding put_payload
    payload_ended = ap with_tail (sym w.ended)

    load-payload : load_journal (put_payload id bytes o) ≡ ok (as_loaded s ids)
    unfolding replay
    load-payload =
        subst (λ x. load_journal x ≡ ok (as_loaded s ids)) payload_ended (load-unwritten clean refl)

    module _ (safe : All IsSafe (p ∷ ps)) (room : suc s.seq < 10 ^ 32) where
      abbrev done : Loaded
      done = as_loaded (written_state s o ids p ps bytes) (written_ids s o ids p ps bytes)

      replay-line : replay_rec line (as_loaded s ids) ≡ ok done
      unfolding source
      replay-line =
          replay_rec-new s.seq s.ops ids (written_ids s o ids p ps bytes) written key 0 (ident id)
            w.seqs (join-ne-nil p ps safe.0.named) (rw (valid_id-payload_id (suc s.seq) room))

      done_contents :
          all_of (has_content (with_tail (unended line)) done.write_payloads) done.ops ≡ true
      unfolding has_content put_payload
      done_contents = (written-IsWell s o ids p ps bytes w safe room).contents

      load-unended : load_journal (with_tail (unended line)) ≡ ok done
      unfolding load_journal replay
      load-unended =
          ap (λ r. r >>= keep_alive (with_tail (unended line)))
            (replay-tail o.journal.lines (unended line) start (as_loaded s ids) w.whole w.replayed
              ∙ replay-line)
          ∙ keep_alive_all (with_tail (unended line)) done.write_payloads done.ops done.best_seq
              done_contents

      -- For a well-formed instance, wherever a `write` to a path of safe components is cut off,
      -- the next instance loads all of it or nothing of it: it has the operations, payload IDs and
      -- sequence from before, or those from after if the whole line had reached the disk. The new
      -- sequence is below 10^32.
      pub crash-write : (cut : Cut) → load_journal (crashed cut) ≡ ok (recovered cut)
      unfolding replay
      crash-write before_payload = load-IsWell s o ids w
      crash-write after_payload = load-payload
      crash-write inside_line = load-unwritten torn refl
      crash-write before_line_end = load-unended
      crash-write finished =
          load-IsWell (written_state s o ids p ps bytes) (written_overlay s o ids p ps bytes)
            (written_ids s o ids p ps bytes) (written-IsWell s o ids p ps bytes w safe room)
