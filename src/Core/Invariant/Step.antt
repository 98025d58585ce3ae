-- ===== src/Core/Invariant/Step.antt =====
-- One more operation keeps an instance well-formed: the part that all operations share.
use userfreezer.Prelude.{
  ℕ, suc, ◌≡◌, refl, ap, ◌∙◌, true, false, some, [], ◌∷◌, ◌++◌, All-append, arith,
}
use userfreezer.Prelude.Text.{Text, ◌==◌}
use userfreezer.Prelude.Dict.{Dict, lookup, insert, All-insert, NodupKeys-insert, all_of-insert}
use userfreezer.Core.Types.{Kind, written, Op}
use userfreezer.Core.Outcome.{ok}
use userfreezer.Core.Overlay.{Source, entry, clean, Overlay, Journal, append}
use userfreezer.Core.Journal.{replay, start, source, has_content}
use userfreezer.Core.Journal.Replay.{IsWhole, replay-append, replay_rec-new, new_rec}
use userfreezer.Core.Classify.Newest.{SeqBelow-insert, SeqBelow-mono}
use userfreezer.Core.Classify.Elsewhere.{IsKey}
use userfreezer.Core.Instance.{DeepFreezer, directory}
use userfreezer.Core.Invariant.{IsWell, IdBelow, as_loaded}

module _ (s : DeepFreezer) (o : Overlay) (ids : Dict Text) (w : IsWell s o ids) (kind : Kind)
    (key : Text) (d : ℕ) (src : Source) (o' : Overlay) (ids' wp' : Dict Text) where
  abbrev pub next_op : Op
  next_op = record { seq = suc s.seq; kind = kind; d = d }

  -- The instance after the operation.
  abbrev pub next : DeepFreezer
  next = record s {
    disk = record s.disk { overlay = directory o' };
    seq = suc s.seq;
    ops = insert key next_op s.ops;
    write_payloads = wp';
  }

  module _ (keyed : IsKey key) (named : (key == []) ≡ false)
      (sourced : source key kind src ids ≡ ok ids') (same_manifest : o'.manifest ≡ o.manifest)
      (journaled : o'.journal ≡ append o.journal (new_rec s.seq kind key d src))
      (new_content : has_content o' ids' (key, next_op) ≡ true)
      (kept : (j : Text) (op : Op)
        → (j == key) ≡ false
        → has_content o ids (j, op) ≡ true
        → has_content o' ids' (j, op) ≡ true)
      (ids_below : (k id : Text) → lookup k wp' ≡ some id → IdBelow (suc s.seq) id)
      (ids_same : (k : Text) (op : Op)
        → lookup k next.ops ≡ some op
        → op.kind ≡ written
        → lookup k ids' ≡ lookup k wp') where
    appended : append o.journal (new_rec s.seq kind key d src) ≡ record {
      lines = o.journal.lines ++ (entry (new_rec s.seq kind key d src) ∷ []);
      tail = clean;
    }
    unfolding append
    appended = ground (arith, w.ended)

    lines' : o'.journal.lines ≡ o.journal.lines ++ (entry (new_rec s.seq kind key d src) ∷ [])
    lines' = ap (λ (j : Journal). j.lines) (journaled ∙ appended)

    replayed' : replay o'.journal.lines clean start ≡ ok (as_loaded next ids')
    unfolding replay
    replayed' = rw (
      lines',
      replay-append o.journal.lines (entry (new_rec s.seq kind key d src) ∷ []) clean start
          (as_loaded s ids) w.whole w.replayed,
      replay_rec-new s.seq s.ops ids ids' kind key d src w.seqs named sourced,
    )

    pub IsWell-next : IsWell next o' ids'
    IsWell-next = record {
      on_disk = refl;
      unmarked = w.unmarked;
      same_manifest = same_manifest ∙ w.same_manifest;
      seqs =
          SeqBelow-insert (suc s.seq) s.ops key next_op (omega arith)
            (SeqBelow-mono s.seq (suc s.seq) s.ops (omega arith) w.seqs);
      keys = All-insert (λ e. IsKey e.0) key next_op s.ops keyed w.keys;
      nodup = NodupKeys-insert key next_op s.ops w.nodup;
      ids_below = ids_below;
      ids_same = ids_same;
      ended = ap (λ (j : Journal). j.tail) (journaled ∙ appended);
      whole = rw lines' (All-append IsWhole o.journal.lines _ w.whole (tt, tt));
      replayed = replayed';
      contents =
          all_of-insert (has_content o ids) (has_content o' ids') key next_op s.ops w.nodup
            new_content kept w.contents;
    }
