-- ===== src/Core/TornTail.antt =====
-- A journal whose last line was torn by a crash. The loader skips the rest and leaves it in the file.
use userfreezer.Prelude.{◌≡◌, refl, ap, ◌∙◌, true, List, [], ◌∷◌, all_of}
use userfreezer.Prelude.Text.{Text}
use userfreezer.Prelude.Dict.{Dict}
use userfreezer.Core.Outcome.{ok, ◌>>=◌}
use userfreezer.Core.Overlay.{Overlay, broken, clean, torn, append}
use userfreezer.Core.Journal.{load_journal, replay, start, keep_alive, has_content}
use userfreezer.Core.Journal.Replay.{replay-append}
use userfreezer.Core.Instance.{DeepFreezer, directory, put_payload}
use userfreezer.Core.Api.{write_at}
use userfreezer.Core.Invariant.{IsWell, as_loaded}
use userfreezer.Core.Invariant.Writing.{write_at_lem, written_overlay}
use userfreezer.Core.Invariant.Recovery.{keep_alive_all}
use userfreezer.Core.Crash.{contents-kept}

module _ (s : DeepFreezer) (o : Overlay) (ids : Dict Text) (w : IsWell s o ids) (p : Text)
    (ps : List Text) (bytes : Text) where
  -- The overlay with the rest of a torn line, and the instance that opened on it.
  abbrev pub torn_overlay : Overlay
  torn_overlay = record o { journal = record { lines = o.journal.lines; tail = torn } }

  abbrev pub reopened : DeepFreezer
  reopened = record s { disk = record s.disk { overlay = directory torn_overlay } }

  abbrev glued : Overlay
  glued = written_overlay reopened torn_overlay ids p ps bytes

  glued_contents : all_of (has_content glued ids) s.ops ≡ true
  unfolding has_content put_payload
  glued_contents = contents-kept s o ids p ps bytes clean s.ops w.contents

  load-glued : load_journal glued ≡ ok (as_loaded s ids)
  unfolding load_journal append replay
  load-glued =
      ap (λ r. r >>= keep_alive glued)
        (replay-append o.journal.lines (broken ∷ []) clean start (as_loaded s ids) w.whole
          w.replayed)
      ∙ keep_alive_all glued ids s.ops s.seq glued_contents

  -- Where an instance has opened on a journal whose last line is torn, its first `write` reports
  -- success, and the next loader finds only what was there before it.
  pub write-after_torn :
      let (r, t) = write_at (p ∷ ps) bytes reopened in
      (r ≡ ok tt)
      × ((after : Overlay) × (t.disk.overlay ≡ directory after)
          × (load_journal after ≡ ok (as_loaded s ids)))
  write-after_torn =
      rw (write_at_lem reopened torn_overlay ids p ps bytes refl) (refl, (glued, refl, load-glued))
