-- ===== src/Core/Instance.antt =====
-- deepfreezer.py: the state of a `DeepFreezer` instance with the disk that it works on, and the
-- helpers of its operations. Methods return the new state, also where they raise.
use userfreezer.Prelude.{List, ◌∷◌, ℕ, suc, Bool, not, ◌||◌, Option, some, if◌then◌else◌}
use userfreezer.Prelude.Text.{Text}
use userfreezer.Prelude.Dict.{Dict, insert}
use userfreezer.Core.Types.{Kind, Ops}
use userfreezer.Core.Outcome.{Result, ok, err, deep_freeze, Error, ◌>>=◌}
use userfreezer.Core.Overlay.{
  Source, Rec, Manifest, Overlay, Journal, Tail, clean, unended, torn, put_marker, blocked_above,
  append,
}

-- What stands under the overlay's path: nothing, something that is no directory, or an overlay.
pub data OverlayPath : Type 0 where
  nothing no_directory : OverlayPath
  directory : Overlay → OverlayPath

-- The overlay, and the marker file `<T>.dfreezer.discarding` beside it.
pub record Disk : Type 0 where
  pub overlay : OverlayPath
  pub discard_marker : Bool

pub record DeepFreezer : Type 0 where
  -- `self._lock.fd is not None`
  pub locked : Bool
  pub verify_hashes : Bool
  pub frozen : Bool
  pub manifest : Option Manifest
  pub ops : Ops
  pub write_payloads : Dict Text
  pub seq : ℕ
  pub discarding : Bool
  pub disk : Disk

abbrev pub Method : Type 0 → Type 0
Method A = DeepFreezer → Result A × DeepFreezer

abbrev pub raised : {A : Type 0} → Error → Method A
raised e s = (err e, s)

-- `_require_frozen`
unfoldable pub require_frozen : DeepFreezer → Result (Unit {0})
require_frozen s =
    if s.discarding
    then err (deep_freeze "overlay em descarte pendente; conclua thaw()")
    else if not s.frozen || not s.locked
    then err (deep_freeze "chame freeze() antes")
    else ok tt

-- The overlay directory of an instance that is frozen; an operation on a missing directory fails.
abbrev pub with_overlay : {A : Type 0} → OverlayPath → (Overlay → Result A) → Result A
with_overlay (directory o) f = f o
with_overlay _ f = err Error.os_error

abbrev pub on_disk : DeepFreezer → Overlay → DeepFreezer
on_disk s o = record s { disk = record s.disk { overlay = directory o } }

-- `_put_payload` with a payload ID
unfoldable pub put_payload : Text → Text → Overlay → Overlay
put_payload id bytes o = record o { payloads = insert id bytes o.payloads }

-- `_put_payload` of a marker under md/ or del/
abbrev pub put_md : Text → Overlay → Result Overlay
put_md rel o = do ks ← put_marker rel o.md; ok (record o { md = ks })

abbrev pub put_del : Text → Overlay → Result Overlay
put_del rel o = do ks ← put_marker rel o.del; ok (record o { del = ks })

-- The record that `_journal` writes.
unfoldable pub journal_rec : ℕ → Kind → Text → ℕ → Source → Rec
journal_rec seq op rel d src = record {
  seq = some seq;
  op = some op;
  p = some rel;
  d = some d;
  src = src;
}

-- What is left where a marker is not placed: `os.makedirs` raises before there is a temporary file, and
-- where `os.replace` raises the file stays.
abbrev pub with_temp : Text → Overlay → Overlay
with_temp key o = record o { temps = key ∷ o.temps }

abbrev pub leave_temp : Text → (Overlay → List Text) → OverlayPath → DeepFreezer → DeepFreezer
leave_temp key area (directory o) s =
    if blocked_above key (area o) then s else on_disk s (with_temp key o)
leave_temp key area _ s = s

-- How the writes to the overlay of one call end: all are stored; the payload or marker is not placed
-- under its name (what a short write leaves under another name is not kept); or it is, and the
-- append to the journal raises, with nothing of the line in the file, a part of it, all but its line
-- end, or all of it.
pub data Left : Type 0 where
  no_line part_of_line unended_line whole_line : Left

pub data Storing : Type 0 where
  stored unplaced : Storing
  unjournaled : Left → Storing

-- `_put_payload`, which raises where the file is not placed
abbrev pub placed : {A : Type 0} → Storing → Result A → Result A
placed unplaced r = err Error.os_error
placed _ r = r

abbrev pub unended_after : Tail → Rec → Tail
unended_after clean line = unended line
unended_after torn line = torn
unended_after (unended r) line = torn

abbrev pub leave : Left → Journal → Rec → Journal
leave no_line j line = j
leave part_of_line j line = record j { tail = torn }
leave unended_line j line = record j { tail = unended_after j.tail line }
leave whole_line j line = append j line

-- `_journal`: it counts up the sequence and appends the record.
unfoldable pub journal :
    Storing → Kind → Text → ℕ → Source → Overlay → DeepFreezer → Result (Unit {0}) × DeepFreezer
journal (unjournaled left) op rel d src o s =
    let line = journal_rec (suc s.seq) op rel d src in
    (
      err Error.os_error,
      record (on_disk s (record o { journal = leave left o.journal line })) { seq = suc s.seq },
    )
journal _ op rel d src o s =
    let line = journal_rec (suc s.seq) op rel d src in
    (ok tt, record (on_disk s (record o { journal = append o.journal line })) { seq = suc s.seq })

abbrev pub temp_left : Storing → Text → (Overlay → List Text) → DeepFreezer → DeepFreezer
temp_left unplaced key area s = s
temp_left _ key area s = leave_temp key area s.disk.overlay s

-- What follows `_put_payload` of a marker, and the state where it raises
abbrev pub after_marker :
    Result Overlay
    → DeepFreezer
    → (Overlay → Result (Unit {0}) × DeepFreezer)
    → Result (Unit {0}) × DeepFreezer
after_marker (ok o) t f = f o
after_marker (err e) t f = (err e, t)

abbrev pub md_of : Overlay → List Text
md_of o = o.md

abbrev pub del_of : Overlay → List Text
del_of o = o.del

-- What follows `_journal`, if it returns.
abbrev pub after_journal :
    Result (Unit {0}) × DeepFreezer → (DeepFreezer → DeepFreezer) → Result (Unit {0}) × DeepFreezer
after_journal (ok u, s) f = (ok tt, f s)
after_journal (err e, s) f = (err e, s)

-- `self.ops[key] = (self._seq, kind, d)`, after `_journal`
unfoldable pub set_op : Text → Kind → ℕ → DeepFreezer → DeepFreezer
set_op key kind d s = record s {
  ops = insert key (record { seq = s.seq; kind = kind; d = d }) s.ops;
}
