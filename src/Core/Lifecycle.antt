-- ===== src/Core/Lifecycle.antt =====
-- deepfreezer.py: the life of an instance, `_open`, `freeze`, `thaw` and `close`, with the discard of
-- an overlay that a crash may interrupt. What `shutil.rmtree` and the locks answer is an input.
pub mod Discard
pub mod Reopen
use userfreezer.Prelude.{
  ℕ, Bool, true, false, not, ◌&&◌, ◌||◌, Option, none, some, List, [], ◌∷◌, ◌++◌, length,
  if◌then◌else◌,
}
use userfreezer.Prelude.Text.{Text, codes, ◌==◌, starts_with, rstrip_by, slash}
use userfreezer.Prelude.Dict.{Dict, insert}
use userfreezer.Core.Outcome.{Result, ok, err, Error, deep_freeze, os_error, ◌>>=◌}
use userfreezer.Core.RelPath.{backslash}
use userfreezer.Core.Overlay.{Manifest, Entry, EntryType, dir, file, link, Journal, clean, Overlay}
use userfreezer.Core.Journal.{Loaded, load_journal}
use userfreezer.Core.Instance.{
  OverlayPath, nothing, no_directory, directory, Disk, DeepFreezer, Method,
}

-- How `shutil.rmtree` ends: with the tree gone, or with an OSError that leaves part of it.
pub data Removal : Type 0 where
  completed : Removal
  interrupted : OverlayPath → Removal

abbrev pub discard_failed : Result (Unit {0})
discard_failed = err (deep_freeze "falha ao descartar overlay")

-- `_finish_discard`
unfoldable pub finish_discard : Removal → Disk → Result (Unit {0}) × Disk
finish_discard removal disk = elim disk.overlay [
  | nothing ↦ (ok tt, record disk { discard_marker = false })
  | no_directory ↦ (err (deep_freeze "overlay nao e diretorio"), disk)
  | directory o ↦ elim removal [
    | completed ↦ (ok tt, record { overlay = nothing; discard_marker = false })
    | interrupted rest ↦ (discard_failed, record disk { overlay = rest })
  ]
]

-- The answers of the system during `_open`: whether the lock was got in time, how a removal ends,
-- and whether a lock file of an old version, if there is one, could be locked.
pub record Opening : Type 0 where
  pub acquired : Bool
  pub removal : Removal
  pub legacy_lock : Option Bool

abbrev pub fresh : Bool → Disk → DeepFreezer
fresh verify disk = record {
  locked = true;
  verify_hashes = verify;
  frozen = false;
  manifest = none;
  ops = [];
  write_payloads = [];
  seq = 0;
  discarding = false;
  disk = disk;
}

abbrev pub frozen_from : Bool → Disk → Manifest → Loaded → DeepFreezer
frozen_from verify disk man m = record {
  locked = true;
  verify_hashes = verify;
  frozen = true;
  manifest = some man;
  ops = m.ops;
  write_payloads = m.write_payloads;
  seq = m.best_seq;
  discarding = false;
  disk = disk;
}

abbrev pub legacy_busy : Option Bool → Bool
legacy_busy none = false
legacy_busy (some free) = not free

-- `_open` where the overlay's path holds a directory.
unfoldable pub open_directory : Opening → Bool → Disk → Overlay → Result DeepFreezer
open_directory env verify disk o =
    if legacy_busy env.legacy_lock
    then err (deep_freeze "overlay bloqueado por outra instancia (timeout)")
    else elim o.manifest [
      | none ↦ err (deep_freeze "overlay existe sem manifest (corrompido?)")
      | some man ↦ do m ← load_journal o; ok (frozen_from verify disk man m)
    ]

-- `_open` after the recovery of an interrupted discard.
unfoldable pub open_overlay : Opening → Bool → Disk → Result DeepFreezer
open_overlay env verify disk = elim disk.overlay [
  | nothing ↦ ok (fresh verify disk)
  | no_directory ↦ err (deep_freeze "caminho do overlay ja existe (nao eh dir)")
  | directory o ↦ open_directory env verify disk o
]

abbrev pub recovered : Opening → Disk → Result (Unit {0}) × Disk
recovered env disk = if disk.discard_marker then finish_discard env.removal disk else (ok tt, disk)

-- `_open`, with the disk that it leaves. On an error there is no instance, and the lock is released.
unfoldable pub open_instance : Opening → Bool → Disk → Result DeepFreezer × Disk
open_instance env verify disk =
    if env.acquired
    then (let (r, disk') = recovered env disk in
        ((do done ← r; open_overlay env verify disk'), disk'))
    else (err (deep_freeze "overlay bloqueado por outra instancia (timeout)"), disk)

-- A file as `os.walk` and `os.lstat` show it.
pub record FileStat : Type 0 where
  pub name : Text
  pub is_link : Bool
  pub size : ℕ
  pub mtime : ℕ
  pub sha256 : Text

-- One directory of `os.walk`, with its path below the target, "." for the target.
pub record WalkRow : Type 0 where
  pub rel_d : Text
  pub files : List FileStat

abbrev pub is_root : Text → Bool
is_root rel_d = rel_d == codes "."

abbrev pub file_entry : Bool → FileStat → Entry
file_entry verify f = record {
  t = if f.is_link then link else file;
  size = f.size;
  mtime = f.mtime;
  sha256 = if verify then some f.sha256 else none;
}

abbrev pub file_key : Text → FileStat → Text
file_key rel_d f = if is_root rel_d then f.name else rel_d ++ (slash ∷ f.name)

-- `entries` and `hashes` of the manifest.
abbrev pub Walked : Type 0
Walked = record { entries : Dict Entry; hashes : Dict Text }

unfoldable pub walk_files : Bool → Text → List FileStat → Walked → Walked
walk_files verify rel_d [] w = w
walk_files verify rel_d (f ∷ fs) w =
    let key = file_key rel_d f in
    walk_files verify rel_d fs (record {
      entries = insert key (file_entry verify f) w.entries;
      hashes = if verify then insert key f.sha256 w.hashes else w.hashes;
    })

abbrev pub dir_entry : Entry
dir_entry = record { t = dir; size = 0; mtime = 0; sha256 = none }

abbrev pub enter_dir : Text → Walked → Walked
enter_dir rel_d w =
    if is_root rel_d
    then w
    else record { entries = insert rel_d dir_entry w.entries; hashes = w.hashes }

unfoldable pub walk : Bool → List WalkRow → Walked → Walked
walk verify [] w = w
walk verify (row ∷ rows) w =
    walk verify rows (walk_files verify row.rel_d row.files (enter_dir row.rel_d w))

abbrev pub empty_overlay : Overlay
empty_overlay = record {
  manifest = none;
  journal = record { lines = []; tail = clean };
  payloads = [];
  files = [];
  md = [];
  del = [];
  temps = [];
}

-- `os.makedirs(self.overlay, exist_ok=True)`
abbrev pub make_overlay : OverlayPath → Result Overlay
make_overlay nothing = ok empty_overlay
make_overlay no_directory = err os_error
make_overlay (directory o) = ok o

abbrev pub frozen_overlay : Manifest → Overlay → Overlay
frozen_overlay man o = record o {
  manifest = some man;
  journal = record { lines = []; tail = clean };
}

abbrev pub frozen_state : Manifest → Overlay → DeepFreezer → DeepFreezer
frozen_state man o s = record s {
  disk = record s.disk { overlay = directory (frozen_overlay man o) };
  manifest = some man;
  frozen = true;
  ops = [];
  write_payloads = [];
  seq = 0;
}

-- `freeze`, given the walk over the target, its path and the time. It returns the number of paths.
unfoldable pub freeze : List WalkRow → Text → Text → Method ℕ
freeze rows root now s =
    if s.frozen
    then (err (deep_freeze "ja esta congelado"), s)
    else if not s.locked || s.discarding
    then (err (deep_freeze "instancia fechada ou descarte pendente"), s)
    else (let walked : Walked = walk s.verify_hashes rows (record { entries = []; hashes = [] }) in
        let man : Manifest = record {
          v = 1;
          root = root;
          frozen_at = now;
          entries = walked.entries;
          hashes = walked.hashes;
        } in
        elim (make_overlay s.disk.overlay) [
          | err e ↦ (err e, s)
          | ok o ↦ (ok (length man.entries), frozen_state man o s)
        ])

-- `_clear_frozen_state`
abbrev pub clear_frozen_state : DeepFreezer → DeepFreezer
clear_frozen_state s = record s {
  frozen = false;
  manifest = none;
  ops = [];
  write_payloads = [];
  seq = 0;
  discarding = false;
}

-- `_finish_discard` and then `_clear_frozen_state`
unfoldable pub discard : Removal → Method (Unit {0})
discard removal s =
    let (r, disk') = finish_discard removal s.disk in
    elim r [
      | err e ↦ (err e, record s { disk = disk' })
      | ok u ↦ (ok tt, clear_frozen_state (record s { disk = disk' }))
    ]

-- `thaw`. `committed` is how `_apply_commit` ends where `commit` is set, and `ok` where it is not;
-- `marked` is how the writing of the marker ends, which has its name only if it did not raise.
unfoldable pub thaw : (committed marked : Result (Unit {0})) → Removal → Method (Unit {0})
thaw committed marked removal s =
    if not s.locked
    then (err (deep_freeze "instancia fechada"), s)
    else if s.discarding
    then discard removal s
    else if not s.frozen
    then (err (deep_freeze "nada congelado para descongelar"), s)
    else elim (committed >>= λ u. marked) [
      | err e ↦ (err e, s)
      | ok u ↦
          discard removal
            (record s { disk = record s.disk { discard_marker = true }; discarding = true })
    ]

-- `close`
unfoldable pub close : DeepFreezer → DeepFreezer
close s = record s { locked = false }
