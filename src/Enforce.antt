-- ===== src/Enforce.antt =====
-- packaging/linux/deepfreezerd.py and packaging/windows/deepfreezer_service.py: `enforce_all`, which at
-- boot discards what an overlay holds and freezes its target again, and deepfreezer.py:
-- `DeepFreezer.__init__`, which finds the overlay. The answers of the system for each entry are inputs.
pub mod Opened
pub mod Fresh
mod Examples
use userfreezer.Prelude.{
  ℕ, Bool, true, false, not, ◌&&◌, ◌||◌, Option, none, some, List, [], ◌∷◌, ◌++◌, map,
  if◌then◌else◌, nat_eq,
}
use userfreezer.Prelude.Text.{Text, codes, ◌==◌, starts_with, rstrip_by, slash}
use userfreezer.Prelude.Json.{Json, null, str, obj, Fields, get_field, truthy}
use userfreezer.Core.Outcome.{Result, ok, err, Error, deep_freeze, value_error, ◌>>=◌}
use userfreezer.Core.Instance.{Disk, DeepFreezer}
use userfreezer.Core.Lifecycle.{Opening, open_instance, WalkRow, freeze, thaw, Removal}
use userfreezer.Core.RelPath.{backslash}
use userfreezer.Health.{State, healthy, is_healthy, Summary, health_summary}

-- What the system answers while one entry is enforced. `target` is the absolute path of the target,
-- and `overlay` that of the overlay that is named, if one is.
pub record Site : Type 0 where
  pub target : Text
  pub overlay : Text
  pub is_dir : Bool
  pub opening : Opening
  pub rows : List WalkRow
  pub frozen_at : Text
  pub marked : Result (Unit {0})
  pub removal : Removal
  pub hardened : Bool

abbrev pub is_separator : ℕ → Bool
is_separator c = nat_eq c slash || nat_eq c backslash

-- The overlay's path, before it is made absolute where it is named.
abbrev pub named_overlay : Site → Option Json → Result Text
named_overlay site none = ok (rstrip_by is_separator site.target ++ codes ".dfreezer")
named_overlay site (some null) = ok (rstrip_by is_separator site.target ++ codes ".dfreezer")
named_overlay site (some (str path)) = ok site.overlay
named_overlay site (some _) = err value_error

abbrev pub is_inside : Text → Text → Bool
is_inside overlay target = overlay == target || starts_with overlay (target ++ (slash ∷ []))

-- `__init__`, up to the lock
unfoldable pub place : Site → Option Json → Result Text
place site given =
    if not site.is_dir
    then err (deep_freeze "alvo nao existe ou nao e diretorio")
    else named_overlay site given >>= λ overlay.
        if is_inside overlay site.target
        then err (deep_freeze "overlay nao pode ficar dentro do alvo")
        else ok overlay

-- `if df.frozen: df.thaw(commit=False)`
abbrev pub thaw_old : Result (Unit {0}) → Removal → DeepFreezer → Result (Unit {0}) × DeepFreezer
thaw_old marked removal s = if s.frozen then thaw (ok tt) marked removal s else (ok tt, s)

abbrev pub then_freeze : Site → Result (Unit {0}) × DeepFreezer → Result ℕ × DeepFreezer
then_freeze site (err e, s) = (err e, s)
then_freeze site (ok u, s) = freeze site.rows site.target site.frozen_at s

-- `if not _harden_overlay(df.overlay, log): raise`
abbrev pub harden : Bool → Result ℕ × DeepFreezer → Result ℕ × DeepFreezer
harden hardened (err e, s) = (err e, s)
harden hardened (ok n, s) =
    (if hardened then ok n else err (deep_freeze "hardening do overlay falhou"), s)

-- The body of the `try`, after the instance is open, and the disk that it leaves.
unfoldable pub enforce_open : Site → Result DeepFreezer × Disk → Result ℕ × Disk
enforce_open site (err e, disk) = (err e, disk)
enforce_open site (ok s, disk) =
    let (r, t) = harden site.hardened (then_freeze site (thaw_old site.marked site.removal s)) in
    (r, t.disk)

abbrev pub Disks : Type 0
Disks = Text → Disk

abbrev pub set_disk : Text → Disk → Disks → Disks
set_disk place disk disks other = if place == other then disk else disks other

abbrev pub enforce_at : Site → Bool → Result Text → Disks → Result ℕ × Disks
enforce_at site verify (err e) disks = (err e, disks)
enforce_at site verify (ok overlay) disks =
    let (r, disk) = enforce_open site (open_instance site.opening verify (disks overlay)) in
    (r, set_disk overlay disk disks)

-- An item of `results`, with its target and state.
pub record Row : Type 0 where
  pub target : Text
  pub state : Text

abbrev pub row_of : Text → Result ℕ → Row
row_of target (ok n) = record { target = target; state = codes "healthy" }
row_of target (err e) = record { target = target; state = codes "error" }

abbrev pub invalid_row : Row
invalid_row = record { target = codes "<invalido>"; state = codes "error" }

abbrev pub enforce_target : Site → Bool → Text → Option Json → Disks → Row × Disks
enforce_target site verify target overlay disks =
    let (r, after) = enforce_at site verify (place site overlay) disks in (row_of target r, after)

module _ (nonzero : Text → Bool) where
  abbrev pub verify_of : Option Json → Bool
  verify_of none = false
  verify_of (some j) = truthy nonzero j

  abbrev pub enforce_named : Site → Fields → Option Json → Disks → Row × Disks
  enforce_named site fs (some (str target)) disks =
      if target == []
      then (invalid_row, disks)
      else enforce_target site (verify_of (get_field (codes "verify") fs)) target
          (get_field (codes "overlay") fs) disks
  enforce_named site fs _ disks = (invalid_row, disks)

  -- One round of the loop.
  unfoldable pub enforce_entry : Site → Json → Disks → Row × Disks
  enforce_entry site (obj fs) disks = enforce_named site fs (get_field (codes "target") fs) disks
  enforce_entry site _ disks = (invalid_row, disks)

  unfoldable pub enforce_each : List (Json × Site) → Disks → List Row × Disks
  enforce_each [] disks = ([], disks)
  enforce_each ((entry, site) ∷ entries) disks =
      let (row, after) = enforce_entry site entry disks in
      let (rows, end) = enforce_each entries after in (row ∷ rows, end)

  abbrev pub state_of : Row → Option Text
  state_of row = some row.state

  -- `_record_health`; `published` says that the status could be written.
  abbrev pub record_health : Bool → List Row → Option Text → Bool
  record_health published rows config_error =
      published && is_healthy (health_summary (map state_of rows) config_error).state

  abbrev pub config_message : Text
  config_message = codes "erro lendo config"

  -- `enforce_all`. The configuration is the list "targets" of its object, `none` where it cannot be
  -- read or is of another form.
  unfoldable pub enforce_all : Bool → Option (List (Json × Site)) → Disks → Bool × Disks
  enforce_all published none disks = (false, disks)
  enforce_all published (some []) disks = (false, disks)
  enforce_all published (some (e ∷ entries)) disks =
      let (rows, after) = enforce_each (e ∷ entries) disks in
      (record_health published rows none, after)
