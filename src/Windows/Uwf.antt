-- ===== src/Windows/Uwf.antt =====
-- uwf_ipc_lab.py: the inspection of the Unified Write Filter and its staging for the next boot. What
-- Windows, the provider of WMI and uwfmgr.exe answer are inputs. Texts of Windows are taken in upper case
-- where the code compares them so.
pub mod Staged
use userfreezer.Prelude.{
  ℕ, Bool, true, false, not, ◌&&◌, ◌||◌, Option, none, some, List, [], ◌∷◌, if◌then◌else◌, leb, ltb,
  nat_eq, length, any_of, keep_if,
}
use userfreezer.Prelude.Text.{Text, codes, ◌==◌}
use userfreezer.Core.Outcome.{
  Result, ok, err, Error, value_error, runtime_error, permission_error, ◌>>=◌,
}
use userfreezer.Windows.Detect.{Strategy, uwf, classify, member, native_ten}

-- `persistent in ALLOWED_PERSISTENT`: D: to Z:
abbrev pub is_persistent : Text → Bool
is_persistent (c ∷ (d ∷ [])) = leb 68 c && leb c 90 && nat_eq d b':'
is_persistent _ = false

-- `_validate_volumes`
unfoldable pub validate_volumes : Text → Text → Result (Unit {0})
validate_volumes target persistent =
    if target == codes "C:" && is_persistent persistent then ok tt else err value_error

pub record Machine : Type 0 where
  pub is_windows : Bool
  pub build : ℕ
  pub edition : Text
  pub system_drive : Text
  pub drive_type : ℕ
  pub filesystem : Text

abbrev pub is_uwf : Strategy → Bool
is_uwf uwf = true
is_uwf _ = false

-- `if ...: raise RuntimeError`, by the negated test
abbrev pub require : Bool → Result (Unit {0})
require true = ok tt
require false = err runtime_error

infixl 10 ◌>>◌
abbrev ◌>>◌ : Result (Unit {0}) → Result (Unit {0}) → Result (Unit {0})
first >> next = first >>= λ u. next

-- `_preconditions`
unfoldable pub preconditions : Machine → Text → Text → Result (Unit {0})
preconditions m target persistent = do
  volumes ← validate_volumes target persistent
  require m.is_windows
  require (
      not (ltb m.build 10240) && member m.edition native_ten && is_uwf (classify m.build m.edition))
  require (m.system_drive == codes "C:")
  require (nat_eq m.drive_type 3)
  require (m.filesystem == codes "NTFS")

-- A row of UWF_Filter, and one of UWF_Volume.
pub record Filter : Type 0 where
  pub current_enabled : Bool
  pub next_enabled : Bool

pub record Volume : Type 0 where
  pub drive : Text
  pub current : Bool
  pub protected : Bool

pub record Provider : Type 0 where
  pub filters : List Filter
  pub volumes : List Volume

pub record Snapshot : Type 0 where
  pub current_filter_enabled : Bool
  pub next_filter_enabled : Bool
  pub current_c_protected : Bool
  pub next_c_protected : Bool

abbrev pub same_flag : Bool → Bool → Bool
same_flag true b = b
same_flag false b = not b

abbrev pub is_row : Text → Bool → Volume → Bool
is_row drive current v = v.drive == drive && same_flag v.current current

abbrev pub is_protected : Volume → Bool
is_protected v = v.protected

-- `bool(rows and rows[0].Protected)`
abbrev pub first_protected : List Volume → Bool
first_protected [] = false
first_protected (v ∷ vs) = v.protected

abbrev pub one_filter : List Filter → Result Filter
one_filter (f ∷ []) = ok f
one_filter _ = err runtime_error

-- `_provider_snapshot`
unfoldable pub provider_snapshot : Provider → Text → Text → Result Snapshot
provider_snapshot p target persistent = do
  f ← one_filter p.filters
  let c_now = keep_if (is_row target true) p.volumes
  let c_next = keep_if (is_row target false) p.volumes
  let d_rows = keep_if (λ v. v.drive == persistent) p.volumes
  single ← require (not (ltb 1 (length c_now) || ltb 1 (length c_next) || ltb 2 (length d_rows)))
  bare ← require (not (any_of is_protected d_rows))
  ok (record {
    current_filter_enabled = f.current_enabled;
    next_filter_enabled = f.next_enabled;
    current_c_protected = first_protected c_now;
    next_c_protected = first_protected c_next;
  })

pub data Status : Type 0 where
  currently_enabled configured_for_next_boot not_protected : Status

abbrev pub status_of : Snapshot → Status
status_of s =
    if s.current_filter_enabled && s.current_c_protected
    then currently_enabled
    else if s.next_filter_enabled && s.next_c_protected
    then configured_for_next_boot
    else not_protected

-- `inspect_uwf`
unfoldable pub inspect_uwf : Machine → Provider → Text → Text → Result (Snapshot × Status)
inspect_uwf m p target persistent = do
  ready ← preconditions m target persistent
  s ← provider_snapshot p target persistent
  ok (s, status_of s)

-- The calls of uwfmgr.exe.
pub data Command : Type 0 where
  protect : Text → Command
  enable_filter : Command

-- What the system answers during the staging: the provider before and after, the path of
-- uwfmgr.exe, and whether its calls end well.
pub record Lab : Type 0 where
  pub machine : Machine
  pub before : Provider
  pub binary : Result Text
  pub protects : Bool
  pub enables : Bool
  pub after : Provider

abbrev pub is_configured : Snapshot → Bool
is_configured s =
    s.current_filter_enabled || s.next_filter_enabled || s.current_c_protected || s.next_c_protected

-- What has been done when a call ends, and the calls that were made.
abbrev pub Staging : Type 0
Staging = Result (Unit {0}) × List Command

abbrev pub confirm : Lab → Text → Text → Result (Unit {0})
confirm lab target persistent = do
  (s, status) ← inspect_uwf lab.machine lab.after target persistent
  require (s.next_filter_enabled && s.next_c_protected)

abbrev pub enable_next : Lab → Text → Text → Result (Unit {0}) → Staging
enable_next lab target persistent (err e) = (err e, protect target ∷ [])
enable_next lab target persistent (ok u) = (
  (require lab.enables >>= λ done. confirm lab target persistent),
  protect target ∷ (enable_filter ∷ []),
)

abbrev pub stage_from : Lab → Text → Text → Result Text → Staging
stage_from lab target persistent (err e) = (err e, [])
stage_from lab target persistent (ok path) =
    enable_next lab target persistent (require lab.protects)

-- `if before[...] or ...: raise`, and `_uwfmgr_path`
abbrev pub unconfigured : Snapshot → Result Text → Result Text
unconfigured s binary = if is_configured s then err runtime_error else binary

abbrev pub permitted : Bool → Result (Unit {0})
permitted true = ok tt
permitted false = err permission_error

-- Up to the first call.
abbrev pub ready : Bool → Lab → Text → Text → Result Text
ready enabled lab target persistent = do
  volumes ← validate_volumes target persistent
  allowed ← permitted enabled
  (s, status) ← inspect_uwf lab.machine lab.before target persistent
  unconfigured s lab.binary

-- `stage_uwf_lab`
unfoldable pub stage_uwf_lab : Bool → Lab → Text → Text → Staging
stage_uwf_lab enabled lab target persistent =
    stage_from lab target persistent (ready enabled lab target persistent)
