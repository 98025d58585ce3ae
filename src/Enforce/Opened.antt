-- ===== src/Enforce/Opened.antt =====
-- An instance as it is opened, thawed and frozen again by one round of `enforce_all`.
use userfreezer.Prelude.{
  ℕ, ◌≡◌, refl, ap, Bool, true, false, arith, Bool-cases, inl, inr, ◌⊎◌, Option-cases,
}
use userfreezer.Core.Outcome.{>>=-eq-ok, Result, deep_freeze, err, ok, ok-injective, passed_guard}
use userfreezer.Core.Journal.{load_journal}
use userfreezer.Core.Overlay.{Manifest, Overlay}
use userfreezer.Core.Instance.{Disk, DeepFreezer, OverlayPath, directory, nothing, no_directory}
use userfreezer.Core.Lifecycle.{
  Opening, open_instance, open_overlay, open_directory, finish_discard, freeze, thaw, discard,
  frozen_overlay, empty_overlay, Removal, completed, interrupted, recovered, legacy_busy,
  frozen_from, fresh,
}
use userfreezer.Core.Lifecycle.Reopen.{manifest_of}
use userfreezer.Enforce.{Site, place, thaw_old}

-- The disk of an overlay that has just been frozen: a manifest and an empty journal, no payload and
-- no marker.
pub record IsBaseline (disk : Disk) : Type 0 where
  pub manifest : Manifest
  pub state : disk ≡ record {
    overlay = directory (frozen_overlay manifest empty_overlay);
    discard_marker = false;
  }

-- An instance as `_open` returns it.
pub record IsOpened (s : DeepFreezer) : Type 0 where
  locked : s.locked ≡ true
  kept : s.discarding ≡ false
  unmarked : s.disk.discard_marker ≡ false
  bare : (s.frozen ≡ true) ⊎ ((s.frozen ≡ false) × (s.disk.overlay ≡ nothing))

open_directory-IsOpened :
    (env : Opening) (verify : Bool) (disk : Disk) (o : Overlay) (s : DeepFreezer)
    → disk.discard_marker ≡ false
    → open_directory env verify disk o ≡ ok s
    → IsOpened s
unfolding open_directory
open_directory-IsOpened env verify disk o s clear h =
    let (free, found) =
      passed_guard (deep_freeze "overlay bloqueado por outra instancia (timeout)")
        (legacy_busy env.legacy_lock) _ h in
    elim (Option-cases o.manifest) [
      | inl e ↦ let refused = rw e at found in cc
      | inr (man, e) ↦
          let (m, loaded, last) = >>=-eq-ok (load_journal o) _ (rw e at found) in
          rw (← ok-injective (frozen_from verify disk man m) s last)
            (record { locked = refl; kept = refl; unmarked = clear; bare = inl refl })
    ]

abbrev disk_of : OverlayPath → Bool → Disk
disk_of place marked = record { overlay = place; discard_marker = marked }

open_overlay-IsOpened :
    (env : Opening) (verify : Bool) (place : OverlayPath) (marked : Bool) (s : DeepFreezer)
    → marked ≡ false
    → open_overlay env verify (disk_of place marked) ≡ ok s
    → IsOpened s
unfolding open_overlay
open_overlay-IsOpened env verify nothing marked s clear h =
    rw (← ok-injective (fresh verify (disk_of nothing marked)) s h)
      (record { locked = refl; kept = refl; unmarked = clear; bare = inr (refl, refl) })
open_overlay-IsOpened env verify no_directory marked s clear h = cc
open_overlay-IsOpened env verify (directory o) marked s clear h =
    open_directory-IsOpened env verify (disk_of (directory o) marked) o s clear h

-- A discard that succeeds leaves neither overlay nor marker.
finished :
    (removal : Removal) (place : OverlayPath) (marked : Bool) (u : Unit {0})
    → (finish_discard removal (disk_of place marked)).0 ≡ ok u
    → (finish_discard removal (disk_of place marked)).1 ≡ disk_of nothing false
unfolding finish_discard
finished removal nothing marked u h = refl
finished removal no_directory marked u h = cc
finished completed (directory o) marked u h = refl
finished (interrupted rest) (directory o) marked u h = cc

recovered-unmarked :
    (env : Opening) (place : OverlayPath) (marked : Bool) (u : Unit {0})
    → (recovered env (disk_of place marked)).0 ≡ ok u
    → (recovered env (disk_of place marked)).1.discard_marker ≡ false
recovered-unmarked env place true u h =
    ap (λ (d : Disk). d.discard_marker) (finished env.removal place true u h)
recovered-unmarked env place false u h = refl

pub open_instance-IsOpened :
    (env : Opening) (verify : Bool) (disk : Disk) (s : DeepFreezer)
    → (open_instance env verify disk).0 ≡ ok s
    → IsOpened s
unfolding open_instance open_overlay open_directory
open_instance-IsOpened env verify disk s h = elim (Bool-cases env.acquired) [
  | inl e ↦
      let got = rw e at h in
      let (u, done, opened) = >>=-eq-ok (recovered env disk).0 _ got in
      open_overlay-IsOpened env verify (recovered env disk).1.overlay
        (recovered env disk).1.discard_marker s
        (recovered-unmarked env disk.overlay disk.discard_marker u done) opened
  | inr e ↦ let refused = rw e at h in cc
]

-- An instance that is not frozen and has no overlay.
pub record IsBare (s : DeepFreezer) : Type 0 where
  locked : s.locked ≡ true
  kept : s.discarding ≡ false
  thawed : s.frozen ≡ false
  bare : s.disk ≡ disk_of nothing false

pub thaw_old-IsBare :
    (marked : Result (Unit {0})) (removal : Removal) (s : DeepFreezer) (u : Unit {0})
    → IsOpened s
    → (thaw_old marked removal s).0 ≡ ok u
    → IsBare (thaw_old marked removal s).1
unfolding thaw discard finish_discard
thaw_old-IsBare (err e) removal s u o h = ground (arith, o.locked, o.kept, o.unmarked, o.bare, h)
thaw_old-IsBare (ok v) removal s u o h = ground (arith, o.locked, o.kept, o.unmarked, o.bare, h)

pub freeze-IsBaseline :
    (site : Site) (s : DeepFreezer) (n : ℕ)
    → IsBare s
    → (freeze site.rows site.target site.frozen_at s).0 ≡ ok n
    → IsBaseline (freeze site.rows site.target site.frozen_at s).1.disk
unfolding freeze
freeze-IsBaseline site s n b h = record {
  manifest = manifest_of site.rows site.target site.frozen_at s.verify_hashes;
  state =
      rw (b.thawed, b.locked, b.kept, b.bare)
        (ap
          (disk_of (
            directory (
              frozen_overlay (manifest_of site.rows site.target site.frozen_at s.verify_hashes)
                empty_overlay)))
          (ap (λ (d : Disk). d.discard_marker) b.bare));
}
