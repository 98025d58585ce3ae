-- ===== src/Core/Lifecycle/Discard.antt =====
-- The ends of a discard, and what an instance does that opens on one that was cut off.
use userfreezer.Prelude.{String, ◌≡◌, refl, Bool, true, false, arith, ◌⊎◌, inl}
use userfreezer.Core.Outcome.{Result, ok, err, Error, deep_freeze}
use userfreezer.Core.Instance.{nothing, Disk, DeepFreezer}
use userfreezer.Core.Lifecycle.{
  Removal, finish_discard, Opening, open_overlay, open_instance, thaw, discard, fresh,
  clear_frozen_state,
}

-- Where an instance opens on an overlay marked for discard, it is not frozen, and the overlay and
-- its marker are gone.
pub open-marked :
    (env : Opening) (verify : Bool) (disk : Disk) (s : DeepFreezer)
    → disk.discard_marker ≡ true
    → (open_instance env verify disk).0 ≡ ok s
    → (s ≡ fresh verify (record { overlay = nothing; discard_marker = false }))
      × ((open_instance env verify disk).1 ≡ record { overlay = nothing; discard_marker = false })
unfolding open_instance finish_discard open_overlay
open-marked env verify disk s marked opened = ground (arith, marked, opened)

-- A `thaw` without commit of an open, frozen instance with no discard pending ends in one of three
-- ways: the marker cannot be written, the same error is raised, and the instance and its overlay
-- are as before; or all succeeds and everything of the freeze is gone, from memory and from disk;
-- or a DeepFreezeError is raised and the marker is on disk, so that the discard goes on later.
pub thaw-discards :
    (marked : Result (Unit {0})) (removal : Removal) (s : DeepFreezer)
    → s.locked ≡ true
    → s.frozen ≡ true
    → s.discarding ≡ false
    → let (r, t) = thaw (ok tt) marked removal s in
      ((e : Error) × (marked ≡ err e) × (r ≡ err e) × (t ≡ s))
      ⊎ ((r ≡ ok tt)
          × (t
              ≡ clear_frozen_state
                  (record s { disk = record { overlay = nothing; discard_marker = false } })))
      ⊎ ((message : String) × (r ≡ err (deep_freeze message))
          × (t.disk.discard_marker ≡ true)
          × (t.discarding ≡ true))
unfolding thaw discard finish_discard
thaw-discards (err e) removal s locked frozen kept =
    inl (e, refl, ground (arith, locked, frozen, kept), ground (arith, locked, frozen, kept))
thaw-discards (ok u) removal s locked frozen kept = ground (arith, locked, frozen, kept)
