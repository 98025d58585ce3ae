-- ===== src/Windows/Uwf/Staged.antt =====
-- When the staging makes a call, and when it reports success.
use userfreezer.Prelude.{
  ◌≡◌, refl, Bool, true, false, ◌&&◌, List, [], ◌∷◌, inl, inr, ◌⊎◌, and-eq-true,
}
use userfreezer.Prelude.Text.{Text, codes, ◌==◌, eq→path}
use userfreezer.Core.Outcome.{
  Result, ok, err, value_error, runtime_error, ◌>>=◌, >>=-eq-ok, held_guard, passed_guard,
}
use userfreezer.Windows.Uwf.{
  Snapshot, Status, Lab, Command, protect, enable_filter, Staging, validate_volumes, is_persistent,
  inspect_uwf, is_configured, ready, require, permitted, confirm, enable_next, stage_from,
  stage_uwf_lab,
}

-- What held when the first call was made.
pub record IsCleared (enabled : Bool) (lab : Lab) (target persistent : Text) : Type 0 where
  pub wanted : enabled ≡ true
  pub system : target ≡ codes "C:"
  pub data_volume : is_persistent persistent ≡ true
  pub snapshot : Snapshot
  pub status : Status
  pub inspected : inspect_uwf lab.machine lab.before target persistent ≡ ok (snapshot, status)
  pub clean : is_configured snapshot ≡ false

-- What holds of a staging that reports success: both calls were made and ended well, and the provider
-- has the filter and the volume set for the next boot.
pub record IsConfirmed (lab : Lab) (target persistent : Text) (calls : List Command) : Type 0 where
  pub made : calls ≡ protect target ∷ (enable_filter ∷ [])
  pub protected : lab.protects ≡ true
  pub enabled : lab.enables ≡ true
  pub snapshot : Snapshot
  pub status : Status
  pub inspected : inspect_uwf lab.machine lab.after target persistent ≡ ok (snapshot, status)
  pub next_boot : (snapshot.next_filter_enabled && snapshot.next_c_protected) ≡ true

require-ok : (b : Bool) (u : Unit {0}) → require b ≡ ok u → b ≡ true
require-ok true u h = refl
require-ok false u h = cc

permitted-ok : (b : Bool) (u : Unit {0}) → permitted b ≡ ok u → b ≡ true
permitted-ok true u h = refl
permitted-ok false u h = cc

IsCleared-ready :
    (enabled : Bool) (lab : Lab) (target persistent path : Text)
    → ready enabled lab target persistent ≡ ok path
    → IsCleared enabled lab target persistent
unfolding validate_volumes
IsCleared-ready enabled lab target persistent path h =
    let (u, one, h1) = >>=-eq-ok (validate_volumes target persistent) _ h in
    let (fits, same) =
      held_guard value_error (target == codes "C:" && is_persistent persistent) _ one in
    let (c, volume) = and-eq-true (target == codes "C:") _ fits in
    let (v, two, h2) = >>=-eq-ok (permitted enabled) _ h1 in
    let ((s, status), seen, h3) =
      >>=-eq-ok (inspect_uwf lab.machine lab.before target persistent) _ h2 in
    let (clean, found) = passed_guard runtime_error (is_configured s) _ h3 in
    record {
      wanted = permitted-ok enabled v two;
      system = eq→path target (codes "C:") c;
      data_volume = volume;
      snapshot = s;
      status = status;
      inspected = seen;
      clean = clean;
    }

module _ (lab : Lab) (target persistent : Text) where
  confirm-IsConfirmed :
      (u : Unit {0})
      → lab.protects ≡ true
      → (require lab.enables >>= λ done. confirm lab target persistent) ≡ ok u
      → IsConfirmed lab target persistent (protect target ∷ (enable_filter ∷ []))
  confirm-IsConfirmed u protected h =
      let (v, one, rest) = >>=-eq-ok (require lab.enables) _ h in
      let ((s, status), seen, last) =
        >>=-eq-ok (inspect_uwf lab.machine lab.after target persistent) _ rest in
      record {
        made = refl;
        protected = protected;
        enabled = require-ok lab.enables v one;
        snapshot = s;
        status = status;
        inspected = seen;
        next_boot = require-ok _ u last;
      }

  -- What a staging may end in: an error before any call or after the check, or success.
  abbrev pub Safe : Bool → Staging → Type 0
  Safe enabled (err e, calls) = (calls ≡ []) ⊎ IsCleared enabled lab target persistent
  Safe enabled (ok u, calls) =
      IsCleared enabled lab target persistent × IsConfirmed lab target persistent calls

  confirm-Safe :
      (enabled : Bool) (r : Result (Unit {0}))
      → lab.protects ≡ true
      → IsCleared enabled lab target persistent
      → (require lab.enables >>= λ done. confirm lab target persistent) ≡ r
      → Safe enabled (r, protect target ∷ (enable_filter ∷ []))
  confirm-Safe enabled (err e) protected cleared h = inr cleared
  confirm-Safe enabled (ok u) protected cleared h = (cleared, confirm-IsConfirmed u protected h)

  enable_next-Safe :
      (enabled : Bool) (r : Result (Unit {0}))
      → require lab.protects ≡ r
      → IsCleared enabled lab target persistent
      → Safe enabled (enable_next lab target persistent r)
  enable_next-Safe enabled (err e) same cleared = inr cleared
  enable_next-Safe enabled (ok v) same cleared =
      confirm-Safe enabled (require lab.enables >>= λ done. confirm lab target persistent)
        (require-ok lab.protects v same) cleared refl

  stage_from-Safe :
      (enabled : Bool) (r : Result Text)
      → ((path : Text) → r ≡ ok path → IsCleared enabled lab target persistent)
      → Safe enabled (stage_from lab target persistent r)
  stage_from-Safe enabled (err e) cleared = inl refl
  stage_from-Safe enabled (ok path) cleared =
      enable_next-Safe enabled (require lab.protects) refl (cleared path refl)

-- A staging that fails has made no call of uwfmgr.exe, or it was enabled, C: and a volume from D: to
-- Z: were named, and the provider had nothing configured. One that succeeds was enabled for such
-- volumes and such a provider, has made both calls in order, which ended well, and the provider has the
-- filter and the volume set for the next boot.
pub stage_uwf_lab-Safe :
    (enabled : Bool) (lab : Lab) (target persistent : Text)
    → Safe lab target persistent enabled (stage_uwf_lab enabled lab target persistent)
unfolding stage_uwf_lab
stage_uwf_lab-Safe enabled lab target persistent =
    stage_from-Safe lab target persistent enabled (ready enabled lab target persistent)
      (IsCleared-ready enabled lab target persistent)
