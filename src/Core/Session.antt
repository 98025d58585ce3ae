-- ===== src/Core/Session.antt =====
-- A session: the changing operations of deepfreezer.py in any order, with any arguments and any end of
-- what they write. The caller goes on after an error, from the state that the operation left.
use userfreezer.Prelude.{◌≡◌, refl, ◌∙◌, Bool, true, false, List, [], ◌∷◌, arith, inl, inr, ◌⊎◌}
use userfreezer.Prelude.Text.{Text}
use userfreezer.Core.Outcome.{Result, ok, err, Error}
use userfreezer.Core.Instance.{DeepFreezer, journal, set_op, Storing, stored, unplaced, unjournaled}
use userfreezer.Core.Api.{
  Target, write_with, write_at_with, mkdirs_with, make_at_with, remove_with, remove_at_with,
}

pub Result-cases :
    {A : Type 0} (r : Result A) → ((a : A) × (r ≡ ok a)) ⊎ ((e : Error) × (r ≡ err e))
Result-cases (ok a) = inl (a, refl)
Result-cases (err e) = inr (e, refl)

-- The append to the journal does not raise.
abbrev pub lands : Storing → Bool
lands stored = true
lands unplaced = true
lands (unjournaled left) = false

module _ (T : Target) where
  -- The operations leave the manifest alone.
  write-manifest :
      (io : Storing) (s : DeepFreezer) (rel bytes : Text)
      → (write_with io rel bytes s).1.manifest ≡ s.manifest
  unfolding write_with write_at_with journal set_op
  write-manifest io s rel bytes = ground arith

  mkdirs-manifest :
      (io : Storing) (s : DeepFreezer) (rel : Text)
      → (mkdirs_with T io rel s).1.manifest ≡ s.manifest
  unfolding mkdirs_with make_at_with journal set_op
  mkdirs-manifest io s rel = ground arith

  remove-manifest :
      (io : Storing) (s : DeepFreezer) (rel : Text)
      → (remove_with T io rel s).1.manifest ≡ s.manifest
  unfolding remove_with remove_at_with journal set_op
  remove-manifest io s rel = ground arith

-- One call of an operation, and how what it writes is stored.
pub data Action : Type 0 where
  writes : Storing → Text → Text → Action
  makes removes : Storing → Text → Action

abbrev pub action_lands : Action → Bool
action_lands (writes io rel bytes) = lands io
action_lands (makes io rel) = lands io
action_lands (removes io rel) = lands io

module _ (T : Target) where
  unfoldable pub act : Action → DeepFreezer → DeepFreezer
  act (writes io rel bytes) s = (write_with io rel bytes s).1
  act (makes io rel) s = (mkdirs_with T io rel s).1
  act (removes io rel) s = (remove_with T io rel s).1

  unfoldable pub session : List Action → DeepFreezer → DeepFreezer
  session [] s = s
  session (a ∷ actions) s = session actions (act a s)

  act-manifest : (a : Action) (s : DeepFreezer) → (act a s).manifest ≡ s.manifest
  unfolding act
  act-manifest (writes io rel bytes) s = write-manifest T io s rel bytes
  act-manifest (makes io rel) s = mkdirs-manifest T io s rel
  act-manifest (removes io rel) s = remove-manifest T io s rel

  pub session-manifest :
      (actions : List Action) (s : DeepFreezer) → (session actions s).manifest ≡ s.manifest
  unfolding session
  session-manifest [] s = refl
  session-manifest (a ∷ actions) s = session-manifest actions (act a s) ∙ act-manifest a s
