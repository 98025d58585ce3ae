-- ===== src/Ledger/Execute.antt =====
-- nt_commit_checkpoint_experimental.py: `apply_checkpointed_plan_experimental`, from the check for
-- orphaned markers on. How each effect ends is an input, so that a crash may fall anywhere.
use userfreezer.Prelude.{ℕ, zero, suc, ◌+◌, Option, none, some, List, [], ◌∷◌, if◌then◌else◌}
use userfreezer.Prelude.Text.{Text, codes}
use userfreezer.Prelude.Json.{Json}
use userfreezer.Ledger.Files.{
  Name, intent, complete, started, done, Files, has_file, marker, is_orphaned,
}

-- How an effect on the disk ends. A creation may raise and leave a file, with anything in it; an
-- operation on the target may raise and have changed part of it.
pub data Effect : Type 0 where
  happens : Effect
  raises : Option Text → Effect

-- How the call ends. A list of effects that is used up is the death of the process.
pub data End : Type 0 where
  returned pending killed store_failed : End
  partial : ℕ → End

-- The store's files of the root, and how many operations of the plan have been begun on the target.
pub record World : Type 0 where
  pub files : Files
  pub begun : ℕ

abbrev pub add_file : Name → Text → World → World
add_file name bytes w = record { files = (name, bytes) ∷ w.files; begun = w.begun }

-- What a creation that raises leaves.
abbrev pub add_left : Name → Option Text → World → World
add_left name none w = w
add_left name (some bytes) w = add_file name bytes w

-- `_write_verified`, and what follows it. FILE_CREATE fails where the name exists.
abbrev pub created :
    Name → Text → End → (List Effect → World → End × World) → List Effect → World → End × World
created name bytes failed next [] w = (killed, w)
created name bytes failed next (e ∷ es) w = if has_file w.files name then (failed, w) else elim e [
  | happens ↦ next es (add_file name bytes w)
  | raises left ↦ (failed, add_left name left w)
]

-- `apply_enrolled_plan_experimental` of one step, and what follows it.
abbrev pub applied : End → (List Effect → World → End × World) → List Effect → World → End × World
applied failed next [] w = (killed, w)
applied failed next (e ∷ es) w =
    let w' : World = record w { begun = w.begun + 1 } in
    elim e [ happens ↦ next es w' | raises left ↦ (failed, w') ]

module _ (dumps : Json → Text) (digest : Text) where
  -- The loop over the operations, of which `left` remain, and the end of the call.
  unfoldable pub execute_steps : ℕ → ℕ → List Effect → World → End × World
  execute_steps index zero es w =
      created complete (marker dumps index (codes "complete") digest) (partial index)
        (λ rest w'. (returned, w')) es w
  execute_steps index (suc left) es w =
      created (started index) (marker dumps index (codes "started") digest) (partial index)
        (applied (partial index) (
          created (done index) (marker dumps index (codes "done") digest) (partial index)
            (execute_steps (suc index) left)))
        es w

  -- The whole call, for a plan of `total` operations with this intent. Where the creation of INTENT
  -- fails since there is one, the error is the one of a pending commit.
  unfoldable pub execute : Text → ℕ → List Effect → World → End × World
  execute bytes total es w =
      if is_orphaned w.files
      then (pending, w)
      else if has_file w.files intent
      then (pending, w)
      else created intent bytes store_failed (execute_steps 0 total) es w
