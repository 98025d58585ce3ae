-- ===== src/Ledger/Reached.antt =====
-- How far a run of the executor came, from the files that it leaves.
use mathlib.Core.Path.{subst}
use userfreezer.Prelude.{
  ℕ, zero, suc, ◌+◌, ◌≤◌, ◌<◌, ◌≡◌, refl, false, ◌⊎◌, inl, inr, none, some, List, [], ◌∷◌, arith,
}
use userfreezer.Prelude.Text.{Text}
use userfreezer.Prelude.Json.{Json}
use userfreezer.Ledger.Files.{intent, complete, started, done, read_optional, has_file, is_orphaned}
use userfreezer.Ledger.Execute.{Effect, happens, raises, World, add_file, execute_steps, execute}
use userfreezer.Ledger.Shape.{IsShape, has_file-add, IsShape-started, IsShape-done}

abbrev pub fresh_store : World
fresh_store = record { files = []; begun = 0 }

-- How far a run came: `a` operations announced and `d` confirmed.
pub record IsReached (bytes : Text) (total : ℕ) (w : World) (a d : ℕ) : Type 0 where
  pub shape : IsShape w.files a d
  pub confirmed : d ≤ w.begun
  pub announced : w.begun ≤ a
  pub gap : a ≤ suc d
  pub bound : a ≤ total
  pub origin :
      ((a ≡ 0) × (has_file w.files complete ≡ false))
      ⊎ ((read_optional w.files intent ≡ some bytes)
          × ((has_file w.files complete ≡ false) ⊎ (d ≡ total)))

abbrev pub Reached : Text → ℕ → World → Type 0
Reached bytes total w = (a : ℕ) × (d : ℕ) × IsReached bytes total w a d

-- Between two operations of the loop.
pub record IsAt (bytes : Text) (total : ℕ) (w : World) (i : ℕ) : Type 0 where
  pub shape : IsShape w.files i i
  pub begun : w.begun ≡ i
  pub bound : i ≤ total
  pub source : read_optional w.files intent ≡ some bytes
  pub unfinished : has_file w.files complete ≡ false

module _ (dumps : Json → Text) (digest bytes : Text) (total : ℕ) where
  at-Reached : (w : World) (i : ℕ) → IsAt bytes total w i → Reached bytes total w
  at-Reached w i h = (
    i,
    i,
    record {
      shape = h.shape;
      confirmed = omega (arith, h.begun);
      announced = omega (arith, h.begun);
      gap = omega arith;
      bound = h.bound;
      origin = inr (h.source, inl h.unfinished);
    },
  )

  -- The world after STARTED, and the one after the beginning of the operation.
  abbrev started_world : World → ℕ → Text → World
  started_world w i x = add_file (started i) x w

  abbrev begun_world : World → ℕ → Text → World
  begun_world w i x = record (add_file (started i) x w) { begun = w.begun + 1 }

  abbrev done_world : World → ℕ → Text → Text → World
  done_world w i x y = add_file (done i) y (begun_world w i x)

  started-Reached :
      (w : World) (i : ℕ) (x : Text)
      → i < total
      → IsAt bytes total w i
      → Reached bytes total (started_world w i x)
  unfolding read_optional
  started-Reached w i x room h = (
    suc i,
    i,
    record {
      shape = IsShape-started w.files i i x h.shape;
      confirmed = omega (arith, h.begun);
      announced = omega (arith, h.begun);
      gap = omega arith;
      bound = omega arith;
      origin = inr (h.source, inl (rw has_file-add h.unfinished));
    },
  )

  begun-Reached :
      (w : World) (i : ℕ) (x : Text)
      → i < total
      → IsAt bytes total w i
      → Reached bytes total (begun_world w i x)
  unfolding read_optional
  begun-Reached w i x room h = (
    suc i,
    i,
    record {
      shape = IsShape-started w.files i i x h.shape;
      confirmed = omega (arith, h.begun);
      announced = omega (arith, h.begun);
      gap = omega arith;
      bound = omega arith;
      origin = inr (h.source, inl (rw has_file-add h.unfinished));
    },
  )

  done-IsAt :
      (w : World) (i : ℕ) (x y : Text)
      → i < total
      → IsAt bytes total w i
      → IsAt bytes total (done_world w i x y) (suc i)
  unfolding read_optional
  done-IsAt w i x y room h = record {
    shape = IsShape-done _ (suc i) i y (IsShape-started w.files i i x h.shape);
    begun = omega (arith, h.begun);
    bound = omega arith;
    source = h.source;
    unfinished = rw has_file-add (rw has_file-add h.unfinished);
  }

  complete-Reached :
      (w : World) (x : Text)
      → IsAt bytes total w total
      → Reached bytes total (add_file complete x w)
  unfolding read_optional
  complete-Reached w x h = (
    total,
    total,
    record {
      shape = record {
        starts = λ j. rw has_file-add (h.shape.starts j);
        ends = λ j. rw has_file-add (h.shape.ends j);
      };
      confirmed = omega (arith, h.begun);
      announced = omega (arith, h.begun);
      gap = omega arith;
      bound = omega arith;
      origin = inr (h.source, inr refl);
    },
  )

  no-start : (w : World) (i : ℕ) → IsAt bytes total w i → has_file w.files (started i) ≡ false
  no-start w i h = ground (arith, h.shape.starts i)

  no-done :
      (w : World) (i : ℕ) (x : Text)
      → IsAt bytes total w i
      → has_file (begun_world w i x).files (done i) ≡ false
  no-done w i x h = rw has_file-add (ground (arith, h.shape.ends i))

  steps-Reached :
      (left i : ℕ) (w : World) (es : List Effect)
      → i + left ≡ total
      → IsAt bytes total w i
      → Reached bytes total (execute_steps dumps digest i left es w).1
  unfolding execute_steps
  steps-Reached zero i w [] e h = at-Reached w i h
  steps-Reached zero i w (happens ∷ es) e h =
      rw h.unfinished (complete-Reached w _ (subst (IsAt bytes total w) (omega arith) h))
  steps-Reached zero i w (raises none ∷ es) e h = rw h.unfinished (at-Reached w i h)
  steps-Reached zero i w (raises (some x) ∷ es) e h =
      rw h.unfinished (complete-Reached w x (subst (IsAt bytes total w) (omega arith) h))
  steps-Reached (suc left) i w [] e h = at-Reached w i h
  steps-Reached (suc left) i w (raises none ∷ es) e h = rw (no-start w i h) (at-Reached w i h)
  steps-Reached (suc left) i w (raises (some x) ∷ es) e h =
      rw (no-start w i h) (started-Reached w i x (omega arith) h)
  steps-Reached (suc left) i w (happens ∷ []) e h =
      rw (no-start w i h) (started-Reached w i _ (omega arith) h)
  steps-Reached (suc left) i w (happens ∷ (raises l ∷ es)) e h =
      rw (no-start w i h) (begun-Reached w i _ (omega arith) h)
  steps-Reached (suc left) i w (happens ∷ (happens ∷ [])) e h =
      rw (no-start w i h) (begun-Reached w i _ (omega arith) h)
  steps-Reached (suc left) i w (happens ∷ (happens ∷ (raises none ∷ es))) e h =
      rw (no-start w i h, no-done w i _ h) (begun-Reached w i _ (omega arith) h)
  steps-Reached (suc left) i w (happens ∷ (happens ∷ (raises (some x) ∷ es))) e h =
      rw (no-start w i h, no-done w i _ h)
        (at-Reached _ (suc i) (done-IsAt w i _ x (omega arith) h))
  steps-Reached (suc left) i w (happens ∷ (happens ∷ (happens ∷ es))) e h =
      rw (no-start w i h, no-done w i _ h)
        (steps-Reached left (suc i) _ es (omega arith) (done-IsAt w i _ _ (omega arith) h))

  nothing-Shape : (x : Text) → IsShape ((intent, x) ∷ []) 0 0
  unfolding has_file read_optional
  nothing-Shape x = record { starts = λ j. ground arith; ends = λ j. ground arith }

  empty-Shape : IsShape [] 0 0
  unfolding has_file read_optional
  empty-Shape = record { starts = λ j. ground arith; ends = λ j. ground arith }

  empty-Reached : Reached bytes total fresh_store
  unfolding has_file read_optional
  empty-Reached = (
    0,
    0,
    record {
      shape = empty-Shape;
      confirmed = omega arith;
      announced = omega arith;
      gap = omega arith;
      bound = omega arith;
      origin = inl (refl, refl);
    },
  )

  -- Whatever a failed creation of INTENT leaves, nothing has been begun.
  left-Reached : (x : Text) → Reached bytes total (add_file intent x fresh_store)
  unfolding has_file read_optional
  left-Reached x = (
    0,
    0,
    record {
      shape = nothing-Shape x;
      confirmed = omega arith;
      announced = omega arith;
      gap = omega arith;
      bound = omega arith;
      origin = inl (refl, refl);
    },
  )

  intent-IsAt : IsAt bytes total (add_file intent bytes fresh_store) 0
  unfolding has_file read_optional
  intent-IsAt = record {
    shape = nothing-Shape bytes;
    begun = refl;
    bound = omega arith;
    source = refl;
    unfinished = refl;
  }

  pub execute-Reached :
      (es : List Effect) → Reached bytes total (execute dumps digest bytes total es fresh_store).1
  unfolding execute is_orphaned has_file read_optional
  execute-Reached [] = empty-Reached
  execute-Reached (happens ∷ es) = steps-Reached total 0 _ es (omega arith) intent-IsAt
  execute-Reached (raises none ∷ es) = empty-Reached
  execute-Reached (raises (some x) ∷ es) = left-Reached x
