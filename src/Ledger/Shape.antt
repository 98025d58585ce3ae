-- ===== src/Ledger/Shape.antt =====
-- Ledgers with `a` STARTED files and `d` DONE files, both from index 0 on, and what the inspector's
-- loop counts in them.
use userfreezer.Prelude.{
  ℕ, zero, suc, ◌+◌, ◌≤◌, ◌≡◌, ◌&&◌, ◌||◌, none, some, ◌∷◌, if◌then◌else◌, nat_eq_iff, ltb, arith,
}
use Prim.Native.Nat.{min}
use mathlib.Core.Path.{subst}
use userfreezer.Prelude.Text.{Text}
use userfreezer.Prelude.Json.{Json}
use userfreezer.Core.Outcome.{ok, >>=-eq-ok, ok-injective}
use userfreezer.Ledger.Files.{Name, started, done, Files, read_optional, has_file, same_name}
use userfreezer.Ledger.Inspect.{Progress, inspect_step, inspect_steps}

pub record IsShape (files : Files) (a d : ℕ) : Type 0 where
  pub starts : (j : ℕ) → has_file files (started j) ≡ ltb j a
  pub ends : (j : ℕ) → has_file files (done j) ≡ ltb j d

pub has_file-add :
    (files : Files) (n m : Name) (x : Text)
    → has_file ((n, x) ∷ files) m ≡ (same_name n m || has_file files m)
unfolding has_file read_optional
has_file-add files n m x = ground arith

pub IsShape-started :
    (files : Files) (a d : ℕ) (x : Text)
    → IsShape files a d
    → IsShape ((started a, x) ∷ files) (suc a) d
IsShape-started files a d x s = record {
  starts = λ j. rw has_file-add (ground (arith, s.starts j, nat_eq_iff a j));
  ends = λ j. rw has_file-add (s.ends j);
}

pub IsShape-done :
    (files : Files) (a d : ℕ) (x : Text)
    → IsShape files a d
    → IsShape ((done d, x) ∷ files) a (suc d)
IsShape-done files a d x s = record {
  starts = λ j. rw has_file-add (s.starts j);
  ends = λ j. rw has_file-add (ground (arith, s.ends j, nat_eq_iff d j));
}

-- What the loop has counted before index `i`.
pub record Counted (a d i : ℕ) (p : Progress) : Type 0 where
  pub number : p.completed ≡ min i d
  pub current : p.active ≡ (if ltb d a && ltb d i then some d else none)

module _ (dumps : Json → Text) (files : Files) (digest : Text) (a d : ℕ)
    (s : IsShape files a d) where
  inspect_step-Counted :
      (i : ℕ) (p q : Progress)
      → d ≤ a
      → a ≤ suc d
      → Counted a d i p
      → inspect_step dumps files digest i p ≡ ok q
      → Counted a d (suc i) q
  unfolding inspect_step has_file
  inspect_step-Counted i p q le gap c h = record {
    number = ground (arith, s.starts i, s.ends i, c.number, c.current, h);
    current = ground (arith, s.starts i, s.ends i, c.number, c.current, h);
  }

  pub inspect_steps-Counted :
      (left i : ℕ) (p q : Progress)
      → d ≤ a
      → a ≤ suc d
      → Counted a d i p
      → inspect_steps dumps files digest i left p ≡ ok q
      → Counted a d (i + left) q
  unfolding inspect_steps
  inspect_steps-Counted zero i p q le gap c h =
      subst (λ n. Counted a d n q) (omega arith) (subst (Counted a d i) (ok-injective p q h) c)
  inspect_steps-Counted (suc left) i p q le gap c h =
      let (r, one, rest) =
        >>=-eq-ok (inspect_step dumps files digest i p)
          (inspect_steps dumps files digest (suc i) left) h in
      subst (λ n. Counted a d n q) (omega arith)
        (inspect_steps-Counted left (suc i) r q le gap (inspect_step-Counted i p r le gap c one)
          rest)
