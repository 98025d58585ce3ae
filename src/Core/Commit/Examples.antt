-- ===== src/Core/Commit/Examples.antt =====
-- A commit of one written file into an empty target.
use userfreezer.Prelude.{ℕ, ◌≡◌, ◌≢◌, ap, Option, none, some, [], ◌∷◌, inl, arith}
use userfreezer.Prelude.Text.{Text, codes, ◌==◌, contains, starts_with, replace, split}
use userfreezer.Core.Types.{written, Ops}
use userfreezer.Core.RelPath.{commit_parts}
use userfreezer.Core.Commit.{directory, Tree, apply_commit}
use userfreezer.Core.Commit.Local.{AllApart, apply_commit-spares}

abbrev a : Text
a = codes "a"

abbrev c : Text
c = codes "c"

abbrev target : Tree
target [] = some directory
target (p ∷ ps) = none

abbrev payload : Text → Option Text
payload rel = some c

abbrev ops : Ops
ops = (a, record { seq = 1; kind = written; d = 0 }) ∷ []

abbrev first : Text → ℕ
first [] = 0
first (x ∷ xs) = x

a_ne_c : a ≢ c
a_ne_c e = omega (arith, ap first e)

ops_apart : AllApart (c ∷ []) ops
unfolding commit_parts ◌==◌ contains starts_with replace split
ops_apart = (inl a_ne_c, tt)

apply_commit-spares_example : (apply_commit payload ops target).1 (c ∷ []) ≡ target (c ∷ [])
apply_commit-spares_example = apply_commit-spares (c ∷ []) payload ops target ops_apart
