-- ===== src/Nt/Root.antt =====
-- nt_enrollment_experimental.py: `_canonical_root`, which accepts a root as a path on a drive, in normal form.
-- `ntpath.normcase` asks Windows how to fold the letters of other alphabets, and is a parameter.
use mathlib.Core.List.{reverse}
use userfreezer.Prelude.{
  ℕ, Bool, true, false, not, ◌&&◌, ◌||◌, List, [], ◌∷◌, if◌then◌else◌, ltb, leb, nat_eq, length,
  foldl, keep_if,
}
use userfreezer.Prelude.Text.{Text, codes, ◌==◌, split, join, starts_with, contains, slash}
use userfreezer.Core.Outcome.{Result, ok, ◌>>=◌}
use userfreezer.Core.RelPath.{backslash}
use userfreezer.Plan.{invalid, validate_all}

abbrev is_letter : ℕ → Bool
is_letter c = (leb 65 c && leb c 90) || (leb 97 c && leb c 122)

abbrev colon : ℕ
colon = b':'

-- The part after the drive, which starts with a backslash.
unfoldable pub root_tail : Text → Result Text
root_tail (c ∷ (d ∷ tail)) =
    if nat_eq d colon && is_letter c && starts_with tail (backslash ∷ []) then ok tail else invalid
root_tail _ = invalid

-- One component for `ntpath.normpath`; the stack has its top at the head. Above the root of a drive
-- is nothing.
abbrev pub pop : List Text → List Text
pop [] = []
pop (q ∷ stack) = stack

abbrev pub resolve : List Text → Text → List Text
resolve stack p =
    if p == [] || p == codes "." then stack else if p == codes ".." then pop stack else p ∷ stack

-- What `ntpath.normpath` makes of the tail.
unfoldable pub normal_tail : Text → Text
normal_tail tail = backslash ∷ join backslash (reverse (foldl resolve [] (split backslash tail)))

abbrev pub is_named : Text → Bool
is_named p = not (p == [])

abbrev pub is_volume : List Text → Bool
is_volume [] = true
is_volume (p ∷ ps) = false

unfoldable pub canonical_root : (Text → Text) → Text → Result Text
canonical_root normcase root =
    if root == [] || ltb 2048 (length root)
    then invalid
    else root_tail root >>= λ tail.
        if contains root slash || not (normal_tail tail == tail)
        then invalid
        else let parts = keep_if is_named (split backslash tail) in
          if is_volume parts then invalid else validate_all parts >>= λ checked. ok (normcase root)
