-- ===== src/Core/RelPath.antt =====
-- deepfreezer.py: `_norm`, which cuts a caller's path into components, and `_commit_parts`.
pub mod Safety
use userfreezer.Prelude.{
  ℕ, Bool, true, false, not, ◌&&◌, ◌||◌, List, [], ◌∷◌, any_of, keep_if, if◌then◌else◌, nat_eq, leb,
}
use userfreezer.Prelude.Text.{
  Text, codes, ◌==◌, replace, strip, lstrip_by, split, starts_with, contains, slash,
}
use userfreezer.Core.Outcome.{Result, ok, err, deep_freeze}

abbrev pub backslash : ℕ
backslash = 92

abbrev pub invalid_path : Result (List Text)
invalid_path = err (deep_freeze "caminho relativo invalido")

-- `p not in ("", ".")`
abbrev pub is_component : Text → Bool
is_component p = not (p == []) && not (p == codes ".")

-- The part after the early return. `rel in ("/", "\\")` is kept, though `lstrip` rules it out.
unfoldable pub norm_parts : Text → Result (List Text)
norm_parts rel =
    let parts = keep_if is_component (split slash rel) in
    if any_of (λ p. p == codes "..") parts || rel == codes "/" || rel == (backslash ∷ [])
    then invalid_path
    else ok parts

unfoldable pub norm : Text → Result (List Text)
norm rel =
    let cut = lstrip_by (λ c. nat_eq c slash) (strip (replace backslash slash rel)) in
    if cut == [] then ok [] else norm_parts cut

abbrev pub is_letter : ℕ → Bool
is_letter c = (leb b'a' c && leb c b'z') || (leb b'A' c && leb c b'Z')

-- `ntpath.splitdrive(path)[0]` is not empty: after the replacement of backslashes and the test for
-- a leading slash, only the form `X:` is left, with any character before the colon.
abbrev pub has_drive : Text → Bool
has_drive (c ∷ d ∷ rest) = nat_eq d b':'
has_drive _ = false

abbrev pub is_ambiguous : Text → Bool
is_ambiguous p = p == [] || p == codes "." || p == codes ".."

abbrev pub commit_error : Result (List Text)
commit_error = err (deep_freeze "caminho de commit invalido")

-- `_commit_parts` where `os.name` is not "nt"
unfoldable pub commit_parts : Text → Result (List Text)
commit_parts rel =
    let path = replace backslash slash rel in
    if rel == [] || contains rel 0
    then commit_error
    else if starts_with path (slash ∷ []) || has_drive path
    then err (deep_freeze "caminho absoluto nao permitido no commit")
    else if any_of is_ambiguous (split slash path)
    then err (deep_freeze "componente de caminho invalido no commit")
    else ok (split slash path)
