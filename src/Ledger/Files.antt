-- ===== src/Ledger/Files.antt =====
-- nt_commit_checkpoint_experimental.py: the files of a ledger in the store directory, and their contents.
use userfreezer.Prelude.{
  ℕ, Bool, true, false, not, Option, none, some, List, [], ◌∷◌, ◌++◌, if◌then◌else◌, nat_eq,
}
use userfreezer.Prelude.Text.{Text, codes, ◌==◌}
use userfreezer.Prelude.Json.{Json, num, str, obj, end, field}

-- A name in the store after the prefix of the root, `_ledger_prefix(root)`: ".intent",
-- ".%05d.started", ".%05d.done", ".complete", or another one with that prefix.
pub data Name : Type 0 where
  intent complete : Name
  started done : ℕ → Name
  other : Text → Name

abbrev pub same_name : Name → Name → Bool
same_name intent intent = true
same_name complete complete = true
same_name (started i) (started j) = nat_eq i j
same_name (done i) (done j) = nat_eq i j
same_name (other a) (other b) = a == b
same_name _ _ = false

-- The files of the store that belong to one root.
abbrev pub Files : Type 0
Files = List (Name × Text)

-- `_read_optional`, for files within its limit
unfoldable pub read_optional : Files → Name → Option Text
read_optional [] name = none
read_optional ((n, bytes) ∷ files) name =
    let rest = read_optional files name in if same_name n name then some bytes else rest

abbrev pub is_some {ℓ} : {A : Type ℓ} → Option A → Bool
is_some none = false
is_some (some a) = true

unfoldable pub has_file : Files → Name → Bool
has_file files name = is_some (read_optional files name)

-- `_marker`, with `json.dumps` as a parameter
unfoldable pub marker : (Json → Text) → ℕ → Text → Text → Text
marker dumps index kind digest =
    dumps (
      obj (
        field (codes "v") (num 1) (
          field (codes "index") (num index)
            (field (codes "kind") (str kind) (field (codes "intent_sha256") (str digest) end)))))
    ++ (10 ∷ [])

-- `assert_no_orphan_nt_commit_markers`: there are files of the root, and INTENT is none of them.
unfoldable pub is_orphaned : Files → Bool
is_orphaned [] = false
is_orphaned (e ∷ files) = not (has_file (e ∷ files) intent)
