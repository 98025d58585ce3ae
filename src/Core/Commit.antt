-- ===== src/Core/Commit.antt =====
-- deepfreezer.py: `_apply_commit` on POSIX, which writes the operations of the overlay to the target.
-- The target is a map from paths to nodes. A temporary file that is renamed to its name, or removed
-- on an error, is not modelled.
pub mod Local
mod Examples
use userfreezer.Prelude.{
  ℕ, Bool, true, false, not, ◌&&◌, ◌||◌, Option, none, some, List, [], ◌∷◌, ◌++◌, if◌then◌else◌,
  nat_eq, leb, any_of,
}
use userfreezer.Prelude.Text.{Text, ◌==◌}
use userfreezer.Prelude.Dict.{Dict}
use userfreezer.Core.Types.{Kind, written, made, deleted, unknown, Op, Ops}
use userfreezer.Core.Outcome.{Result, ok, err, Error, deep_freeze, file_not_found, os_error, ◌>>=◌}
use userfreezer.Core.RelPath.{commit_parts}
use userfreezer.Core.Classify.{prefixes}

-- What stands at a path, a symbolic link itself and not what it leads to.
pub data Node : Type 0 where
  file : Text → Node
  directory link : Node

abbrev pub Tree : Type 0
Tree = List Text → Option Node

unfoldable pub same_path : List Text → List Text → Bool
same_path [] [] = true
same_path [] (y ∷ ys) = false
same_path (x ∷ xs) [] = false
same_path (x ∷ xs) (y ∷ ys) = x == y && same_path xs ys

-- The second path is the first or below it.
unfoldable pub is_under : List Text → List Text → Bool
is_under [] ys = true
is_under (x ∷ xs) [] = false
is_under (x ∷ xs) (y ∷ ys) = x == y && is_under xs ys

abbrev pub put : List Text → Node → Tree → Tree
put path node t q = if same_path path q then some node else t q

-- `_remove_tree_fd` and `rmdir`, or `unlink`
abbrev pub clear : List Text → Tree → Tree
clear path t q = if is_under path q then none else t q

abbrev pub is_link : Option Node → Bool
is_link (some link) = true
is_link _ = false

abbrev pub is_file : Option Node → Bool
is_file (some (file bytes)) = true
is_file _ = false

abbrev pub link_refused : Result (Unit {0})
link_refused = err (deep_freeze "link/reparse point nao permitido")

-- The loop of `_check_commit_path`, below `at`: `os.lstat` raises NotADirectoryError below a file.
unfoldable pub check_below : Tree → List Text → List Text → Result (Unit {0})
check_below t at [] = ok tt
check_below t at (p ∷ parts) =
    let here = at ++ (p ∷ []) in
    let rest = check_below t here parts in
    if is_file (t at) then err os_error else if is_link (t here) then link_refused else rest

-- `_check_commit_path`: no link on the way, from the target to the path itself.
unfoldable pub check_commit_path : Tree → List Text → Result (Unit {0})
check_commit_path t parts = if is_link (t []) then link_refused else check_below t [] parts

abbrev pub Step : Type 0
Step = Tree → Result (Unit {0}) × Tree

-- One turn of the loop of `_commit_parent_fd`: `here` is opened as a directory without following a
-- link, and made where it is missing and wanted.
abbrev pub enter : Bool → List Text → Step → Option Node → Step
enter create here next (some directory) t = next t
enter true here next none t = next (put here directory t)
enter false here next none t = (err file_not_found, t)
enter create here next (some _) t = (err os_error, t)

-- `_commit_parent_fd`, from the opened directory `at` on
unfoldable pub open_parent : Bool → List Text → List Text → Step
open_parent create at [] t = (ok tt, t)
open_parent create at (p ∷ []) t = (ok tt, t)
open_parent create at (p ∷ (q ∷ rest)) t =
    let here = at ++ (p ∷ []) in enter create here (open_parent create here (q ∷ rest)) (t here) t

abbrev pub replace_file : List Text → Text → Option Node → Step
replace_file parts bytes (some directory) t = (err os_error, t)
replace_file parts bytes _ t = (ok tt, put parts (file bytes) t)

abbrev pub make_directory : List Text → Option Node → Step
make_directory parts none t = (ok tt, put parts directory t)
make_directory parts (some directory) t = (ok tt, t)
make_directory parts (some _) t = (err os_error, t)

abbrev pub delete : List Text → Bool → Option Node → Step
delete parts is_dir none t = (ok tt, t)
delete parts true (some directory) t = (ok tt, clear parts t)
delete parts true (some _) t = (err os_error, t)
delete parts false (some directory) t = (err os_error, t)
delete parts false (some _) t = (ok tt, clear parts t)

-- The body after the parent is open. `bytes` is the payload, `none` where it cannot be read.
abbrev pub change : List Text → Kind → ℕ → Option Text → Step
change parts written d none t = (err file_not_found, t)
change parts written d (some bytes) t = replace_file parts bytes (t parts) t
change parts made d bytes t = make_directory parts (t parts) t
change parts deleted d bytes t = delete parts (not (nat_eq d 0)) (t parts) t
change parts (unknown k) d bytes t = (ok tt, t)

abbrev pub is_creating : Kind → Bool
is_creating written = true
is_creating made = true
is_creating _ = false

abbrev pub is_absence : Error → Bool
is_absence file_not_found = true
is_absence _ = false

abbrev pub is_deletion : Kind → Bool
is_deletion deleted = true
is_deletion _ = false

abbrev pub checked_change : List Text → Kind → ℕ → Option Text → Result (Unit {0}) → Step
checked_change parts kind d bytes (err e) t = (err e, t)
checked_change parts kind d bytes (ok u) t = change parts kind d bytes t

abbrev pub with_parent :
    List Text → Kind → ℕ → Option Text → Result (Unit {0}) × Tree → Result (Unit {0}) × Tree
with_parent parts kind d bytes (err e, t) =
    if is_deletion kind && is_absence e then (ok tt, t) else (err e, t)
with_parent parts kind d bytes (ok u, t) =
    checked_change parts kind d bytes (check_commit_path t parts) t

-- `_commit_posix`
unfoldable pub commit_posix : List Text → Kind → ℕ → Option Text → Step
commit_posix parts kind d bytes t =
    with_parent parts kind d bytes (open_parent (is_creating kind) [] parts t)

-- An operation with its path cut into components.
pub record Prepared : Type 0 where
  pub parts : List Text
  pub kind : Kind
  pub d : ℕ
  pub bytes : Option Text

abbrev pub known_kind : Kind → Result (Unit {0})
known_kind (unknown k) = err (deep_freeze "operacao invalida no commit")
known_kind _ = ok tt

-- The first loop, which checks everything before anything is changed.
unfoldable pub prepare : (Text → Option Text) → Tree → Ops → Result (List Prepared)
prepare payload t [] = ok []
prepare payload t ((rel, op) ∷ ops) = do
  known ← known_kind op.kind
  parts ← commit_parts rel
  free ← check_commit_path t parts
  rest ← prepare payload t ops
  ok (record { parts = parts; kind = op.kind; d = op.d; bytes = payload rel } ∷ rest)

abbrev pub then_commit : Result (Unit {0}) × Tree → Step → Result (Unit {0}) × Tree
then_commit (err e, t) next = (err e, t)
then_commit (ok u, t) next = next t

abbrev pub commit_checked : Prepared → Result (Unit {0}) → Step
commit_checked p (err e) t = (err e, t)
commit_checked p (ok u) t = commit_posix p.parts p.kind p.d p.bytes t

abbrev pub commit_one : Prepared → Step
commit_one p t = commit_checked p (check_commit_path t p.parts) t

-- The second loop.
unfoldable pub commit_all : List Prepared → Step
commit_all [] t = (ok tt, t)
commit_all (p ∷ ps) t = then_commit (commit_one p t) (commit_all ps)

-- `sorted(..., key=lambda kv: kv[1][0])`, which keeps the order of equal keys
unfoldable pub insert_op : Text × Op → Ops → Ops
insert_op e [] = e ∷ []
insert_op e (f ∷ ops) =
    let rest = insert_op e ops in if leb e.1.seq f.1.seq then e ∷ f ∷ ops else f ∷ rest

unfoldable pub by_seq : Ops → Ops
by_seq [] = []
by_seq (e ∷ ops) = insert_op e (by_seq ops)

abbrev pub commit_prepared : Result (List Prepared) → Step
commit_prepared (err e) t = (err e, t)
commit_prepared (ok ps) t = commit_all ps t

-- `_apply_commit`
unfoldable pub apply_commit : (Text → Option Text) → Ops → Step
apply_commit payload ops t = commit_prepared (prepare payload t (by_seq ops)) t
