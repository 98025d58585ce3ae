-- ===== src/Plan/Apply.antt =====
-- nt_commit_experimental.py: `apply_plan_experimental`. The calls of win32_relative_directory.py are made
-- on a handle, which is the list of the names it was opened through from the root. What a call answers
-- may depend on all calls before it, and on nothing else that the program sees. The token of a
-- temporary file and what opening the root gives are parameters. Only Windows is modelled, and
-- no `on_root_pinned`.
pub mod Confined
pub mod Done
mod Examples
use userfreezer.Prelude.{
  ℕ, Bool, true, false, not, ◌&&◌, ◌||◌, Option, none, some, List, [], ◌∷◌, ◌++◌, if◌then◌else◌,
  all_of, leb, nat_eq, length,
}
use userfreezer.Prelude.Text.{Text, codes, ◌==◌}
use userfreezer.Core.Outcome.{Result, ok, err, value_error, os_error, ◌>>=◌}
use userfreezer.Plan.{Item, CheckedItem, validate_plan}

-- The calls that take a handle, with the handle, the name and the bytes or the second name.
pub data Call : Type 0 where
  open_relative_directory create_relative_directory : List Text → Text → Call
  delete_relative_file remove_relative_tree : List Text → Text → Call
  create_relative_file : List Text → Text → Option Text → Call
  rename_relative_file : List Text → Text → Text → Call

-- An exception is `absent` if its winerror is 2 or 3.
pub data Answer : Type 0 where
  done absent failed : Answer

abbrev pub is_done : Answer → Bool
is_done done = true
is_done absent = false
is_done failed = false

-- How the call ends: with the paths that were completed, or a `PartialCommitError` with them
pub data End : Type 0 where
  returned partial_commit : List Text → End

abbrev pub temp_name : Text → Text
temp_name token = codes ".deepfreezer-" ++ (token ++ codes ".tmp")

-- `kind in ("W", "M")`
abbrev pub makes : Text → Bool
makes kind = kind == codes "W" || kind == codes "M"

-- The calls made so far, the last one first. A result is false where an exception was raised.
module _ (answer : List Call → Call → Answer) (token_hex : List Call → Text) where
  abbrev pub ask : Call → List Call → Bool × List Call
  ask c calls = (is_done (answer calls c), c ∷ calls)

  abbrev pub made : List Text → Text → Answer → List Call → Bool × List Call
  made parent name done calls = ask (open_relative_directory parent name) calls
  made parent name absent calls = (false, calls)
  made parent name failed calls = (false, calls)

  abbrev pub make_missing : List Text → Text → List Call → Bool × List Call
  make_missing parent name calls =
      let c = create_relative_directory parent name in made parent name (answer calls c) (c ∷ calls)

  abbrev pub entered : Text → List Text → Text → Answer → List Call → Bool × List Call
  entered kind parent name done calls = (true, calls)
  entered kind parent name failed calls = (false, calls)
  entered kind parent name absent calls =
      if makes kind then make_missing parent name calls else (false, calls)

  -- One turn of the loop over `parts[:-1]`
  abbrev pub enter : Text → List Text → Text → List Call → Bool × List Call
  enter kind parent name calls =
      let c = open_relative_directory parent name in
      entered kind parent name (answer calls c) (c ∷ calls)

  -- The temporary file is deleted, and the exception goes on.
  abbrev pub cleanup : List Text → Text → List Call → Bool × List Call
  cleanup parent temp calls = (false, delete_relative_file parent temp ∷ calls)

  abbrev pub renamed : List Text → Text → Answer → List Call → Bool × List Call
  renamed parent temp done calls = (true, calls)
  renamed parent temp absent calls = cleanup parent temp calls
  renamed parent temp failed calls = cleanup parent temp calls

  abbrev pub created : List Text → Text → Text → Answer → List Call → Bool × List Call
  created parent temp name done calls =
      let c = rename_relative_file parent temp name in
      renamed parent temp (answer calls c) (c ∷ calls)
  created parent temp name absent calls = cleanup parent temp calls
  created parent temp name failed calls = cleanup parent temp calls

  abbrev pub write_file : List Text → Text → Option Text → List Call → Bool × List Call
  write_file parent name payload calls =
      let temp = temp_name (token_hex calls) in
      let c = create_relative_file parent temp payload in
      created parent temp name (answer calls c) (c ∷ calls)

  abbrev pub kept : List Text → Text → Answer → List Call → Bool × List Call
  kept parent name done calls = (true, calls)
  kept parent name absent calls = ask (open_relative_directory parent name) calls
  kept parent name failed calls = ask (open_relative_directory parent name) calls

  abbrev pub make_directory : List Text → Text → List Call → Bool × List Call
  make_directory parent name calls =
      let c = create_relative_directory parent name in kept parent name (answer calls c) (c ∷ calls)

  -- What is done on the last name of a path
  abbrev pub act : Text → Option Text → List Text → Text → List Call → Bool × List Call
  act kind payload parent name calls =
      if kind == codes "W"
      then write_file parent name payload calls
      else if kind == codes "M"
      then make_directory parent name calls
      else if kind == codes "F"
      then ask (delete_relative_file parent name) calls
      else ask (remove_relative_tree parent name) calls

  -- The parts of a path from a handle on
  unfoldable pub walk : Text → Option Text → List Text → List Text → List Call → Bool × List Call
  walk kind payload parent [] calls = (false, calls)
  walk kind payload parent (name ∷ []) calls = act kind payload parent name calls
  walk kind payload parent (name ∷ (next ∷ parts)) calls =
      let r = enter kind parent name calls in
      let rest = walk kind payload (parent ++ (name ∷ [])) (next ∷ parts) r.1 in
      if r.0 then rest else (false, r.1)

  abbrev pub apply_item : CheckedItem → List Call → Bool × List Call
  apply_item i calls = walk i.kind i.payload [] i.parts calls

  unfoldable pub apply_items : List CheckedItem → List Text → List Call → End × List Call
  apply_items [] completed calls = (returned completed, calls)
  apply_items (i ∷ is) completed calls =
      let r = apply_item i calls in
      let rest = apply_items is (completed ++ (i.path ∷ [])) r.1 in
      if r.0 then rest else (partial_commit completed, r.1)

  abbrev pub is_identity : List ℕ → Bool
  is_identity ns = nat_eq (length ns) 3 && all_of (λ n. leb n 4294967295) ns

  abbrev pub is_same : List ℕ → List ℕ → Bool
  is_same a b = a == b

  -- The test of the identity and the loop, on the root that was opened
  abbrev pub on_root : Option (List ℕ) → Option (List ℕ) → List CheckedItem → Result End × List Call
  on_root none expected checked = (err os_error, [])
  on_root (some observed) none checked = let r = apply_items checked [] [] in (ok r.0, r.1)
  on_root (some observed) (some expected) checked =
      let r = apply_items checked [] [] in
      if is_same observed expected then (ok r.0, r.1) else (err os_error, [])

  abbrev pub on_plan :
      Option (List ℕ) → Option (List ℕ) → Result (List CheckedItem) → Result End × List Call
  on_plan root expected (err raised) = (err raised, [])
  on_plan root expected (ok checked) = on_root root expected checked

  abbrev pub is_expected : Option (List ℕ) → Bool
  is_expected none = true
  is_expected (some ns) = is_identity ns

  unfoldable pub apply_plan_experimental :
      (root expected : Option (List ℕ)) → List Item → Result End × List Call
  apply_plan_experimental root expected plan =
      if is_expected expected
      then on_plan root expected (validate_plan plan)
      else (err value_error, [])
