-- ===== src/Core/Examples.antt =====
-- Concrete instances of deepfreezer.py: a freshly frozen one, and calls of its operations.
use userfreezer.Prelude.{
  String, ℕ, ◌≡◌, ◌≢◌, ap, refl, true, false, none, List, [], ◌∷◌, All, arith, inl, ◌⊎◌,
}
use userfreezer.Prelude.Text.{
  Text, codes, join, slash, ◌==◌, lstrip_by, strip, replace, split, contains, starts_with,
}
use userfreezer.Prelude.Dict.{Dict, lookup}
use userfreezer.Core.Types.{Op, written}
use userfreezer.Core.Outcome.{Result, ok, err, Error, deep_freeze, os_error, file_not_found}
use userfreezer.Core.RelPath.{norm, norm_parts, commit_parts}
use userfreezer.Core.RelPath.Safety.{IsSafe, norm-IsSafe}
use userfreezer.Core.Overlay.{Overlay, Manifest, mem, put_marker}
use userfreezer.Core.Classify.{classify, cover, has_live_child}
use userfreezer.Core.Journal.{load_journal}
use userfreezer.Core.Instance.{
  nothing, directory, Disk, DeepFreezer, stored, on_disk, with_temp, unjournaled, whole_line,
}
use userfreezer.Core.Unjournaled.{cut_of, write-unjournaled}
use userfreezer.Core.Api.{
  write_with, Target, is_made, write, write_at, read, mkdirs, remove, exists, is_dir,
}
use userfreezer.Core.Invariant.{IsWell, IsReady, as_loaded}
use userfreezer.Core.Session.{Action, writes}
use userfreezer.Core.Lifecycle.{
  completed, interrupted, Opening, open_instance, fresh, frozen_state, frozen_overlay,
  empty_overlay, thaw, clear_frozen_state, finish_discard, open_overlay,
}
use userfreezer.Core.Lifecycle.Reopen.{manifest_of, frozen-IsWell}
use userfreezer.Core.Lifecycle.Discard.{open-marked, thaw-discards}
use userfreezer.Core.Crash.{inside_line, crashed, recovered, crash-write}
use userfreezer.Core.TornTail.{reopened, write-after_torn}
use userfreezer.Core.Views.Written.{read-write, gone-write, untouched-write, above-write}
use userfreezer.Core.Views.Removed.{gone-remove, remove-parent_fails}
use userfreezer.Core.Listing.{iterdir}
use userfreezer.Core.Views.Listed.{iterdir-write_hides}
use userfreezer.Core.Views.Made.{made-mkdirs, mkdirs-nested_fails}

abbrev a : Text
a = codes "a"

abbrev b : Text
b = codes "b"

abbrev c : Text
c = codes "c"

-- A target that holds nothing but itself.
abbrev bare_target : Target
bare_target = record {
  is_file = λ parts. false;
  is_dir = λ parts. true;
  exists = λ parts. true;
  contents = λ parts. [];
  stat_size = λ parts. none;
  scan = λ parts. [];
  sha256 = λ parts. [];
}

abbrev no_target : Target
no_target = record bare_target { is_dir = λ parts. false; exists = λ parts. false }

abbrev bare_disk : Disk
bare_disk = record { overlay = nothing; discard_marker = false }

abbrev thawed : DeepFreezer
thawed = fresh false bare_disk

abbrev man : Manifest
man = manifest_of [] (codes "/t") (codes "2024") false

abbrev frozen : DeepFreezer
frozen = frozen_state man empty_overlay thawed

abbrev overlay : Overlay
overlay = frozen_overlay man empty_overlay

frozen-IsReady : IsReady frozen
frozen-IsReady = record { frozen = refl; locked = refl; kept = refl }

frozen-IsWell_empty : IsWell frozen overlay []
frozen-IsWell_empty = frozen-IsWell [] (codes "/t") (codes "2024") thawed refl refl refl refl refl

norm-a : norm (codes "/a") ≡ ok (a ∷ [])
unfolding norm norm_parts ◌==◌ lstrip_by strip replace split
norm-a = refl

norm_ab : norm (codes "a\\./b") ≡ ok (a ∷ (b ∷ []))
unfolding norm norm_parts ◌==◌ lstrip_by strip replace split
norm_ab = refl

norm-c : norm c ≡ ok (c ∷ [])
unfolding norm norm_parts ◌==◌ lstrip_by strip replace split
norm-c = refl

commit_ab : commit_parts (codes "a\\b") ≡ ok (a ∷ (b ∷ []))
unfolding commit_parts ◌==◌ contains starts_with replace split
commit_ab = refl

a-IsSafe : All IsSafe (a ∷ [])
a-IsSafe = norm-IsSafe (codes "/a") (a ∷ []) norm-a

norm-IsSafe_example : All IsSafe (a ∷ (b ∷ []))
norm-IsSafe_example = norm-IsSafe (codes "a\\./b") (a ∷ (b ∷ [])) norm_ab

crash-write_example :
    load_journal (crashed frozen overlay [] a [] b inside_line)
    ≡ ok (recovered frozen overlay [] a [] b inside_line)
crash-write_example =
    crash-write frozen overlay [] a [] b frozen-IsWell_empty a-IsSafe (omega arith) inside_line

write-after_torn_example :
    let (r, t) = write_at (a ∷ []) b (reopened frozen overlay [] frozen-IsWell_empty a [] b) in
    (r ≡ ok tt)
    × ((after : Overlay) × (t.disk.overlay ≡ directory after)
        × (load_journal after ≡ ok (as_loaded frozen [])))
write-after_torn_example = write-after_torn frozen overlay [] frozen-IsWell_empty a [] b

read-write_example :
    let (r, t) = write (codes "/a") b frozen in
    (r ≡ ok tt)
    × (read bare_target (codes "/a") t ≡ ok b)
    × (exists bare_target (codes "/a") t ≡ ok true)
    × (is_dir bare_target (codes "/a") t ≡ ok false)
read-write_example =
    read-write bare_target frozen overlay [] frozen-IsReady frozen-IsWell_empty (codes "/a") a []
      norm-a b

gone-write_example :
    let t = (write (codes "/a") b frozen).1 in
    (exists bare_target (codes "a\\./b") t ≡ ok false)
    × (read bare_target (codes "a\\./b") t ≡ err file_not_found)
gone-write_example =
    gone-write bare_target frozen overlay [] frozen-IsReady frozen-IsWell_empty (codes "/a") a []
      norm-a b (codes "a\\./b") b [] norm_ab

abbrev first : Text → ℕ
first [] = 0
first (x ∷ xs) = x

a_ne_c : a ≢ c
a_ne_c e = omega (arith, ap first e)

untouched-write_example :
    let t = (write (codes "/a") b frozen).1 in
    (read bare_target c t ≡ read bare_target c frozen)
    × (exists bare_target c t ≡ exists bare_target c frozen)
    × (is_dir bare_target c t ≡ is_dir bare_target c frozen)
untouched-write_example =
    untouched-write bare_target frozen overlay [] frozen-IsReady frozen-IsWell_empty (codes "/a") a
      [] norm-a b c c [] norm-c (inl a_ne_c)

above-write_example :
    let t = (write (codes "a\\./b") c frozen).1 in
    (exists no_target (codes "/a") t ≡ ok true) × (is_dir no_target (codes "/a") t ≡ ok true)
above-write_example =
    above-write no_target frozen overlay [] frozen-IsReady frozen-IsWell_empty (codes "a\\./b") a
      (b ∷ []) norm_ab c (codes "/a") a [] b [] norm-a refl

del_free : put_marker (join slash (a ∷ [])) overlay.del ≡ ok (a ∷ [])
unfolding put_marker join
del_free = refl

gone-remove_example :
    let (r, t) = remove bare_target (codes "/a") frozen in
    (r ≡ ok tt)
    × (exists bare_target (codes "/a") t ≡ ok false)
    × (read bare_target (codes "/a") t ≡ err file_not_found)
    × (exists bare_target (codes "a\\./b") t ≡ ok false)
    × (read bare_target (codes "a\\./b") t ≡ err file_not_found)
gone-remove_example =
    gone-remove bare_target frozen overlay [] frozen-IsReady frozen-IsWell_empty (codes "/a") a []
      norm-a (a ∷ []) del_free (codes "a\\./b") b [] norm_ab

-- An overlay in which `a/b` has been removed.
abbrev overlay_removed : Overlay
overlay_removed = record overlay { del = join slash (a ∷ (b ∷ [])) ∷ [] }

abbrev frozen_removed : DeepFreezer
frozen_removed = record frozen { disk = record bare_disk { overlay = directory overlay_removed } }

ab_removed : mem (join slash (a ∷ (b ∷ []))) overlay_removed.del ≡ true
unfolding join ◌==◌
ab_removed = refl

remove-parent_fails_example :
    let (e, t) = remove bare_target (codes "/a") frozen_removed in
    (e ≡ err os_error)
    × ((t ≡ frozen_removed)
        ⊎ (t ≡ on_disk frozen_removed (with_temp (join slash (a ∷ [])) overlay_removed)))
remove-parent_fails_example =
    remove-parent_fails bare_target frozen_removed overlay_removed (codes "/a") a [] b []
      (record { frozen = refl; locked = refl; kept = refl }) refl ab_removed norm-a

md_free : put_marker (join slash (a ∷ [])) overlay.md ≡ ok (a ∷ [])
unfolding put_marker join
md_free = refl

not_made : is_made no_target (a ∷ []) (classify frozen.ops (a ∷ [])) ≡ false
unfolding classify cover lookup has_live_child
not_made = refl

made-mkdirs_example :
    let (r, t) = mkdirs no_target (codes "/a") frozen in
    (r ≡ ok tt)
    × (is_dir no_target (codes "/a") t ≡ ok true)
    × (exists no_target (codes "a\\./b") t ≡ ok false)
made-mkdirs_example =
    made-mkdirs no_target frozen overlay [] frozen-IsReady frozen-IsWell_empty (codes "/a") a []
      norm-a not_made (a ∷ []) md_free (codes "a\\./b") b [] norm_ab

mkdirs-nested_fails_example :
    let t = (mkdirs no_target (codes "/a") frozen).1 in
    mkdirs no_target (codes "a\\./b") t ≡ (err os_error, t)
mkdirs-nested_fails_example =
    mkdirs-nested_fails no_target frozen overlay [] frozen-IsReady frozen-IsWell_empty (codes "/a")
      a [] norm-a not_made (a ∷ []) md_free (codes "a\\./b") b [] norm_ab

abbrev quiet : Opening
quiet = record { acquired = true; removal = completed; legacy_lock = none }

abbrev one_write : List Action
one_write = writes stored (codes "/a") b ∷ []

abbrev written_a : Op
written_a = record { seq = 1; kind = written; d = 0 }

-- The disk of an instance that died while it discarded its overlay.
abbrev marked_disk : Disk
marked_disk = record { overlay = directory overlay; discard_marker = true }

marked_opens : (open_instance quiet false marked_disk).0 ≡ ok (fresh false bare_disk)
unfolding open_instance finish_discard open_overlay
marked_opens = refl

open-marked_example :
    (fresh false bare_disk ≡ fresh false (record { overlay = nothing; discard_marker = false }))
    × ((open_instance quiet false marked_disk).1
        ≡ record { overlay = nothing; discard_marker = false })
open-marked_example = open-marked quiet false marked_disk (fresh false bare_disk) refl marked_opens

thaw-discards_example :
    let (r, t) = thaw (ok tt) (ok tt) (interrupted nothing) frozen in
    ((e : Error) × (◌≡◌ {A = Result (Unit {0})} (ok tt) (err e)) × (r ≡ err e) × (t ≡ frozen))
    ⊎ ((r ≡ ok tt)
        × (t
            ≡ clear_frozen_state
                (record frozen { disk = record { overlay = nothing; discard_marker = false } })))
    ⊎ ((message : String) × (r ≡ err (deep_freeze message))
        × (t.disk.discard_marker ≡ true)
        × (t.discarding ≡ true))
thaw-discards_example = thaw-discards (ok tt) (interrupted nothing) frozen refl refl refl

iterdir-write_hides_example :
    iterdir bare_target (codes "/a") (write (codes "a\\./b") c frozen).1 ≡ ok (b ∷ [])
iterdir-write_hides_example =
    iterdir-write_hides bare_target frozen overlay [] frozen-IsReady frozen-IsWell_empty refl
      (codes "/a") a [] norm-a (codes "a\\./b") b norm_ab c

write-unjournaled_example :
    let (r, t) = write_with (unjournaled whole_line) (codes "/a") b frozen in
    (r ≡ err os_error)
    × (t.ops ≡ frozen.ops)
    × (t.write_payloads ≡ frozen.write_payloads)
    × ((after : Overlay) × (t.disk.overlay ≡ directory after)
        × (load_journal after ≡ ok (recovered frozen overlay [] a [] b (cut_of whole_line))))
write-unjournaled_example =
    write-unjournaled frozen overlay [] frozen-IsReady frozen-IsWell_empty (codes "/a") a [] norm-a
      b whole_line (omega arith)
