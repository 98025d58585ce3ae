-- ===== src/Plan/Examples.antt =====
-- A path of two components.
use userfreezer.Prelude.{◌≡◌, refl, List, [], ◌∷◌}
use userfreezer.Prelude.Text.{Text, codes, ◌==◌, split, starts_with}
use userfreezer.Core.Outcome.{ok}
use userfreezer.Core.RelPath.{commit_parts}
use userfreezer.Plan.{
  split_relative, validate_all, validate_component, ends_badly, device_name, is_device,
}
use userfreezer.Plan.Paths.{commit_parts-split_relative}

abbrev parts : List Text
parts = codes "dir" ∷ (codes "com.txt" ∷ [])

split-accepted : split_relative (codes "dir/com.txt") ≡ ok parts
unfolding split_relative validate_all validate_component ends_badly device_name is_device ◌==◌ split
    starts_with
split-accepted = refl

commit_parts-split_relative_example : commit_parts (codes "dir/com.txt") ≡ ok parts
commit_parts-split_relative_example =
    commit_parts-split_relative (codes "dir/com.txt") parts split-accepted
