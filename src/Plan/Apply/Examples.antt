-- ===== src/Plan/Apply/Examples.antt =====
-- A write below a directory that is missing.
use userfreezer.Prelude.{
  ◌≡◌, refl, Bool, true, false, none, some, List, [], ◌∷◌, All, any_of, if◌then◌else◌,
}
use userfreezer.Prelude.Text.{Text, codes, ◌==◌, split, starts_with}
use userfreezer.Core.Outcome.{ok}
use userfreezer.Plan.{
  Item, CheckedItem, validate_plan, validate_items, validate_item, split_relative, validate_all,
  validate_component, ends_badly, device_name, is_device,
}
use userfreezer.Plan.Apply.{
  Call, open_relative_directory, create_relative_directory, Answer, done, absent, returned, walk,
  apply_items, apply_plan_experimental,
}
use userfreezer.Plan.Apply.Confined.{Sanctioned, apply_plan_experimental-Sanctioned}
use userfreezer.Plan.Apply.Done.{Reports, apply_plan_experimental-Reports}

abbrev plan : List Item
plan = record { kind = codes "W"; path = codes "dir/a"; payload = some (codes "x") } ∷ []

abbrev checked : List CheckedItem
checked =
    record {
      kind = codes "W";
      path = codes "dir/a";
      parts = codes "dir" ∷ (codes "a" ∷ []);
      payload = some (codes "x");
    }
    ∷ []

abbrev is_made : Call → Bool
is_made (create_relative_directory parent name) = true
is_made _ = false

-- A directory is there once it has been made.
abbrev missing : List Call → Call → Answer
missing calls (open_relative_directory parent name) = if any_of is_made calls then done else absent
missing calls _ = done

abbrev token : List Call → Text
token calls = codes "0"

is_checked : validate_plan plan ≡ ok checked
unfolding validate_plan validate_items validate_item split_relative validate_all validate_component
    ends_badly device_name is_device ◌==◌ split starts_with
is_checked = refl

carried_out :
    (apply_plan_experimental missing token (some []) none plan).0
    ≡ ok (returned (codes "dir/a" ∷ []))
unfolding apply_plan_experimental apply_items walk validate_plan validate_items validate_item
    split_relative validate_all validate_component ends_badly device_name is_device ◌==◌ split
    starts_with
carried_out = refl

apply_plan_experimental-Sanctioned_example :
    All (Sanctioned checked) (apply_plan_experimental missing token (some []) none plan).1
apply_plan_experimental-Sanctioned_example =
    apply_plan_experimental-Sanctioned missing token (some []) none plan checked is_checked

apply_plan_experimental-Reports_example :
    Reports missing token checked (apply_plan_experimental missing token (some []) none plan)
apply_plan_experimental-Reports_example =
    apply_plan_experimental-Reports missing token (some []) none plan checked is_checked
