-- ===== src/Plan/Checked.antt =====
-- What the items of a plan that `_validate_plan` has accepted are.
use userfreezer.Prelude.{◌≡◌, refl, true, List, [], ◌∷◌, length, arith, All}
use userfreezer.Core.Outcome.{ok, value_error, >>=-eq-ok, ok-injective, held_guard}
use userfreezer.Plan.{
  Item, CheckedItem, validate_items, validate_item, is_kind, fits, split_relative,
}

-- An item of a plan that has been accepted.
pub record IsChecked (c : CheckedItem) : Type 0 where
  pub sort : is_kind c.kind ≡ true
  pub cut : split_relative c.path ≡ ok c.parts
  pub fitting : fits c.kind c.payload ≡ true

validate_item-IsChecked : (i : Item) (c : CheckedItem) → validate_item i ≡ ok c → IsChecked c
unfolding validate_item
validate_item-IsChecked i c h =
    let (kind, more) = held_guard value_error (is_kind i.kind) _ h in
    let (parts, cut, rest) = >>=-eq-ok (split_relative i.path) _ more in
    let (fit, last) = held_guard value_error (fits i.kind i.payload) _ rest in
    rw (← ok-injective _ c last) (record { sort = kind; cut = cut; fitting = fit })

pub validate_items-IsChecked :
    (is : List Item) (cs : List CheckedItem)
    → validate_items is ≡ ok cs
    → All IsChecked cs × (length cs ≡ length is)
unfolding validate_items
validate_items-IsChecked [] cs h = rw (← ok-injective [] cs h) (tt, refl)
validate_items-IsChecked (i ∷ is) cs h =
    let (c, one, more) = >>=-eq-ok (validate_item i) _ h in
    let (rest, two, last) = >>=-eq-ok (validate_items is) _ more in
    let (each, same) = validate_items-IsChecked is rest two in
    rw (← ok-injective (c ∷ rest) cs last)
      ((validate_item-IsChecked i c one, each), omega (arith, same))
