-- ===== src/Prelude/Json/Sorted.antt =====
-- JSON as `json.dumps` writes it with `sort_keys`.
use mathlib.Core.Bool.{Bool, true, not, ◌&&◌}
use userfreezer.Prelude.Text.{Text, ◌==◌}
use userfreezer.Prelude.Text.Order.{text_le}
use userfreezer.Prelude.Json.{
  Json, null, bool, num, other_num, str, arr, obj, Items, nil, item, Fields, field, end,
}

-- The keys of every object are sorted, none twice, as `sort_keys` writes them.
abbrev pub comes_before : Text → Fields → Bool
comes_before k end = true
comes_before k (field j v fs) = text_le k j && not (k == j)

unfoldable mutual
  pub is_sorted : Json → Bool
  is_sorted null = true
  is_sorted (bool b) = true
  is_sorted (num n) = true
  is_sorted (other_num t) = true
  is_sorted (str t) = true
  is_sorted (arr js) = all_sorted js
  is_sorted (obj fs) = fields_sorted fs

  pub all_sorted : Items → Bool
  all_sorted nil = true
  all_sorted (item j js) = is_sorted j && all_sorted js

  pub fields_sorted : Fields → Bool
  fields_sorted end = true
  fields_sorted (field k v fs) = comes_before k fs && is_sorted v && fields_sorted fs
