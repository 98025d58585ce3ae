-- ===== src/Core/Listing.antt =====
-- deepfreezer.py: `iterdir`, `diff`, `status` and `verify`, which walk over the operations.
use userfreezer.Prelude.{
  ℕ, zero, suc, ◌+◌, Bool, true, false, not, ◌&&◌, ◌||◌, Option, none, some, List, [], ◌∷◌, ◌++◌,
  map, foldl, if◌then◌else◌, keep_if, length, nat_eq,
}
use userfreezer.Prelude.Text.{Text, ◌==◌, starts_with, split, join, slash}
use userfreezer.Prelude.Text.Order.{sorted}
use userfreezer.Prelude.Dict.{lookup, has_key}
use userfreezer.Core.Types.{Kind, written, made, unknown, Ops, View, base, new, gone}
use userfreezer.Core.Outcome.{Result, ok, err, deep_freeze, file_not_found, ◌>>=◌}
use userfreezer.Core.RelPath.{norm}
use userfreezer.Core.Overlay.{Entry, Manifest, mem}
use userfreezer.Core.Classify.{classify}
use userfreezer.Core.Instance.{DeepFreezer, require_frozen}
use userfreezer.Core.Api.{Target}

-- `s[n:]`
abbrev pub drop : ℕ → Text → Text
drop n [] = []
drop zero (c ∷ s) = c ∷ s
drop (suc n) (c ∷ s) = drop n s

-- `s.partition("/")`, without the separator
abbrev pub head_part : Text → Text
head_part [] = []
head_part (c ∷ s) = let rest = head_part s in if nat_eq c slash then [] else c ∷ rest

abbrev pub tail_part : Text → Text
tail_part [] = []
tail_part (c ∷ s) = let rest = tail_part s in if nat_eq c slash then s else rest

-- `names.add(nm)`
abbrev pub add_name : Text → List Text → List Text
add_name nm names = if mem nm names then names else names ++ (nm ∷ [])

-- The name below the directory that one operation stands for, if any.
unfoldable pub name_of : Ops → Text → Text → Option Text
name_of ops prefix k =
    let rest = drop (length prefix) k in
    let seg = head_part rest in
    if starts_with k prefix
    then (if tail_part rest == []
        then some seg
        else if has_key (prefix ++ seg) ops
        then none
        else some seg)
    else none

abbrev pub add_some : Option Text → List Text → List Text
add_some none names = names
add_some (some nm) names = add_name nm names

-- The loop over the operations.
unfoldable pub collect : Ops → Text → Ops → List Text → List Text
collect ops prefix [] names = names
collect ops prefix ((k, op) ∷ rest) names =
    collect ops prefix rest (add_some (name_of ops prefix k) names)

abbrev pub is_hidden : View → Bool
is_hidden View.deleted = true
is_hidden gone = true
is_hidden _ = false

unfoldable pub dir_prefix : List Text → Text
dir_prefix [] = []
dir_prefix (p ∷ ps) = join slash (p ∷ ps) ++ (slash ∷ [])

-- From the set of the baseline's names on.
unfoldable pub listed : Ops → List Text → List Text → List Text
listed ops parts names =
    keep_if (λ nm. not (is_hidden (classify ops (parts ++ (nm ∷ [])))))
      (sorted (collect ops (dir_prefix parts) ops names))

module _ (T : Target) where
  abbrev pub list_as : Ops → List Text → View → Result (List Text)
  list_as ops parts new = err (deep_freeze "nao e diretorio")
  list_as ops parts View.deleted = err file_not_found
  list_as ops parts gone = err file_not_found
  list_as ops parts base =
      if T.is_dir parts then ok (listed ops parts (T.scan parts)) else err file_not_found
  list_as ops parts _ = ok (listed ops parts [])

  unfoldable pub iterdir : Text → DeepFreezer → Result (List Text)
  iterdir rel s = do
    ready ← require_frozen s
    parts ← norm rel
    list_as s.ops parts (classify s.ops parts)

  -- `verify`: the files of the baseline whose hash is no longer the one of the freeze.
  abbrev pub is_base : View → Bool
  is_base base = true
  is_base _ = false

  abbrev pub is_bad : Ops → Text × Text → Bool
  is_bad ops (rel, h) =
      let parts = split slash rel in
      is_base (classify ops parts) && (not (T.is_file parts) || not (T.sha256 parts == h))

  abbrev pub keys_of : {V : Type 0} → List (Text × V) → List Text
  keys_of = map (λ (k, _). k)

  unfoldable pub verify : DeepFreezer → List Text
  verify s = elim s.manifest [
    | none ↦ []
    | some man ↦ sorted (keys_of (keep_if (is_bad s.ops) man.hashes))
  ]

-- `_entry_at_freeze`
unfoldable pub entry_at_freeze : Option Manifest → Text → Option Entry
entry_at_freeze none rel = none
entry_at_freeze (some man) rel = lookup rel man.entries

pub record Diff : Type 0 where
  pub added : List Text
  pub modified : List Text
  pub deleted : List Text

-- One turn of the loop of `diff`.
unfoldable pub diff_step : Option Manifest → Ops → Diff → Text → Diff
diff_step man ops acc rel = elim (lookup rel ops) [
  | none ↦ acc
  | some op ↦ elim op.kind [
    | written ↦ elim (entry_at_freeze man rel) [
      | some e ↦ record acc { modified = acc.modified ++ (rel ∷ []) }
      | none ↦ record acc { added = acc.added ++ (rel ∷ []) }
    ]
    | made ↦ elim (entry_at_freeze man rel) [
      | some e ↦ acc
      | none ↦ record acc { added = acc.added ++ ((rel ++ (slash ∷ [])) ∷ []) }
    ]
    | Kind.deleted ↦ elim (entry_at_freeze man rel) [
      | some e ↦ record acc {
        deleted = acc.deleted ++ ((if nat_eq op.d 1 then rel ++ (slash ∷ []) else rel) ∷ []);
      }
      | none ↦ acc
    ]
    | unknown k ↦ acc
  ]
]

unfoldable pub diff : DeepFreezer → Diff
diff s =
    foldl (diff_step s.manifest s.ops) (record { added = []; modified = []; deleted = [] })
      (sorted (map (λ (k, _). k) s.ops))

pub record Counts : Type 0 where
  pub w : ℕ
  pub m : ℕ
  pub d : ℕ

-- `counts` in `status`
unfoldable pub count_ops : Ops → Counts → Counts
count_ops [] c = c
count_ops ((rel, op) ∷ ops) c = count_ops ops (elim op.kind [
  | written ↦ record c { w = c.w + 1 }
  | made ↦ record c { m = c.m + 1 }
  | Kind.deleted ↦ record c { d = c.d + 1 }
  | unknown k ↦ c
])

pub record Status : Type 0 where
  pub frozen : Bool
  pub frozen_at : Option Text
  pub baseline_paths : ℕ
  pub overlay_ops : Counts
  pub pending_seq : ℕ

unfoldable pub status : DeepFreezer → Status
status s = record {
  frozen = s.frozen;
  frozen_at = elim s.manifest [ none ↦ none | some man ↦ some man.frozen_at ];
  baseline_paths = elim s.manifest [ none ↦ 0 | some man ↦ length man.entries ];
  overlay_ops = count_ops s.ops (record { w = 0; m = 0; d = 0 });
  pending_seq = s.seq;
}
