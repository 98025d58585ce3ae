-- ===== src/Prelude/Json/Code.antt =====
-- A code for JSON that can be read back.
use mathlib.Core.List.{append_assoc, append-nil}
use userfreezer.Prelude.{
  ℕ, ◌≡◌, refl, Bool, true, false, Option, none, some, List, [], ◌∷◌, ◌++◌, nat_eq, if◌then◌else◌,
}
use userfreezer.Prelude.Text.{Text}
use userfreezer.Prelude.Json.{
  Json, null, bool, num, other_num, str, arr, obj, Items, nil, item, Fields, field, end,
}

-- The code is one for a machine with a stack: each part is an operation and its argument.
data Part : Type 0 where
  json : Json → Part
  items : Items → Part
  fields : Fields → Part
  text : Text → Part

abbrev flag : ℕ → Bool
flag n = nat_eq n 1

abbrev add_char : ℕ → List Part → List Part
add_char c (text t ∷ st) = text (c ∷ t) ∷ st
add_char c st = st

abbrev end_number : List Part → List Part
end_number (text t ∷ st) = json (other_num t) ∷ st
end_number st = st

abbrev end_text : List Part → List Part
end_text (text t ∷ st) = json (str t) ∷ st
end_text st = st

abbrev add_item : List Part → List Part
add_item (items js ∷ (json j ∷ st)) = items (item j js) ∷ st
add_item st = st

abbrev end_items : List Part → List Part
end_items (items js ∷ st) = json (arr js) ∷ st
end_items st = st

abbrev add_field : List Part → List Part
add_field (fields fs ∷ (json v ∷ (text k ∷ st))) = fields (field k v fs) ∷ st
add_field st = st

abbrev end_fields : List Part → List Part
end_fields (fields fs ∷ st) = json (obj fs) ∷ st
end_fields st = st

abbrev step : ℕ → ℕ → List Part → List Part
step o a st =
    if nat_eq o 0
    then json null ∷ st
    else if nat_eq o 1
    then json (bool (flag a)) ∷ st
    else if nat_eq o 2
    then json (num a) ∷ st
    else if nat_eq o 3
    then text [] ∷ st
    else if nat_eq o 4
    then add_char a st
    else if nat_eq o 5
    then end_number st
    else if nat_eq o 6
    then end_text st
    else if nat_eq o 7
    then items nil ∷ st
    else if nat_eq o 8
    then add_item st
    else if nat_eq o 9
    then end_items st
    else if nat_eq o 10
    then fields end ∷ st
    else if nat_eq o 11
    then add_field st
    else end_fields st

run : Text → List Part → List Part
run [] st = st
run (x ∷ []) st = st
run (o ∷ (a ∷ more)) st = run more (step o a st)

abbrev op : ℕ → ℕ → Text
op o a = o ∷ (a ∷ [])

unfoldable pub code_text : Text → Text
code_text [] = op 3 0
code_text (c ∷ t) = code_text t ++ op 4 c

abbrev code_flag : Bool → ℕ
code_flag true = 1
code_flag false = 0

unfoldable mutual
  pub code_json : Json → Text
  code_json null = op 0 0
  code_json (bool b) = op 1 (code_flag b)
  code_json (num n) = op 2 n
  code_json (other_num t) = code_text t ++ op 5 0
  code_json (str t) = code_text t ++ op 6 0
  code_json (arr js) = code_items js ++ op 9 0
  code_json (obj fs) = code_fields fs ++ op 12 0

  code_items : Items → Text
  code_items nil = op 7 0
  code_items (item j js) = code_json j ++ (code_items js ++ op 8 0)

  code_fields : Fields → Text
  code_fields end = op 10 0
  code_fields (field k v fs) = code_text k ++ (code_json v ++ (code_fields fs ++ op 11 0))

run-text : (t rest : Text) (st : List Part) → run (code_text t ++ rest) st ≡ run rest (text t ∷ st)
unfolding run code_text
run-text [] rest st = refl
run-text (c ∷ t) rest st =
    rw (append_assoc (code_text t) (op 4 c) rest, run-text t (op 4 c ++ rest) st) refl

mutual
  unfolding run code_json code_text

  run-json :
      (j : Json) (rest : Text) (st : List Part)
      → run (code_json j ++ rest) st ≡ run rest (json j ∷ st)
  run-json null rest st = refl
  run-json (bool true) rest st = refl
  run-json (bool false) rest st = refl
  run-json (num n) rest st = refl
  run-json (other_num t) rest st =
      rw (append_assoc (code_text t) (op 5 0) rest, run-text t (op 5 0 ++ rest) st) refl
  run-json (str t) rest st =
      rw (append_assoc (code_text t) (op 6 0) rest, run-text t (op 6 0 ++ rest) st) refl
  run-json (arr js) rest st =
      rw (append_assoc (code_items js) (op 9 0) rest, run-items js (op 9 0 ++ rest) st) refl
  run-json (obj fs) rest st =
      rw (append_assoc (code_fields fs) (op 12 0) rest, run-fields fs (op 12 0 ++ rest) st) refl

  run-items :
      (js : Items) (rest : Text) (st : List Part)
      → run (code_items js ++ rest) st ≡ run rest (items js ∷ st)
  run-items nil rest st = refl
  run-items (item j js) rest st =
      rw
        (
          append_assoc (code_json j) (code_items js ++ op 8 0) rest,
          append_assoc (code_items js) (op 8 0) rest,
          run-json j (code_items js ++ (op 8 0 ++ rest)) st,
          run-items js (op 8 0 ++ rest) (json j ∷ st),
        )
        refl

  run-fields :
      (fs : Fields) (rest : Text) (st : List Part)
      → run (code_fields fs ++ rest) st ≡ run rest (fields fs ∷ st)
  run-fields end rest st = refl
  run-fields (field k v fs) rest st =
      rw
        (
          append_assoc (code_text k) (code_json v ++ (code_fields fs ++ op 11 0)) rest,
          append_assoc (code_json v) (code_fields fs ++ op 11 0) rest,
          append_assoc (code_fields fs) (op 11 0) rest,
          run-text k (code_json v ++ (code_fields fs ++ (op 11 0 ++ rest))) st,
          run-json v (code_fields fs ++ (op 11 0 ++ rest)) (text k ∷ st),
          run-fields fs (op 11 0 ++ rest) (json v ∷ (text k ∷ st)),
        )
        refl

abbrev top : List Part → Option Json
top (json j ∷ st) = some j
top st = none

pub loads : Text → Option Json
loads bytes = top (run bytes [])

pub loads-code : (j : Json) (c : ℕ) → loads (code_json j ++ (c ∷ [])) ≡ some j
unfolding run loads
loads-code j c = rw (run-json j (c ∷ []) []) refl

pub loads-code_json : (j : Json) → loads (code_json j) ≡ some j
unfolding run loads
loads-code_json j = rw (← append-nil (code_json j)) (rw (run-json j [] []) refl)
