-- ===== src/Plan/Apply/Confined.antt =====
-- The calls of `apply_plan_experimental` and the items of its plan.
use mathlib.Core.List.{append_assoc}
use mathlib.Core.Path.{subst}
use userfreezer.Prelude.{
  ℕ, ◌≡◌, refl, sym, true, false, Option, none, some, List, [], ◌∷◌, ◌++◌, All, ltb, length, ◌⊎◌,
  inl, inr, Bool-cases, arith,
}
use userfreezer.Prelude.Text.{Text, codes, ◌==◌}
use userfreezer.Core.Outcome.{ok, value_error, passed_guard}
use userfreezer.Plan.{Item, CheckedItem, validate_plan, is_kind}
use userfreezer.Plan.Checked.{IsChecked, validate_items-IsChecked}
use userfreezer.Plan.Apply.{
  Call, open_relative_directory, create_relative_directory, delete_relative_file,
  remove_relative_tree, create_relative_file, rename_relative_file, Answer, done, absent, failed,
  temp_name, makes, made, entered, enter, cleanup, renamed, created, kept, act, walk, apply_items,
  on_root, is_expected, is_same, apply_plan_experimental,
}

abbrev IsTemp : Text → Type 0
IsTemp name = (token : Text) × (name ≡ temp_name token)

-- The name stands below the handle on the way that the item takes.
abbrev OnWay : CheckedItem → List Text → Text → Type 0
OnWay i parent name = (below : List Text) × (parent ++ (name ∷ below) ≡ i.parts)

abbrev IsEnd : CheckedItem → List Text → Text → Type 0
IsEnd i parent name = parent ++ (name ∷ []) ≡ i.parts

abbrev IsParent : CheckedItem → List Text → Type 0
IsParent i parent = (name : Text) × IsEnd i parent name

-- What an item lets the executor do: directories are opened on its way, and made there for a write or
-- a directory only. Only a write touches files with the names of temporary ones, beside its
-- target, and a file or tree is replaced or removed by name only at the item's own path.
abbrev pub Allows : CheckedItem → Call → Type 0
Allows i (open_relative_directory parent name) = OnWay i parent name
Allows i (create_relative_directory parent name) = (makes i.kind ≡ true) × OnWay i parent name
Allows i (create_relative_file parent temp payload) =
    ((i.kind == codes "W") ≡ true) × (payload ≡ i.payload) × IsTemp temp × IsParent i parent
Allows i (rename_relative_file parent temp name) =
    ((i.kind == codes "W") ≡ true) × IsTemp temp × IsEnd i parent name
Allows i (delete_relative_file parent name) =
    (((i.kind == codes "F") ≡ true) × IsEnd i parent name)
    ⊎ (((i.kind == codes "W") ≡ true) × IsTemp name × IsParent i parent)
Allows i (remove_relative_tree parent name) = ((i.kind == codes "D") ≡ true) × IsEnd i parent name

abbrev pub Sanctioned : List CheckedItem → Call → Type 0
Sanctioned [] c = true ≡ false
Sanctioned (i ∷ is) c = Allows i c ⊎ Sanctioned is c

module _ (answer : List Call → Call → Answer) (token_hex : List Call → Text) where
  module _ (i : CheckedItem) (P : Call → Type 0) (keep : (c : Call) → Allows i c → P c) where
    made-All :
        (parent : List Text) (name : Text) (a : Answer) (calls : List Call)
        → OnWay i parent name
        → All P calls
        → All P (made answer token_hex parent name a calls).1
    made-All parent name done calls way h = (keep (open_relative_directory parent name) way, h)
    made-All parent name absent calls way h = h
    made-All parent name failed calls way h = h

    entered-All :
        (parent : List Text) (name : Text) (a : Answer) (calls : List Call)
        → OnWay i parent name
        → All P calls
        → All P (entered answer token_hex i.kind parent name a calls).1
    entered-All parent name done calls way h = h
    entered-All parent name failed calls way h = h
    entered-All parent name absent calls way h = elim (Bool-cases (makes i.kind)) [
      | inl e ↦ rw e (
          made-All parent name (answer calls (create_relative_directory parent name))
            (create_relative_directory parent name ∷ calls) way
            (keep (create_relative_directory parent name) (e, way), h))
      | inr e ↦ rw e h
    ]

    module _ (parent : List Text) (name : Text) (own : IsEnd i parent name) where
      module _ (write : (i.kind == codes "W") ≡ true) (token : Text) where
        cleanup-All :
            (calls : List Call)
            → All P calls
            → All P (cleanup answer token_hex parent (temp_name token) calls).1
        cleanup-All calls h = (
          keep (delete_relative_file parent (temp_name token))
              (inr (write, (token, refl), (name, own))),
          h,
        )

        renamed-All :
            (a : Answer) (calls : List Call)
            → All P calls
            → All P (renamed answer token_hex parent (temp_name token) a calls).1
        renamed-All done calls h = h
        renamed-All absent calls h = cleanup-All calls h
        renamed-All failed calls h = cleanup-All calls h

        created-All :
            (a : Answer) (calls : List Call)
            → All P calls
            → All P (created answer token_hex parent (temp_name token) name a calls).1
        created-All done calls h =
            renamed-All (answer calls (rename_relative_file parent (temp_name token) name))
              (rename_relative_file parent (temp_name token) name ∷ calls)
              (
                keep (rename_relative_file parent (temp_name token) name)
                    (write, (token, refl), own),
                h,
              )
        created-All absent calls h = cleanup-All calls h
        created-All failed calls h = cleanup-All calls h

      kept-All :
          (a : Answer) (calls : List Call)
          → All P calls
          → All P (kept answer token_hex parent name a calls).1
      kept-All done calls h = h
      kept-All absent calls h = (keep (open_relative_directory parent name) ([], own), h)
      kept-All failed calls h = (keep (open_relative_directory parent name) ([], own), h)

      act-All :
          (calls : List Call)
          → is_kind i.kind ≡ true
          → All P calls
          → All P (act answer token_hex i.kind i.payload parent name calls).1
      act-All calls sort h = elim (Bool-cases (i.kind == codes "W")) [
        | inl w ↦ rw w (
            let temp = temp_name (token_hex calls) in
            created-All w (token_hex calls)
              (answer calls (create_relative_file parent temp i.payload))
              (create_relative_file parent temp i.payload ∷ calls)
              (
                keep (create_relative_file parent temp i.payload)
                    (w, refl, (token_hex calls, refl), (name, own)),
                h,
              ))
        | inr w ↦ elim (Bool-cases (i.kind == codes "M")) [
          | inl m ↦
              rw (w, m)
                (kept-All (answer calls (create_relative_directory parent name))
                  (create_relative_directory parent name ∷ calls)
                  (keep (create_relative_directory parent name) (ground (arith, m), ([], own)), h))
          | inr m ↦ elim (Bool-cases (i.kind == codes "F")) [
            | inl f ↦ rw (w, m, f) (keep (delete_relative_file parent name) (inl (f, own)), h)
            | inr f ↦
                rw (w, m, f)
                  (keep (remove_relative_tree parent name) (ground (arith, w, m, f, sort), own), h)
          ]
        ]
      ]

    walk-All :
        (parent parts : List Text) (calls : List Call)
        → parent ++ parts ≡ i.parts
        → is_kind i.kind ≡ true
        → All P calls
        → All P (walk answer token_hex i.kind i.payload parent parts calls).1
    unfolding walk
    walk-All parent [] calls e sort h = h
    walk-All parent (name ∷ []) calls e sort h = act-All parent name e calls sort h
    walk-All parent (name ∷ (next ∷ parts)) calls e sort h =
        let c = open_relative_directory parent name in
        let r = enter answer token_hex i.kind parent name calls in
        let way : OnWay i parent name = (next ∷ parts, e) in
        let entering = entered-All parent name (answer calls c) (c ∷ calls) way (keep c way, h) in
        let rest =
          walk-All (parent ++ (name ∷ [])) (next ∷ parts) r.1
            (subst (λ l. l ≡ i.parts) (sym (append_assoc parent (name ∷ []) (next ∷ parts))) e) sort
            entering in
        elim (Bool-cases r.0) [ inl go ↦ rw go rest | inr stop ↦ rw stop entering ]

  items-All :
      (P : Call → Type 0) (is : List CheckedItem) (completed : List Text) (calls : List Call)
      → ((c : Call) → Sanctioned is c → P c)
      → All IsChecked is
      → All P calls
      → All P (apply_items answer token_hex is completed calls).1
  unfolding apply_items
  items-All P [] completed calls keep checked h = h
  items-All P (i ∷ is) completed calls keep checked h =
      let r = walk answer token_hex i.kind i.payload [] i.parts calls in
      let first =
        walk-All i P (λ c allowed. keep c (inl allowed)) [] i.parts calls refl checked.0.sort h in
      let rest =
        items-All P is (completed ++ (i.path ∷ [])) r.1 (λ c allowed. keep c (inr allowed))
          checked.1 first in
      elim (Bool-cases r.0) [ inl go ↦ rw go rest | inr stop ↦ rw stop first ]

  on_root-All :
      (root expected : Option (List ℕ)) (checked : List CheckedItem)
      → All IsChecked checked
      → All (Sanctioned checked) (on_root answer token_hex root expected checked).1
  on_root-All none expected checked h = tt
  on_root-All (some observed) none checked h =
      items-All (Sanctioned checked) checked [] [] (λ c allowed. allowed) h tt
  on_root-All (some observed) (some expected) checked h =
      elim (Bool-cases (is_same answer token_hex observed expected)) [
        | inl e ↦ rw e (items-All (Sanctioned checked) checked [] [] (λ c allowed. allowed) h tt)
        | inr e ↦ rw e tt
      ]

  -- Whatever the calls answer, all calls that the executor makes for an accepted plan are what an
  -- item of it allows: directories are opened on the way to its path, and made there for a write
  -- or a directory only; a write makes a temporary file of its bytes beside its target, renames
  -- it to the target and deletes nothing else than such a file; a file or a tree is removed only
  -- at the path of an item of that kind.
  pub apply_plan_experimental-Sanctioned :
      (root expected : Option (List ℕ)) (plan : List Item) (checked : List CheckedItem)
      → validate_plan plan ≡ ok checked
      → All (Sanctioned checked) (apply_plan_experimental answer token_hex root expected plan).1
  unfolding apply_plan_experimental validate_plan
  apply_plan_experimental-Sanctioned root expected plan checked h =
      let (short, accepted) = passed_guard value_error (ltb 10000 (length plan)) _ h in
      let (each, same) = validate_items-IsChecked plan checked accepted in
      elim (Bool-cases (is_expected answer token_hex expected)) [
        | inl e ↦ rw (e, h) (on_root-All root expected checked each)
        | inr e ↦ rw e tt
      ]
