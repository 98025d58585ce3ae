-- ===== src/Plan/Apply/Done.antt =====
-- The paths in what `apply_plan_experimental` returns or raises.
use mathlib.Core.List.{append_assoc, append-nil}
use mathlib.Core.Path.{subst}
use userfreezer.Prelude.{
  ℕ, ◌≡◌, refl, sym, ap, ◌∙◌, Bool, true, false, Option, none, some, List, [], ◌∷◌, ◌++◌, map,
  Bool-cases, inl, inr,
}
use userfreezer.Prelude.Text.{Text}
use userfreezer.Core.Outcome.{Result, ok, err}
use userfreezer.Plan.{Item, CheckedItem, validate_plan}
use userfreezer.Plan.Apply.{
  Call, Answer, End, returned, partial_commit, apply_item, apply_items, on_root, is_expected,
  is_same, apply_plan_experimental,
}

abbrev pub path_of : CheckedItem → Text
path_of i = i.path

module _ (answer : List Call → Call → Answer) (token_hex : List Call → Text) where
  -- Every item ends without an exception, one after the other.
  abbrev pub Ran : List CheckedItem → List Call → List Call → Type 0
  Ran [] calls after = calls ≡ after
  Ran (i ∷ is) calls after =
      ((apply_item answer token_hex i calls).0 ≡ true)
      × Ran is (apply_item answer token_hex i calls).1 after

  -- An item raises after others have run.
  pub record IsCut (is : List CheckedItem) (calls : List Call) (completed : List Text)
      (after : List Call) : Type 0 where
    pub before : List CheckedItem
    pub failing : CheckedItem
    pub rest : List CheckedItem
    pub order : before ++ (failing ∷ rest) ≡ is
    pub reported : completed ≡ map path_of before
    pub middle : List Call
    pub ran : Ran before calls middle
    pub raised : apply_item answer token_hex failing middle ≡ (false, after)

  abbrev pub IsDone : List CheckedItem → List Call → End × List Call → Type 0
  IsDone is calls (returned completed, after) = (completed ≡ map path_of is) × Ran is calls after
  IsDone is calls (partial_commit completed, after) = IsCut is calls completed after

  -- A plan that raised before its first item has called nothing.
  abbrev pub Reports : List CheckedItem → Result End × List Call → Type 0
  Reports is (ok end, calls) = IsDone is [] (end, calls)
  Reports is (err raised, calls) = calls ≡ []

  -- What is reported after `completed`.
  abbrev IsMore : List CheckedItem → List Text → List Call → End × List Call → Type 0
  IsMore is completed calls (returned all, after) =
      (all ≡ completed ++ map path_of is) × Ran is calls after
  IsMore is completed calls (partial_commit all, after) =
      (own : List Text) × (all ≡ completed ++ own) × IsCut is calls own after

  IsMore-step :
      (i : CheckedItem) (is : List CheckedItem) (completed : List Text) (calls : List Call)
      (r : End × List Call)
      → (apply_item answer token_hex i calls).0 ≡ true
      → IsMore is (completed ++ (i.path ∷ [])) (apply_item answer token_hex i calls).1 r
      → IsMore (i ∷ is) completed calls r
  IsMore-step i is completed calls (returned all, after) go (h, ran) =
      (h ∙ append_assoc completed (i.path ∷ []) (map path_of is), (go, ran))
  IsMore-step i is completed calls (partial_commit all, after) go (own, h, cut) = (
    i.path ∷ own,
    h ∙ append_assoc completed (i.path ∷ []) own,
    record {
      before = i ∷ cut.before;
      failing = cut.failing;
      rest = cut.rest;
      order = ap (λ (l : List CheckedItem). i ∷ l) cut.order;
      reported = ap (λ (l : List Text). i.path ∷ l) cut.reported;
      middle = cut.middle;
      ran = (go, cut.ran);
      raised = cut.raised;
    },
  )

  stopped : (r : Bool × List Call) → r.0 ≡ false → r ≡ (false, r.1)
  stopped (b, calls) h = rw h refl

  items-IsMore :
      (is : List CheckedItem) (completed : List Text) (calls : List Call)
      → IsMore is completed calls (apply_items answer token_hex is completed calls)
  unfolding apply_items
  items-IsMore [] completed calls = (sym (append-nil completed), refl)
  items-IsMore (i ∷ is) completed calls =
      let r = apply_item answer token_hex i calls in
      let next = completed ++ (i.path ∷ []) in
      let rest = items-IsMore is next r.1 in
      elim (Bool-cases r.0) [
        | inl go ↦
            rw go
              (IsMore-step i is completed calls (apply_items answer token_hex is next r.1) go rest)
        | inr stop ↦ rw stop (
          [],
          sym (append-nil completed),
          record {
            before = [];
            failing = i;
            rest = is;
            order = refl;
            reported = refl;
            middle = calls;
            ran = refl;
            raised = stopped r stop;
          },
        )
      ]

  IsDone-IsMore :
      (is : List CheckedItem) (calls : List Call) (r : End × List Call)
      → IsMore is [] calls r
      → IsDone is calls r
  IsDone-IsMore is calls (returned all, after) h = h
  IsDone-IsMore is calls (partial_commit all, after) (own, h, cut) =
      subst (λ l. IsCut is calls l after) (sym h) cut

  items-IsDone : (is : List CheckedItem) → IsDone is [] (apply_items answer token_hex is [] [])
  items-IsDone is = IsDone-IsMore is [] _ (items-IsMore is [] [])

  on_root-Reports :
      (root expected : Option (List ℕ)) (checked : List CheckedItem)
      → Reports checked (on_root answer token_hex root expected checked)
  on_root-Reports none expected checked = refl
  on_root-Reports (some observed) none checked = items-IsDone checked
  on_root-Reports (some observed) (some expected) checked =
      elim (Bool-cases (is_same answer token_hex observed expected)) [
        | inl e ↦ rw e (items-IsDone checked)
        | inr e ↦ rw e refl
      ]

  -- Where the executor of an accepted plan returns, all items have run, one after the other, and it
  -- returns their paths in order. A `PartialCommitError` comes from an item that raised after all
  -- items before it have run; it has the paths of these, in order, and nothing was called after
  -- that item. Any other exception comes before the first call.
  pub apply_plan_experimental-Reports :
      (root expected : Option (List ℕ)) (plan : List Item) (checked : List CheckedItem)
      → validate_plan plan ≡ ok checked
      → Reports checked (apply_plan_experimental answer token_hex root expected plan)
  unfolding apply_plan_experimental
  apply_plan_experimental-Reports root expected plan checked h =
      elim (Bool-cases (is_expected answer token_hex expected)) [
        | inl e ↦ rw (e, h) (on_root-Reports root expected checked)
        | inr e ↦ rw e refl
      ]
