-- ===== src/Ledger/Intent/Examples.antt =====
-- A plan of one directory, with the code for JSON of Prelude/Json/Code, a constant digest and the identity
-- for `ntpath.normcase`.
use mathlib.Core.Path.{subst}
use userfreezer.Prelude.{ℕ, zero, suc, ◌≡◌, refl, sym, ◌∙◌, none, List, [], ◌∷◌}
use userfreezer.Prelude.Text.{Text, codes, ◌==◌, split, join, starts_with, contains}
use userfreezer.Prelude.Json.Code.{code_json, code_text, loads, loads-code}
use userfreezer.Prelude.Json.{Json, null, num, str, obj, nil, item, field, end}
use userfreezer.Core.Outcome.{ok, ok-injective}
use userfreezer.Plan.{
  Item, validate_component, validate_all, split_relative, validate_item, validate_items,
  validate_plan, ends_badly, device_name, is_device,
}
use userfreezer.Nt.Root.{canonical_root, root_tail, normal_tail}
use userfreezer.Nt.Identity.{checked_identity}
use userfreezer.Ledger.Intent.{
  describe_plan, intent_record, parse_intent, json_text, signed, unsigned_fields,
}
use userfreezer.Ledger.Intent.RoundTrip.{parse_intent-intent_record}

abbrev zeros : ℕ → Text
zeros zero = []
zeros (suc n) = b'0' ∷ zeros n

abbrev constant : Text → Text
constant t = zeros 64

abbrev same_case : Text → Text
same_case t = t

abbrev root : Text
root = codes "C:\\data"

abbrev overlay : Text
overlay = codes "D:\\data"

canonical : canonical_root same_case overlay ≡ ok overlay
unfolding canonical_root root_tail normal_tail validate_all validate_component ends_badly
    device_name is_device ◌==◌ split join starts_with contains
canonical = refl

abbrev plan : List Item
plan = record { kind = codes "M"; path = codes "a"; payload = none } ∷ []

abbrev root_id : List ℕ
root_id = 1 ∷ (2 ∷ (3 ∷ []))

abbrev overlay_id : List ℕ
overlay_id = 4 ∷ (5 ∷ (6 ∷ []))

abbrev step_json : Json
step_json = obj (
    field (codes "kind") (str (codes "M")) (
      field (codes "path") (str (codes "a"))
        (field (codes "sha256") null (field (codes "size") (num 0) end))))

abbrev recorded : Text
recorded = json_text code_json loads constant same_case (
    obj (
      signed code_json loads constant same_case (
        unsigned_fields code_json loads constant same_case root overlay root_id overlay_id
          (item step_json nil))))

is_recorded :
    intent_record code_json loads constant same_case root overlay root_id overlay_id plan
    ≡ ok recorded
unfolding intent_record describe_plan checked_identity validate_plan validate_items validate_item
    split_relative canonical_root root_tail normal_tail validate_all validate_component ends_badly
    device_name is_device ◌==◌ split join starts_with contains code_json code_text
is_recorded = refl

parse_intent-intent_record_example :
    (digest : Text) × (parse_intent code_json loads constant same_case recorded root
      ≡ ok (record { total = 1; digest = digest }))
parse_intent-intent_record_example =
    parse_intent-intent_record code_json loads constant same_case (λ t. refl)
      (λ j sorted. loads-code j 10) root overlay recorded root_id overlay_id plan
      (λ o e. (
        overlay,
        subst (λ p. canonical_root same_case p ≡ ok overlay)
            (ok-injective overlay o (sym canonical ∙ e)) canonical,
      ))
      is_recorded
