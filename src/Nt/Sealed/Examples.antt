-- ===== src/Nt/Sealed/Examples.antt =====
-- Roots sealed with the code for JSON of Prelude/Json/Code, a DPAPI that puts a byte before the record and
-- the identity for `ntpath.normcase`.
use userfreezer.Prelude.{
  ℕ, ◌≡◌, refl, true, Option, none, some, List, [], ◌∷◌, ◌++◌, nat_eq, length, leb, ◌&&◌,
  if◌then◌else◌,
}
use userfreezer.Prelude.Text.{Text, codes, ◌==◌, split, join, starts_with, contains}
use userfreezer.Prelude.Json.Code.{code_json, code_text, loads, loads-code_json}
use userfreezer.Core.Outcome.{Result, ok, err, type_error, ok-injective}
use userfreezer.Plan.{validate_component, validate_all, ends_badly, device_name, is_device}
use userfreezer.Nt.Root.{canonical_root, root_tail, normal_tail}
use userfreezer.Nt.Identity.{checked_identity}
use userfreezer.Nt.Sealed.{max_blob, record_of, seal_root_identity, unseal_root_identity}
use userfreezer.Nt.Sealed.Bound.{unseal_root_identity-seal}

abbrev same_case : Text → Text
same_case t = t

abbrev protect : Text → Result Text
protect raw = ok (1 ∷ raw)

abbrev unprotect : Text → Option Text
unprotect [] = none
unprotect (c ∷ raw) = if nat_eq c 1 then some raw else none

abbrev root : Text
root = codes "C:\\data"

abbrev accented : Text
accented = codes "C:\\d" ++ (250 ∷ [])

abbrev identity : List ℕ
identity = 1 ∷ (2 ∷ (3 ∷ []))

authentic : (raw blob : Text) → protect raw ≡ ok blob → unprotect blob ≡ some raw
authentic raw blob h = rw (← ok-injective (1 ∷ raw) blob h) refl

abbrev sealed : Text → Text
sealed r = 1 ∷ code_json (record_of r identity)

is_canonical : canonical_root same_case root ≡ ok root
unfolding canonical_root root_tail normal_tail validate_all validate_component ends_badly
    device_name is_device ◌==◌ split join starts_with contains
is_canonical = refl

accented_canonical : canonical_root same_case accented ≡ ok accented
unfolding canonical_root root_tail normal_tail validate_all validate_component ends_badly
    device_name is_device ◌==◌ split join starts_with contains
accented_canonical = refl

is_sealed : seal_root_identity code_json same_case protect root identity ≡ ok (sealed root)
unfolding seal_root_identity canonical_root root_tail normal_tail validate_all validate_component
    ends_badly device_name is_device checked_identity ◌==◌ split join starts_with contains code_json
    code_text
is_sealed = refl

holds_accent :
    seal_root_identity code_json same_case protect accented identity ≡ ok (sealed accented)
unfolding seal_root_identity canonical_root root_tail normal_tail validate_all validate_component
    ends_badly device_name is_device checked_identity ◌==◌ split join starts_with contains code_json
    code_text
holds_accent = refl

fits : (leb 1 (length (sealed root)) && leb (length (sealed root)) max_blob) ≡ true
unfolding code_json code_text
fits = refl

accented_fits : (leb 1 (length (sealed accented)) && leb (length (sealed accented)) max_blob) ≡ true
unfolding code_json code_text
accented_fits = refl

-- A root with an accent is enrolled and not opened again.
accented_refused :
    unseal_root_identity loads same_case unprotect accented (sealed accented) ≡ err type_error
accented_refused =
    unseal_root_identity-seal code_json loads same_case protect unprotect
      (λ j sorted. loads-code_json j) authentic accented accented accented accented
      (sealed accented) identity accented_canonical accented_canonical holds_accent accented_fits

unseal_root_identity-seal_example :
    unseal_root_identity loads same_case unprotect root (sealed root) ≡ ok identity
unfolding ◌==◌
unseal_root_identity-seal_example =
    unseal_root_identity-seal code_json loads same_case protect unprotect
      (λ j sorted. loads-code_json j) authentic root root root root (sealed root) identity
      is_canonical is_canonical is_sealed fits
