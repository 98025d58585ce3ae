-- ===== src/Plan/Paths.antt =====
-- A path that a Windows plan accepts is one that the commit on POSIX accepts, with the same parts.
use userfreezer.Prelude.{
  ℕ, ◌≡◌, refl, ◌∙◌, Bool, false, not, ◌&&◌, ◌||◌, List, [], ◌∷◌, any_of, nat_eq, nat_eq_iff, arith,
  Bool-cases, inl, inr,
}
use userfreezer.Prelude.Text.{Text, ◌==◌, split, starts_with, slash, contains, replace, push}
use userfreezer.Core.Outcome.{Result, ok, >>=-eq-ok, ok-injective}
use userfreezer.Core.RelPath.{commit_parts, has_drive, is_ambiguous, backslash}
use userfreezer.Plan.{invalid, is_bad, is_unsafe, validate_component, validate_all, split_relative}

-- A validated list is the list, and no element of it is unsafe.
validate_all-same :
    (ps qs : List Text) → validate_all ps ≡ ok qs → (ps ≡ qs) × (any_of is_unsafe ps ≡ false)
unfolding validate_all validate_component
validate_all-same [] qs h = (ok-injective [] qs h, refl)
validate_all-same (p ∷ ps) qs h =
    let (q, one, rest) = >>=-eq-ok (validate_component p) _ h in
    let (rs, two, three) = >>=-eq-ok (validate_all ps) _ rest in
    let (same, safe) = validate_all-same ps rs two in
    (ground (arith, one, three, same), ground (arith, one, safe))

-- No character of a path is bad but the slashes.
any_of-push :
    (c : ℕ) (ws : List Text)
    → any_of (any_of is_bad) (push c ws) ≡ (is_bad c || any_of (any_of is_bad) ws)
any_of-push c [] = ground arith
any_of-push c (w ∷ ws) = ground arith

abbrev is_odd : ℕ → Bool
is_odd c = is_bad c && not (nat_eq c slash)

any_of-split : (s : Text) → any_of is_odd s ≡ any_of (any_of is_bad) (split slash s)
unfolding split
any_of-split [] = refl
any_of-split (c ∷ s) =
    ground (arith, nat_eq_iff c slash, any_of-split s, any_of-push c (split slash s))

any_of-weaken : (ws : List Text) → any_of is_unsafe ws ≡ false → any_of (any_of is_bad) ws ≡ false
any_of-weaken [] h = refl
any_of-weaken (w ∷ ws) h = ground (arith, h, any_of-weaken ws)

any_of-ambiguous : (ws : List Text) → any_of is_unsafe ws ≡ false → any_of is_ambiguous ws ≡ false
any_of-ambiguous [] h = refl
any_of-ambiguous (w ∷ ws) h = ground (arith, h, any_of-ambiguous ws)

replace_plain : (s : Text) → any_of is_odd s ≡ false → replace backslash slash s ≡ s
unfolding replace
replace_plain [] h = refl
replace_plain (c ∷ s) h =
    ground (arith, h, nat_eq_iff c backslash, nat_eq_iff c slash, replace_plain s)

contains_zero : (s : Text) → any_of is_odd s ≡ false → contains s 0 ≡ false
unfolding contains
contains_zero [] h = refl
contains_zero (c ∷ s) h = ground (arith, h, nat_eq_iff c 0, nat_eq_iff c slash, contains_zero s)

has_drive-plain : (s : Text) → any_of is_odd s ≡ false → has_drive s ≡ false
has_drive-plain [] h = refl
has_drive-plain (c ∷ []) h = refl
has_drive-plain (c ∷ (d ∷ s)) h = ground (arith, h, nat_eq_iff d 58, nat_eq_iff d slash)

-- A path that the check of a Windows plan accepts is accepted by the commit on POSIX too, and both
-- cut it into the same components.
pub commit_parts-split_relative :
    (rel : Text) (parts : List Text) → split_relative rel ≡ ok parts → commit_parts rel ≡ ok parts
unfolding split_relative commit_parts
commit_parts-split_relative rel parts h =
    elim (Bool-cases (rel == [] || starts_with rel (slash ∷ []))) [
      | inl refused ↦ absurd (refused-ok parts (rw refused at h))
      | inr free ↦
          (let (same, safe) = validate_all-same (split slash rel) parts (rw free at h) in
            let odd : any_of is_odd rel ≡ false =
              any_of-split rel ∙ any_of-weaken (split slash rel) safe in
            rw
              (
                replace_plain rel odd,
                contains_zero rel odd,
                has_drive-plain rel odd,
                any_of-ambiguous (split slash rel) safe,
              )
              (ground (arith, free, same)))
    ]
  where
    refused-ok : (parts : List Text) → ◌≡◌ {A = Result (List Text)} invalid (ok parts) → ⊥
    refused-ok parts e = cc
