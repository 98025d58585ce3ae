-- ===== src/Nt/Identity.antt =====
-- nt_enrollment_experimental.py: `_checked_identity`, and the identity of a directory as a list in JSON.
use mathlib.Core.Path.{subst}
use userfreezer.Prelude.{
  ℕ, ◌≡◌, refl, true, ◌&&◌, Option, some, List, [], ◌∷◌, if◌then◌else◌, leb, nat_eq, length, all_of,
}
use userfreezer.Prelude.Json.{Json, num, arr, Items, nil, item}
use userfreezer.Prelude.Json.Sorted.{is_sorted, all_sorted}
use userfreezer.Core.Outcome.{Result, ok, err, value_error, ◌>>=◌, ok-injective, held_guard}
use userfreezer.Plan.{invalid}

-- `_checked_identity` of numbers that are not negative
unfoldable pub checked_identity : List ℕ → Result (List ℕ)
checked_identity ns =
    if nat_eq (length ns) 3 && all_of (λ n. leb n 4294967295) ns then ok ns else err value_error

abbrev pub numbers : List ℕ → Items
numbers [] = nil
numbers (n ∷ ns) = item (num n) (numbers ns)

unfoldable pub numbers_of : Items → Result (List ℕ)
numbers_of nil = ok []
numbers_of (item (num n) js) = do ns ← numbers_of js; ok (n ∷ ns)
numbers_of (item _ js) = invalid

abbrev pub as_numbers : Option Json → Result (List ℕ)
as_numbers (some (arr js)) = numbers_of js
as_numbers _ = invalid

pub numbers_of-numbers : (ns : List ℕ) → numbers_of (numbers ns) ≡ ok ns
unfolding numbers_of
numbers_of-numbers [] = refl
numbers_of-numbers (n ∷ ns) = rw (numbers_of-numbers ns) refl

pub sorted-numbers : (ns : List ℕ) → all_sorted (numbers ns) ≡ true
unfolding is_sorted
sorted-numbers [] = refl
sorted-numbers (n ∷ ns) = sorted-numbers ns

pub checked_identity-same : (ns ms : List ℕ) → checked_identity ns ≡ ok ms → ns ≡ ms
unfolding checked_identity
checked_identity-same ns ms h =
    let (fine, same) =
      held_guard value_error (nat_eq (length ns) 3 && all_of (λ n. leb n 4294967295) ns) _ h in
    ok-injective ns ms same

pub checked_identity-again :
    (ns ms : List ℕ) → checked_identity ns ≡ ok ms → checked_identity ms ≡ ok ms
checked_identity-again ns ms h =
    subst (λ k. checked_identity k ≡ ok ms) (checked_identity-same ns ms h) h
