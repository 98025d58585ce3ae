-- ===== src/Nt/Sealed/Bound.antt =====
-- The root that a sealed identity is given back for.
use userfreezer.Prelude.{
  ℕ, ◌≡◌, refl, sym, ◌∙◌, true, ◌&&◌, Option, some, List, all_of, if◌then◌else◌, leb, length,
  Bool-cases, inl, inr,
}
use userfreezer.Prelude.Text.{Text, ◌==◌}
use userfreezer.Prelude.Text.Order.{text_le}
use userfreezer.Prelude.Json.{Json, mem_field, get_field, only_fields}
use userfreezer.Prelude.Json.Sorted.{is_sorted}
use userfreezer.Core.Outcome.{Result, ok, err, value_error, type_error, >>=-eq-ok, ok-injective}
use userfreezer.Nt.Root.{canonical_root}
use userfreezer.Nt.Pinned.{require}
use userfreezer.Nt.Pinned.Loop.{require-ok}
use userfreezer.Nt.Identity.{
  checked_identity, numbers_of-numbers, sorted-numbers, checked_identity-same,
  checked_identity-again,
}
use userfreezer.Nt.Sealed.{
  max_blob, max_record, is_ascii, compare_digest, record_of, check_record, seal_root_identity,
  unseal_root_identity,
}

-- What the record of one canonical root gives for another.
abbrev pub answer : Text → Text → List ℕ → Result (List ℕ)
answer own asked identity =
    if all_of is_ascii own && all_of is_ascii asked
    then if own == asked then ok identity else err value_error
    else err type_error

sorted-record_of : (r : Text) (identity : List ℕ) → is_sorted (record_of r identity) ≡ true
unfolding is_sorted text_le ◌==◌
sorted-record_of r identity = rw (sorted-numbers identity) refl

check_record-record_of :
    (own asked : Text) (identity : List ℕ)
    → checked_identity identity ≡ ok identity
    → check_record asked (some (record_of own identity)) ≡ answer own asked identity
unfolding check_record mem_field only_fields get_field compare_digest ◌==◌
check_record-record_of own asked identity fine =
    elim (Bool-cases (all_of is_ascii own && all_of is_ascii asked)) [
      | inl e ↦ elim (Bool-cases (own == asked)) [
        | inl same ↦ rw (e, same, numbers_of-numbers identity, fine) refl
        | inr same ↦ rw (e, same) refl
      ]
      | inr e ↦ rw e refl
    ]

module _ (dumps : Json → Text) (loads : Text → Option Json) (normcase : Text → Text)
    (protect : Text → Result Text) (unprotect : Text → Option Text)
    (parsed : (j : Json) → is_sorted j ≡ true → loads (dumps j) ≡ some j)
    (authentic : (raw blob : Text) → protect raw ≡ ok blob → unprotect blob ≡ some raw) where
  -- The blob sealed for one root and presented for another, both accepted, gives the identity if both
  -- have the same canonical path, and is refused as a ValueError otherwise, if both canonical
  -- paths are ASCII. With any other character in one of them a TypeError is raised, for the
  -- root of the blob too. JSON with sorted keys is read as it is written, DPAPI opens what it has
  -- sealed, and the blob has 1 to 16384 bytes.
  pub unseal_root_identity-seal :
      (root other own asked blob : Text) (identity : List ℕ)
      → canonical_root normcase root ≡ ok own
      → canonical_root normcase other ≡ ok asked
      → seal_root_identity dumps normcase protect root identity ≡ ok blob
      → (leb 1 (length blob) && leb (length blob) max_blob) ≡ true
      → unseal_root_identity loads normcase unprotect other blob ≡ answer own asked identity
  unfolding seal_root_identity unseal_root_identity
  unseal_root_identity-seal root other own asked blob identity r0 a0 h size =
      let (r, r1, h1) = >>=-eq-ok (canonical_root normcase root) _ h in
      let (checked, c0, h2) = >>=-eq-ok (checked_identity identity) _ h1 in
      let (u, small, sealed) =
        >>=-eq-ok (require (leb (length (dumps (record_of r checked))) max_record)) _ h2 in
      let same_root : r ≡ own = ok-injective r own (sym r1 ∙ r0) in
      let same : identity ≡ checked = checked_identity-same identity checked c0 in
      rw
        (
          a0,
          size,
          authentic (dumps (record_of r checked)) blob sealed,
          require-ok _ u small,
          parsed (record_of r checked) (sorted-record_of r checked),
          check_record-record_of r asked checked (checked_identity-again identity checked c0),
          same,
          same_root,
        )
        refl
