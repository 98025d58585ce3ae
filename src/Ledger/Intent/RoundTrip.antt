-- ===== src/Ledger/Intent/RoundTrip.antt =====
-- `_parse_intent` on what `_intent_record` writes.
use userfreezer.Prelude.{
  ℕ, ◌≡◌, refl, sym, true, false, ◌&&◌, Option, none, some, List, [], ◌∷◌, ◌++◌, leb, ltb, length,
  arith, All, Bool-cases, inl, inr,
}
use userfreezer.Prelude.Text.{Text, codes, ◌==◌, eq_refl}
use userfreezer.Prelude.Text.Order.{text_le}
use userfreezer.Prelude.Json.{Json, obj, Items, mem_field, get_field, only_fields}
use userfreezer.Core.Outcome.{Result, ok, value_error, ◌>>=◌, >>=-eq-ok, ok-injective, passed_guard}
use userfreezer.Plan.{Item, CheckedItem, validate_plan, validate_items, validate_item, fits}
use userfreezer.Plan.Checked.{IsChecked, validate_items-IsChecked}
use userfreezer.Nt.Bridge.{blank_payload}
use userfreezer.Nt.Pinned.{require, ends_line}
use userfreezer.Nt.Pinned.Loop.{require-ok}
use userfreezer.Nt.Root.{canonical_root}
use userfreezer.Nt.Identity.{
  checked_identity, numbers_of-numbers, sorted-numbers, checked_identity-again,
}
use userfreezer.Prelude.Json.Sorted.{is_sorted, all_sorted}
use userfreezer.Ledger.Inspect.{Intent}
use userfreezer.Ledger.Intent.{
  count_items, drop_field, fits_content, is_hash, check_step, check_steps, json_text, step_of,
  size_of, hash_of, parse_value, steps_of, describe_plan, unsigned_fields, signed, intent_record,
  parse_intent, max_steps, max_intent_bytes,
}

blank_fits : (k : Text) → fits k (blank_payload k) ≡ true
blank_fits k = elim (Bool-cases (k == codes "W")) [
  | inl e ↦ rw e e
  | inr e ↦ rw e (ground (arith, e))
]

ends_line-append : (s : Text) → ends_line (s ++ (10 ∷ [])) ≡ true
unfolding ends_line
ends_line-append [] = refl
ends_line-append (c ∷ []) = refl
ends_line-append (c ∷ (d ∷ s)) = ends_line-append (d ∷ s)

not_blank : (s : Text) → (s ++ (10 ∷ []) == []) ≡ false
unfolding ◌==◌
not_blank [] = refl
not_blank (c ∷ s) = refl

module _ (dumps : Json → Text) (loads : Text → Option Json) (sha256 normcase : Text → Text)
    (hexadecimal : (t : Text) → is_hash (sha256 t) ≡ true) where
  abbrev step : CheckedItem → Json
  step = step_of dumps loads sha256 normcase

  abbrev steps : List CheckedItem → Items
  steps = steps_of dumps loads sha256 normcase

  content-fits :
      (kind : Text) (p : Option Text)
      → fits kind p ≡ true
      → fits_content kind
          (size_of dumps loads sha256 normcase p)
          (some (hash_of dumps loads sha256 normcase p))
        ≡ true
  content-fits kind none h = ground (arith, h)
  content-fits kind (some bytes) h = rw (h, hexadecimal bytes) refl

  check_step-step : (c : CheckedItem) → IsChecked c → check_step (step c) ≡ ok tt
  unfolding check_step mem_field only_fields get_field ◌==◌ validate_plan validate_items
      validate_item
  check_step-step c k =
      rw (k.sort, k.cut, blank_fits c.kind, content-fits c.kind c.payload k.fitting) refl

  check_steps-steps : (cs : List CheckedItem) → All IsChecked cs → check_steps (steps cs) ≡ ok tt
  unfolding check_steps
  check_steps-steps [] h = refl
  check_steps-steps (c ∷ cs) h = rw (check_step-step c h.0) (check_steps-steps cs h.1)

  sorted-hash : (p : Option Text) → is_sorted (hash_of dumps loads sha256 normcase p) ≡ true
  unfolding is_sorted
  sorted-hash none = refl
  sorted-hash (some bytes) = refl

  sorted-steps : (cs : List CheckedItem) → all_sorted (steps cs) ≡ true
  unfolding is_sorted text_le ◌==◌
  sorted-steps [] = refl
  sorted-steps (c ∷ cs) = rw (sorted-hash c.payload) (sorted-steps cs)

  count-steps : (cs : List CheckedItem) → count_items (steps cs) ≡ length cs
  unfolding count_items
  count-steps [] = refl
  count-steps (c ∷ cs) = omega (arith, count-steps cs)

  -- The record of a plan with the digest that seals it.
  abbrev record_of : Text → Text → List ℕ → List ℕ → Items → Json
  record_of r o ri oi items = obj (
      signed dumps loads sha256 normcase
        (unsigned_fields dumps loads sha256 normcase r o ri oi items))

  abbrev pub sealed : Text → Text → List ℕ → List ℕ → List CheckedItem → Json
  sealed r o ri oi cs = record_of r o ri oi (steps cs)

  abbrev pub digest_of : Text → Text → List ℕ → List ℕ → List CheckedItem → Text
  digest_of r o ri oi cs = sha256 (
      json_text dumps loads sha256 normcase
        (obj (unsigned_fields dumps loads sha256 normcase r o ri oi (steps cs))))

  sealed-sorted :
      (r o : Text) (ri oi : List ℕ) (cs : List CheckedItem) → is_sorted (sealed r o ri oi cs) ≡ true
  unfolding is_sorted text_le ◌==◌
  sealed-sorted r o ri oi cs = rw (sorted-numbers oi, sorted-numbers ri, sorted-steps cs) refl

  abbrev read : Text → Text → Json → Result Intent
  read bytes root j = parse_value dumps loads sha256 normcase bytes root (some j)

  parse-sealed :
      (root r o o' : Text) (ri oi : List ℕ) (cs : List CheckedItem)
      → canonical_root normcase root ≡ ok r
      → canonical_root normcase o ≡ ok o'
      → checked_identity ri ≡ ok ri
      → checked_identity oi ≡ ok oi
      → All IsChecked cs
      → (leb 1 (length cs) && leb (length cs) max_steps) ≡ true
      → read
          (json_text dumps loads sha256 normcase (sealed r o ri oi cs))
          root
          (sealed r o ri oi cs)
        ≡ ok (record { total = length cs; digest = digest_of r o ri oi cs })
  unfolding mem_field only_fields get_field ◌==◌ drop_field
  parse-sealed root r o o' ri oi cs er eo ei ej each few =
      rw
        (
          er,
          eq_refl r,
          count-steps cs,
          few,
          eo,
          numbers_of-numbers ri,
          ei,
          numbers_of-numbers oi,
          ej,
          check_steps-steps cs each,
          eq_refl (digest_of r o ri oi cs),
          eq_refl (json_text dumps loads sha256 normcase (sealed r o ri oi cs)),
        )
        refl

  abbrev text : Json → Text
  text = json_text dumps loads sha256 normcase

  module _
      (sorted_texts : (j : Json)
        → is_sorted j ≡ true
        → loads (json_text dumps loads sha256 normcase j) ≡ some j) where
    -- The bytes of an intent record are read as an intent of as many steps as the plan has, under the
    -- same root, if the canonical path of the overlay is canonical too. JSON is read as it is written
    -- with sorted keys, and a digest is 64 hexadecimal digits.
    pub parse_intent-intent_record :
        (root overlay bytes : Text) (root_id overlay_id : List ℕ) (plan : List Item)
        → ((o : Text)
            → canonical_root normcase overlay ≡ ok o
            → (again : Text) × (canonical_root normcase o ≡ ok again))
        → intent_record dumps loads sha256 normcase root overlay root_id overlay_id plan ≡ ok bytes
        → (digest : Text) × (parse_intent dumps loads sha256 normcase bytes root
            ≡ ok (record { total = length plan; digest = digest }))
    unfolding intent_record describe_plan parse_intent validate_plan
    parse_intent-intent_record root overlay bytes root_id overlay_id plan again h =
        let (items, d0, h1) = >>=-eq-ok (describe_plan dumps loads sha256 normcase plan) _ h in
        let (r, r0, h2) = >>=-eq-ok (canonical_root normcase root) _ h1 in
        let (o, o0, h3) = >>=-eq-ok (canonical_root normcase overlay) _ h2 in
        let (ri, i0, h4) = >>=-eq-ok (checked_identity root_id) _ h3 in
        let (oi, j0, h5) = >>=-eq-ok (checked_identity overlay_id) _ h4 in
        let (cs, p0, d1) = >>=-eq-ok (validate_plan plan) _ d0 in
        let (u, u0, d2) =
          >>=-eq-ok (require (leb 1 (length cs) && leb (length cs) max_steps)) _ d1 in
        let described : items ≡ steps cs = sym (ok-injective (steps cs) items d2) in
        let (short, v0) = passed_guard value_error (ltb 10000 (length plan)) _ p0 in
        let (each, long) = validate_items-IsChecked plan cs v0 in
        let (o', again0) = again o o0 in
        let few = require-ok _ u u0 in
        written root r o o' ri oi bytes cs plan r0 again0 (checked_identity-again root_id ri i0)
          (checked_identity-again overlay_id oi j0) each few long items described h5
      where
        written :
            (root r o o' : Text) (ri oi : List ℕ) (bytes : Text) (cs : List CheckedItem)
            (plan : List Item)
            → canonical_root normcase root ≡ ok r
            → canonical_root normcase o ≡ ok o'
            → checked_identity ri ≡ ok ri
            → checked_identity oi ≡ ok oi
            → All IsChecked cs
            → (leb 1 (length cs) && leb (length cs) max_steps) ≡ true
            → length cs ≡ length plan
            → (items : Items) → items ≡ steps cs
            → (require (leb (length (text (record_of r o ri oi items))) max_intent_bytes)
                >>= λ small. ok (text (record_of r o ri oi items)))
              ≡ ok bytes
            → (digest : Text) × (parse_intent dumps loads sha256 normcase bytes root
                ≡ ok (record { total = length plan; digest = digest }))
        written root r o o' ri oi bytes cs plan er eo ei ej each few long items same h =
            let (u, small, last) =
              >>=-eq-ok (require (leb (length (text (sealed r o ri oi cs))) max_intent_bytes)) _
                (rw same at h) in
            let body = sealed r o ri oi cs in
            (
              digest_of r o ri oi cs,
              rw
                  (
                    ← ok-injective (text body) bytes last,
                    ends_line-append (dumps body),
                    not_blank (dumps body),
                    require-ok _ u small,
                    sorted_texts body (sealed-sorted r o ri oi cs),
                    ← long,
                  )
                  (parse-sealed root r o o' ri oi cs er eo ei ej each few),
            )
