-- ===== src/Nt/Bridge/Total.antt =====
-- When a plan is prepared, given what the reader of payloads promises.
use Prim.Native.Nat.{min}
use userfreezer.Prelude.{
  ℕ, ◌+◌, ◌-◌, ◌≤◌, ◌<◌, ◌*◌, ◌≡◌, refl, Bool, true, false, All, ◌⊎◌, if◌then◌else◌, Option, none,
  some, List, [], ◌∷◌, map, ltb, length, length-map, arith, Bool-cases, inl, inr, ltb-false_of_le,
}
use userfreezer.Prelude.Text.{Text, codes, ◌==◌}
use userfreezer.Core.Outcome.{
  Result, ok, value_error, >>=-eq-ok, ok-injective, passed_guard, held_guard,
}
use userfreezer.Plan.{
  Item, CheckedItem, validate_plan, validate_items, validate_item, split_relative, fits, is_kind,
}
use userfreezer.Nt.Bridge.{
  Entry, Meta, blank_item, preflight, within_limits, read_entries, load_one, load_all,
  prepare_native_plan, mebi,
}

abbrev item_of : Meta → Option Text → Item
item_of meta payload = record { kind = meta.kind; path = meta.path; payload = payload }

-- The check of an item looks at its payload only to see whether there is one.
validate_item-payload :
    (meta : Meta) (payload : Option Text) (c : CheckedItem)
    → validate_item (blank_item meta) ≡ ok c
    → fits meta.kind payload ≡ true
    → (c' : CheckedItem) × (validate_item (item_of meta payload) ≡ ok c')
unfolding validate_item
validate_item-payload meta payload c h f =
    let (kind, more) = held_guard value_error (is_kind meta.kind) _ h in
    let (parts, cut, rest) = >>=-eq-ok (split_relative meta.path) _ more in
    (
      record { kind = meta.kind; path = meta.path; parts = parts; payload = payload },
      rw (kind, cut, f) refl,
    )

min-le : (a b : ℕ) → min a b ≤ a
min-le a b = omega arith

-- The bytes that the plan will hold.
abbrev pub content_bytes : (Option Text → Text) → Meta → ℕ
content_bytes content meta = if meta.kind == codes "W" then length (content meta.source) else 0

abbrev pub planned_bytes : (Option Text → Text) → List Meta → ℕ
planned_bytes content [] = 0
planned_bytes content (meta ∷ metadata) =
    content_bytes content meta + planned_bytes content metadata

-- A write reads from a source that can be read, and not too much.
abbrev pub IsReadable : (Option Text → Bool) → (Option Text → Text) → ℕ → Meta → Type 0
IsReadable readable content max_payload meta =
    ((meta.kind == codes "W") ≡ false)
    ⊎ ((readable meta.source ≡ true) × (length (content meta.source) ≤ max_payload))

-- The reader gives what a source contains for every limit that the loader of
-- nt_overlay_payload_experimental.py takes, from 1 byte to 16 MiB, if it is enough.
module _ (payload_loader : Option Text → ℕ → Result Text) (max_payload max_total : ℕ)
    (readable : Option Text → Bool) (content : Option Text → Text)
    (obeys : (source : Option Text) (limit : ℕ)
      → readable source ≡ true
      → 1 ≤ limit
      → limit ≤ 16 * mebi
      → length (content source) ≤ limit
      → payload_loader source limit ≡ ok (content source)) where
  load_one-total :
      (total : ℕ) (source : Option Text)
      → within_limits max_payload max_total ≡ true
      → readable source ≡ true
      → length (content source) ≤ max_payload
      → total + length (content source) < max_total
      → (payload : Text) × (load_one payload_loader max_payload max_total total source ≡ ok payload)
        × (length payload ≡ length (content source))
  unfolding load_one
  load_one-total total source limits r small fit =
      let first : 1 ≤ max_payload = ground (arith, limits) in
      let top : max_payload ≤ 16 * mebi = ground (arith, limits) in
      (
        content source,
        rw
            (
              obeys source (min max_payload (max_total - total)) r (omega (arith, first, fit))
                  (omega (arith, top)) (omega (arith, small, fit)),
              ltb-false_of_le max_payload (length (content source)) small,
              ltb-false_of_le max_total (total + length (content source)) (omega (arith, fit)),
            )
            refl,
        refl,
      )

  readable_source :
      (meta : Meta)
      → (meta.kind == codes "W") ≡ true
      → IsReadable readable content max_payload meta
      → (readable meta.source ≡ true) × (length (content meta.source) ≤ max_payload)
  readable_source meta e (inl n) = cc
  readable_source meta e (inr r) = r

  module _ (meta : Meta) (metadata : List Meta) (total : ℕ)
      (fit : total + planned_bytes content (meta ∷ metadata) < max_total) where
    write_room : (meta.kind == codes "W") ≡ true → total + length (content meta.source) < max_total
    write_room e = ground (arith, e, fit)

    rest_room :
        (payload : Text)
        → (meta.kind == codes "W") ≡ true
        → length payload ≡ length (content meta.source)
        → total + length payload + planned_bytes content metadata < max_total
    rest_room payload e same = ground (arith, e, fit, same)

    skip_room :
        (meta.kind == codes "W") ≡ false → total + planned_bytes content metadata < max_total
    skip_room e = ground (arith, e, fit)

  -- What the second loop makes of metadata that have been checked.
  record IsTotal (total : ℕ) (metadata : List Meta) : Type 0 where
    plan : List Item
    loaded : load_all payload_loader max_payload max_total total metadata ≡ ok plan
    checked : List CheckedItem
    valid : validate_items plan ≡ ok checked
    long : length plan ≡ length metadata

  metadata-IsTotal :
      (metadata : List Meta) (total : ℕ) (cs : List CheckedItem)
      → within_limits max_payload max_total ≡ true
      → All (IsReadable readable content max_payload) metadata
      → total + planned_bytes content metadata < max_total
      → validate_items (map blank_item metadata) ≡ ok cs
      → IsTotal total metadata
  unfolding load_all validate_items
  metadata-IsTotal [] total cs limits r l h = record {
    plan = [];
    loaded = refl;
    checked = [];
    valid = refl;
    long = refl;
  }
  metadata-IsTotal (meta ∷ metadata) total cs limits (r, rs) l h =
      let (c, one, more) = >>=-eq-ok (validate_item (blank_item meta)) _ h in
      let (cs', rest, last) = >>=-eq-ok (validate_items (map blank_item metadata)) _ more in
      elim (Bool-cases (meta.kind == codes "W")) [
        | inl e ↦
            let (known, small) = readable_source meta e r in
            let (payload, read, same) =
              load_one-total total meta.source limits known small
                (write_room meta metadata total l e) in
            let ih =
              metadata-IsTotal metadata (total + length payload) cs' limits rs
                (rest_room meta metadata total l payload e same) rest in
            let (c', valid) = validate_item-payload meta (some payload) c one e in
            record {
              plan = item_of meta (some payload) ∷ ih.plan;
              loaded = rw (e, read, ih.loaded) refl;
              checked = c' ∷ ih.checked;
              valid = rw (valid, ih.valid) refl;
              long = omega (arith, ih.long);
            }
        | inr e ↦
            let ih =
              metadata-IsTotal metadata total cs' limits rs (skip_room meta metadata total l e)
                rest in
            let (c', valid) = validate_item-payload meta none c one (rw e refl) in
            record {
              plan = item_of meta none ∷ ih.plan;
              loaded = rw (e, ih.loaded) refl;
              checked = c' ∷ ih.checked;
              valid = rw (valid, ih.valid) refl;
              long = omega (arith, ih.long);
            }
      ]

  flown :
      (entries : List Entry) (metadata : List Meta)
      → preflight entries ≡ ok metadata
      → (length metadata ≤ 10000)
        × ((cs : List CheckedItem) × (validate_items (map blank_item metadata) ≡ ok cs))
  unfolding preflight validate_plan
  flown entries metadata h =
      let (few, h1) = passed_guard value_error (ltb 10000 (length entries)) _ h in
      let (metas, read, h2) = >>=-eq-ok (read_entries entries) _ h1 in
      let (checked, c, last) = >>=-eq-ok (validate_plan (map blank_item metas)) _ h2 in
      let (short, valid) =
        passed_guard value_error (ltb 10000 (length (map blank_item metas))) _ c in
      let wide = length-map blank_item metas in
      rw (← ok-injective metas metadata last) (ground (arith, short, wide), (checked, valid))

  -- With limits in range, where the sources of all writes can be read, none holds more than
  -- `max_payload` bytes and together they hold less than `max_total`, the checks before the first
  -- payload decide: if they pass, a plan is returned. The reader gives what a source holds for
  -- every limit from 1 byte to 16 MiB that it fits in.
  pub prepare_native_plan-total :
      (entries : List Entry) (metadata : List Meta)
      → within_limits max_payload max_total ≡ true
      → preflight entries ≡ ok metadata
      → All (IsReadable readable content max_payload) metadata
      → planned_bytes content metadata < max_total
      → (plan : List Item) × (prepare_native_plan payload_loader max_payload max_total entries
          ≡ ok plan)
  unfolding prepare_native_plan validate_plan
  prepare_native_plan-total entries metadata limits flight known fit =
      let (few, valid) = flown entries metadata flight in
      let (cs, v) = valid in
      let t = metadata-IsTotal metadata 0 cs limits known (omega (arith, fit)) v in
      (
        t.plan,
        rw
            (
              limits,
              flight,
              t.loaded,
              ltb-false_of_le 10000 (length t.plan) (omega (arith, few, t.long)),
              t.valid,
            )
            refl,
      )
