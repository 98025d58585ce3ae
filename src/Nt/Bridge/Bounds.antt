-- ===== src/Nt/Bridge/Bounds.antt =====
-- What a prepared plan holds, and how many bytes.
use Prim.Native.Nat.{min}
use userfreezer.Prelude.{
  ℕ, ◌+◌, ◌-◌, ◌*◌, ◌≤◌, ◌≡◌, refl, sym, ap, ◌∙◌, ◌||◌, Option, none, some, List, [], ◌∷◌, map, ltb,
  length, arith, Bool-cases, inl, inr, All, ◌⊎◌, Bool, true, false, nat_eq, ◌&&◌,
}
use userfreezer.Prelude.Text.{Text, codes, ◌==◌, join, slash}
use userfreezer.Core.Outcome.{
  Result, ok, >>=-eq-ok, ok-injective, value_error, passed_guard, held_guard,
}
use userfreezer.Plan.{Item, validate_plan, fits}
use userfreezer.Nt.Bridge.{
  Entry, Meta, native_kind, read_entry, read_entries, blank_item, preflight, mebi, within_limits,
  load_one, is_empty, is_given, is_none, load_all, prepare_native_plan,
}

abbrev pub payload_bytes : Option Text → ℕ
payload_bytes none = 0
payload_bytes (some bytes) = length bytes

abbrev pub plan_bytes : List Item → ℕ
plan_bytes [] = 0
plan_bytes (i ∷ is) = payload_bytes i.payload + plan_bytes is

-- The first loop keeps the source of an entry, and its path.
native_kind-cases :
    (kind native : Text) (is_dir : ℕ) (source : Option Text)
    → native_kind kind is_dir source ≡ ok native
    → (((kind == codes "W") ≡ true) × (native ≡ codes "W"))
      ⊎ (((kind == codes "M") ≡ true) × (native ≡ codes "M"))
      ⊎ (((kind == codes "D") ≡ true) × (nat_eq is_dir 0 ≡ true) × (native ≡ codes "F"))
      ⊎ (((kind == codes "D") ≡ true) × (nat_eq is_dir 0 ≡ false) × (native ≡ codes "D"))
unfolding native_kind
native_kind-cases kind native is_dir source h = elim (Bool-cases (kind == codes "W")) [
  | inl w ↦
      let (good, same) =
        held_guard value_error (nat_eq is_dir 0 && is_given source) _ (rw w at h) in
      inl (w, sym (ok-injective _ native same))
  | inr w ↦ elim (Bool-cases (kind == codes "M")) [
    | inl m ↦
        let (good, same) =
          held_guard value_error (nat_eq is_dir 1 && is_none source) _ (rw (w, m) at h) in
        inr (inl (m, sym (ok-injective _ native same)))
    | inr m ↦
        let (d, h1) = held_guard value_error (kind == codes "D") _ (rw (w, m) at h) in
        let (good, same) = held_guard value_error (is_none source) _ h1 in
        elim (Bool-cases (nat_eq is_dir 0)) [
          | inl z ↦ inr (inr (inl (d, z, sym (ok-injective _ native (rw z at same)))))
          | inr z ↦ inr (inr (inr (d, z, sym (ok-injective _ native (rw z at same)))))
        ]
  ]
]

read_entry-kept :
    (e : Entry) (meta : Meta)
    → read_entry e ≡ ok meta
    → (native_kind e.kind e.is_dir e.source ≡ ok meta.kind)
      × (meta.path ≡ join slash e.parts)
      × (meta.source ≡ e.source)
unfolding read_entry
read_entry-kept e meta h =
    let (allowed, rest) = passed_guard value_error (is_empty e.parts || ltb 1 e.is_dir) _ h in
    let (kind, one, last) = >>=-eq-ok (native_kind e.kind e.is_dir e.source) _ rest in
    ground (arith, one, ok-injective _ meta last)

-- What an entry asks for: the kind of its item and whether it has bytes. A deletion is one of a tree
-- exactly if the entry is a directory's.
abbrev pub AsksFor : Entry → Text → Bool → Type 0
AsksFor e native filled =
    (((e.kind == codes "W") ≡ true) × (native ≡ codes "W") × (filled ≡ true))
    ⊎ (((e.kind == codes "M") ≡ true) × (native ≡ codes "M") × (filled ≡ false))
    ⊎ (((e.kind == codes "D") ≡ true)
        × (nat_eq e.is_dir 0 ≡ true)
        × (native ≡ codes "F")
        × (filled ≡ false))
    ⊎ (((e.kind == codes "D") ≡ true)
        × (nat_eq e.is_dir 0 ≡ false)
        × (native ≡ codes "D")
        × (filled ≡ false))

abbrev is_filled : Option Text → Bool
is_filled none = false
is_filled (some bytes) = true

filled-fits :
    (native : Text) (payload : Option Text)
    → fits native payload ≡ true
    → is_filled payload ≡ (native == codes "W")
filled-fits native none f = ground (arith, f)
filled-fits native (some bytes) f = sym f

asks_for :
    (e : Entry) (native : Text) (payload : Option Text)
    → native_kind e.kind e.is_dir e.source ≡ ok native
    → fits native payload ≡ true
    → AsksFor e native (is_filled payload)
unfolding ◌==◌
asks_for e native payload h f =
    let filled = filled-fits native payload f in
    let filling = λ (k : Text) (n : native ≡ k). filled ∙ ap (λ (t : Text). t == codes "W") n in
    elim (native_kind-cases e.kind native e.is_dir e.source h) [
      | inl (w, n) ↦ inl (w, n, filling (codes "W") n)
      | inr (inl (m, n)) ↦ inr (inl (m, n, filling (codes "M") n))
      | inr (inr (inl (d, z, n))) ↦ inr (inr (inl (d, z, n, filling (codes "F") n)))
      | inr (inr (inr (d, z, n))) ↦ inr (inr (inr (d, z, n, filling (codes "D") n)))
    ]

add_zero : (n : ℕ) → n + 0 ≡ n
add_zero n = omega arith

module _ (payload_loader : Option Text → ℕ → Result Text) (max_payload max_total : ℕ) where
  abbrev load : ℕ → List Meta → Result (List Item)
  load = load_all payload_loader max_payload max_total

  -- The bytes are what the reader gave for the source.
  abbrev pub ReadFrom : Option Text → Option Text → Type 0
  ReadFrom source none = Unit
  ReadFrom source (some bytes) =
      (limit : ℕ) × (limit ≤ max_payload) × (payload_loader source limit ≡ ok bytes)

  abbrev pub Does : Entry → Item → Type 0
  Does e i =
      AsksFor e i.kind (is_filled i.payload)
      × (i.path ≡ join slash e.parts)
      × ReadFrom e.source i.payload

  -- The items do for each entry, in order, what it asks for.
  abbrev pub Follows : List Entry → List Item → Type 0
  Follows [] [] = Unit
  Follows [] (i ∷ is) = ⊥
  Follows (e ∷ es) [] = ⊥
  Follows (e ∷ es) (i ∷ is) = Does e i × Follows es is

  -- One round of the second loop.
  pub record IsRound (total : ℕ) (meta : Meta) (metadata : List Meta) (plan : List Item)
      : Type 0 where
    pub payload : Option Text
    pub rest : List Item
    pub more : load (total + payload_bytes payload) metadata ≡ ok rest
    pub first : payload_bytes payload ≤ max_payload
    pub sum : total + payload_bytes payload ≤ max_total
    pub fitting : fits meta.kind payload ≡ true
    pub given : ReadFrom meta.source payload
    pub ends : plan ≡ record { kind = meta.kind; path = meta.path; payload = payload } ∷ rest

  round :
      (total : ℕ) (meta : Meta) (metadata : List Meta) (plan : List Item)
      → total ≤ max_total
      → load total (meta ∷ metadata) ≡ ok plan
      → IsRound total meta metadata plan
  unfolding load_all load_one
  round total meta metadata plan l h = elim (Bool-cases (meta.kind == codes "W")) [
    | inl e ↦
        let (payload, one, rest) =
          >>=-eq-ok (load_one payload_loader max_payload max_total total meta.source) _
            (rw e at h) in
        let (raw, read, within) =
          >>=-eq-ok (payload_loader meta.source (min max_payload (max_total - total))) _ one in
        let (small, same) =
          passed_guard value_error
            (ltb max_payload (length raw) || ltb max_total (total + length raw)) _ within in
        let (more, two, last) = >>=-eq-ok (load (total + length payload) metadata) _ rest in
        let equal = ok-injective raw payload same in
        record {
          payload = some payload;
          rest = more;
          more = two;
          first = ground (arith, small, equal);
          sum = ground (arith, small, equal);
          fitting = e;
          given = (
            min max_payload (max_total - total),
            omega arith,
            read ∙ ap (λ (t : Text). ok t) equal,
          );
          ends = sym (ok-injective _ plan last);
        }
    | inr e ↦
        let (more, two, last) = >>=-eq-ok (load total metadata) _ (rw e at h) in
        record {
          payload = none;
          rest = more;
          more = rw (add_zero total) two;
          first = omega arith;
          sum = omega (arith, l);
          fitting = rw e refl;
          given = tt;
          ends = sym (ok-injective _ plan last);
        }
  ]

  abbrev pub IsSmall : Item → Type 0
  IsSmall i = payload_bytes i.payload ≤ max_payload

  -- The items that were made of the metadata, after `total` bytes.
  pub record IsLoaded (total : ℕ) (metadata : List Meta) (plan : List Item) : Type 0 where
    pub sum : total + plan_bytes plan ≤ max_total
    pub small : All IsSmall plan
    pub named : (es : List Entry) → read_entries es ≡ ok metadata → Follows es plan

  load_all-IsLoaded :
      (metadata : List Meta) (total : ℕ) (plan : List Item)
      → total ≤ max_total
      → load total metadata ≡ ok plan
      → IsLoaded total metadata plan
  unfolding load_all read_entries
  load_all-IsLoaded [] total plan l h =
      rw (← ok-injective [] plan h)
        (record { sum = omega (arith, l); small = tt; named = λ es e. no_entries es e })
    where
      no_entries : (es : List Entry) → read_entries es ≡ ok [] → Follows es []
      no_entries [] e = tt
      no_entries (x ∷ es) e =
          let (meta, one, more) = >>=-eq-ok (read_entry x) _ e in
          let (rest, two, last) = >>=-eq-ok (read_entries es) _ more in cc (ok-injective _ [] last)
  load_all-IsLoaded (meta ∷ metadata) total plan l h =
      let r = round total meta metadata plan l h in
      let ih = load_all-IsLoaded metadata (total + payload_bytes r.payload) r.rest r.sum r.more in
      rw r.ends (record {
        sum = omega (arith, ih.sum);
        small = (r.first, ih.small);
        named = λ es e. some_entries r.payload r.rest r.fitting r.given ih.named es e;
      })
    where
      some_entries :
          (payload : Option Text) (rest : List Item)
          → fits meta.kind payload ≡ true
          → ReadFrom meta.source payload
          → ((es : List Entry) → read_entries es ≡ ok metadata → Follows es rest)
          → (es : List Entry) → read_entries es ≡ ok (meta ∷ metadata)
          → Follows es (record { kind = meta.kind; path = meta.path; payload = payload } ∷ rest)
      some_entries payload rest fitting given more [] e = cc (ok-injective [] _ e)
      some_entries payload rest fitting given more (x ∷ es) e =
          let (first, one, next) = >>=-eq-ok (read_entry x) _ e in
          let (others, two, last) = >>=-eq-ok (read_entries es) _ next in
          let same = ok-injective (first ∷ others) (meta ∷ metadata) last in
          let heads : first ≡ meta = cc same in
          let tails : others ≡ metadata = cc same in
          let (kind, path, from) = read_entry-kept x meta (rw heads at one) in
          (
            (asks_for x meta.kind payload kind fitting, path, rw (← from) given),
            more es (rw tails at two),
          )

  -- A plan that `prepare_native_plan` returns has one item for each entry, in their order and on its
  -- path: for "W" a write of bytes that the reader gave for the entry's source, for "M" a
  -- directory, and for "D" the removal of a file or, where the entry is a directory's, of a tree.
  -- No payload is longer than `max_payload`, all together hold at most `max_total` bytes, and that
  -- is at most 64 MiB.
  pub prepare_native_plan-bounds :
      (entries : List Entry) (plan : List Item)
      → prepare_native_plan payload_loader max_payload max_total entries ≡ ok plan
      → Follows entries plan
        × All IsSmall plan
        × (plan_bytes plan ≤ max_total)
        × (max_total ≤ 64 * mebi)
  unfolding prepare_native_plan preflight
  prepare_native_plan-bounds entries plan h =
      let (limits, h1) = held_guard value_error (within_limits max_payload max_total) _ h in
      let (metadata, flight, h2) = >>=-eq-ok (preflight entries) _ h1 in
      let (items, loaded, h3) = >>=-eq-ok (load 0 metadata) _ h2 in
      let (checked, c, last) = >>=-eq-ok (validate_plan items) _ h3 in
      let (few, h4) = passed_guard value_error (ltb 10000 (length entries)) _ flight in
      let (metas, read, h5) = >>=-eq-ok (read_entries entries) _ h4 in
      let (c', v, h6) = >>=-eq-ok (validate_plan (map blank_item metas)) _ h5 in
      let l = load_all-IsLoaded metadata 0 items (omega arith) loaded in
      rw (← ok-injective items plan last)
        (l.named entries (read ∙ h6), l.small, omega (arith, l.sum), ground (arith, limits))
