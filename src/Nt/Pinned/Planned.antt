-- ===== src/Nt/Pinned/Planned.antt =====
-- The operations that the loop keeps, as entries of a plan.
use userfreezer.Prelude.{
  ℕ, suc, ◌≤◌, ◌≡◌, refl, Bool, true, false, ◌&&◌, Option, none, some, List, [], ◌∷◌, ◌++◌, map,
  ltb-false_of_le, nat_eq, nat_eq_iff, length, all_of, arith, Bool-cases, and-eq-true, inl, inr,
}
use userfreezer.Prelude.Text.{Text, codes, ◌==◌, split, join, slash, push}
use userfreezer.Prelude.Text.Split.{split-cons}
use userfreezer.Prelude.Dict.{Dict, lookup}
use userfreezer.Core.Types.{Kind, written, made, deleted, unknown, Op, Ops}
use userfreezer.Core.Outcome.{Result, ok, err}
use userfreezer.Core.Commit.{insert_op, by_seq}
use userfreezer.Plan.{
  CheckedItem, is_kind, fits, validate_plan, validate_items, validate_item, split_relative,
}
use userfreezer.Nt.Bridge.{
  Entry, Meta, read_entry, read_entries, native_kind, blank_item, blank_payload, is_empty,
  preflight,
}
use userfreezer.Nt.Pinned.{kind_name, source_of, entries_of}
use userfreezer.Nt.Pinned.Strict.{is_ok, is_strict, fits_op}

length-insert_op : (e : Text × Op) (ops : Ops) → length (insert_op e ops) ≡ suc (length ops)
unfolding insert_op
length-insert_op e [] = refl
length-insert_op e (f ∷ ops) = ground (arith, length-insert_op e ops)

pub length-by_seq : (ops : Ops) → length (by_seq ops) ≡ length ops
unfolding by_seq
length-by_seq [] = refl
length-by_seq (e ∷ ops) = omega (arith, length-insert_op e (by_seq ops), length-by_seq ops)

all_of-insert_op :
    (p : Text × Op → Bool) (e : Text × Op) (ops : Ops)
    → all_of p (insert_op e ops) ≡ (p e && all_of p ops)
unfolding insert_op
all_of-insert_op p e [] = refl
all_of-insert_op p e (f ∷ ops) = ground (arith, all_of-insert_op p e ops)

pub all_of-by_seq : (p : Text × Op → Bool) (ops : Ops) → all_of p (by_seq ops) ≡ all_of p ops
unfolding by_seq
all_of-by_seq p [] = refl
all_of-by_seq p (e ∷ ops) = ground (arith, all_of-insert_op p e (by_seq ops), all_of-by_seq p ops)

join-push :
    (c : ℕ) (w : Text) (ws : List Text) → join slash (push c (w ∷ ws)) ≡ c ∷ join slash (w ∷ ws)
unfolding join
join-push c w [] = refl
join-push c w (v ∷ ws) = refl

join-split : (s : Text) → join slash (split slash s) ≡ s
unfolding split join
join-split [] = refl
join-split (c ∷ s) =
    let (w, ws, cut) = split-cons s in
    let rest : join slash (w ∷ ws) ≡ s = rw cut at (join-split s) in
    elim (Bool-cases (nat_eq c slash)) [
      | inl e ↦ rw (e, cut, rest) (ground (arith, nat_eq_iff c slash, e))
      | inr e ↦ rw (e, cut, join-push c w ws, rest) refl
    ]

-- An entry of the list that is returned, as the plan reads it.
pub record IsPlanned (ids : Dict Text) (e : Text × Op) : Type 0 where
  pub source : Option Text
  pub sourced : source_of ids e.0 e.1.kind ≡ ok source
  pub checked : CheckedItem
  pub meta : Meta
  pub read :
      read_entry (record {
        parts = split slash e.0;
        kind = kind_name e.1.kind;
        is_dir = e.1.d;
        source = source;
      })
      ≡ ok meta
  pub valid : validate_item (blank_item meta) ≡ ok checked

is_empty-split : (rel : Text) → is_empty (split slash rel) ≡ false
is_empty-split rel = let (w, ws, cut) = split-cons rel in rw cut refl

read_entry-split :
    (rel kind native : Text) (d : ℕ) (source : Option Text)
    → d ≤ 1
    → native_kind kind d source ≡ ok native
    → read_entry (record { parts = split slash rel; kind = kind; is_dir = d; source = source })
      ≡ ok (record { kind = native; path = rel; source = source })
unfolding read_entry
read_entry-split rel kind native d source l e =
    rw (is_empty-split rel, ltb-false_of_le 1 d l, e, join-split rel) refl

validate_item-blank :
    (native rel : Text) (source : Option Text) (parts : List Text)
    → is_kind native ≡ true
    → fits native (blank_payload native) ≡ true
    → split_relative rel ≡ ok parts
    → validate_item (blank_item (record { kind = native; path = rel; source = source }))
      ≡ ok (record { kind = native; path = rel; parts = parts; payload = blank_payload native })
unfolding validate_item
validate_item-blank native rel source parts k f cut = rw (k, cut, f) refl

is_ok-value : {A : Type 0} (r : Result A) → is_ok r ≡ true → (a : A) × (r ≡ ok a)
is_ok-value (ok a) h = (a, refl)
is_ok-value (err e) h = cc

IsPlanned-native :
    (ids : Dict Text) (rel native : Text) (op : Op) (source : Option Text) (parts : List Text)
    → op.d ≤ 1
    → source_of ids rel op.kind ≡ ok source
    → native_kind (kind_name op.kind) op.d source ≡ ok native
    → is_kind native ≡ true
    → fits native (blank_payload native) ≡ true
    → split_relative rel ≡ ok parts
    → IsPlanned ids (rel, op)
IsPlanned-native ids rel native op source parts l sourced e k f cut = record {
  source = source;
  sourced = sourced;
  checked = record { kind = native; path = rel; parts = parts; payload = blank_payload native };
  meta = record { kind = native; path = rel; source = source };
  read = read_entry-split rel (kind_name op.kind) native op.d source l e;
  valid = validate_item-blank native rel source parts k f cut;
}

IsPlanned-strict :
    (ids : Dict Text) (rel : Text) (op : Op) (kind : Kind) (o : Option Text) (parts : List Text)
    → op.kind ≡ kind
    → lookup rel ids ≡ o
    → split_relative rel ≡ ok parts
    → fits_op kind op.d o ≡ true
    → IsPlanned ids (rel, op)
unfolding native_kind ◌==◌
IsPlanned-strict ids rel op written (some id) parts k e cut h =
    IsPlanned-native ids rel (codes "W") op (some (codes "payloads/" ++ id)) parts
      (ground (arith, h)) (rw (k, source_of, e) refl) (rw k (ground (arith, h))) refl refl cut
IsPlanned-strict ids rel op written none parts k e cut h = cc
IsPlanned-strict ids rel op made none parts k e cut h =
    IsPlanned-native ids rel (codes "M") op none parts (ground (arith, h)) (rw k refl)
      (rw k (ground (arith, h))) refl refl cut
IsPlanned-strict ids rel op made (some id) parts k e cut h = cc
IsPlanned-strict ids rel op deleted none parts k e cut h = elim (Bool-cases (nat_eq op.d 0)) [
  | inl z ↦
      IsPlanned-native ids rel (codes "F") op none parts (ground (arith, h)) (rw k refl)
        (rw (k, z) refl) refl refl cut
  | inr z ↦
      IsPlanned-native ids rel (codes "D") op none parts (ground (arith, h)) (rw k refl)
        (rw (k, z) refl) refl refl cut
]
IsPlanned-strict ids rel op deleted (some id) parts k e cut h = cc
IsPlanned-strict ids rel op (unknown t) o parts k e cut h = cc

pub record IsPrepared (ids : Dict Text) (ops : Ops) : Type 0 where
  pub entries : List Entry
  pub metadata : List Meta
  pub checked : List CheckedItem
  pub listed : entries_of ids ops ≡ ok entries
  pub read : read_entries entries ≡ ok metadata
  pub valid : validate_items (map blank_item metadata) ≡ ok checked
  pub long : length entries ≡ length ops
  pub wide : length (map blank_item metadata) ≡ length ops

pub IsPrepared-strict :
    (ids : Dict Text) (ops : Ops) → all_of (is_strict ids) ops ≡ true → IsPrepared ids ops
unfolding entries_of read_entries validate_items
IsPrepared-strict ids [] h = record {
  entries = [];
  metadata = [];
  checked = [];
  listed = refl;
  read = refl;
  valid = refl;
  long = refl;
  wide = refl;
}
IsPrepared-strict ids ((rel, op) ∷ ops) h =
    let (here, more) = and-eq-true (is_strict ids (rel, op)) _ h in
    let (named, fit) = and-eq-true (is_ok (split_relative rel)) _ here in
    let (parts, cut) = is_ok-value (split_relative rel) named in
    let one = IsPlanned-strict ids rel op op.kind (lookup rel ids) parts refl refl cut fit in
    let rest = IsPrepared-strict ids ops more in
    record {
      entries =
          record {
            parts = split slash rel;
            kind = kind_name op.kind;
            is_dir = op.d;
            source = one.source;
          }
          ∷ rest.entries;
      metadata = one.meta ∷ rest.metadata;
      checked = one.checked ∷ rest.checked;
      listed = rw (one.sourced, rest.listed) refl;
      read = rw (one.read, rest.read) refl;
      valid = rw (one.valid, rest.valid) refl;
      long = omega (arith, rest.long);
      wide = omega (arith, rest.wide);
    }

pub preflight-prepared :
    (ids : Dict Text) (ops : Ops) (p : IsPrepared ids ops)
    → length ops ≤ 10000
    → preflight p.entries ≡ ok p.metadata
unfolding preflight validate_plan
preflight-prepared ids ops p l =
    rw
      (
        ltb-false_of_le 10000 (length p.entries) (omega (arith, p.long)),
        p.read,
        ltb-false_of_le 10000 (length (map blank_item p.metadata)) (omega (arith, p.wide)),
        p.valid,
      )
      refl
