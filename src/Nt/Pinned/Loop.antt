-- ===== src/Nt/Pinned/Loop.antt =====
-- The loop over the records against the core's own loader, `_load_journal`.
use userfreezer.Prelude.{
  ℕ, ◌<◌, ◌≡◌, refl, sym, ap, Bool, true, false, Option, none, some, List, [], ◌∷◌, ltb, arith,
  Bool-cases, inl, inr,
}
use userfreezer.Prelude.Text.{Text, codes}
use userfreezer.Prelude.Dict.{Dict, insert}
use userfreezer.Prelude.Json.{
  Json, null, bool, num, other_num, str, arr, obj, Fields, get_field, is_unique,
}
use userfreezer.Core.Types.{Kind, written, made, deleted, unknown}
use userfreezer.Core.Outcome.{Result, ok, >>=-eq-ok, ok-injective}
use userfreezer.Core.Overlay.{
  Overlay, Journal, Source, absent, ident, no_text, Rec, Line, broken, entry,
}
use userfreezer.Core.Journal.{Loaded}
use userfreezer.Plan.{
  CheckedItem, Item, is_kind, validate_plan, validate_items, validate_item, split_relative,
}
use userfreezer.Nt.Pinned.{
  as_nat, as_text, as_flag, kind_of, known, as_kind, probe, require, has_keys, take_source,
  take_fields, take_value,
}

-- A record as `_load_journal` reads its keys.
unfoldable pub number_of : Option Json → Option ℕ
number_of (some (num n)) = some n
number_of _ = none

unfoldable pub kind_read : Option Json → Option Kind
kind_read (some (str k)) = some (kind_of k)
kind_read _ = none

unfoldable pub path_read : Option Json → Option Text
path_read (some (str s)) = some s
path_read _ = none

unfoldable pub source_read : Option Json → Source
source_read none = absent
source_read (some (str s)) = ident s
source_read (some _) = no_text

abbrev pub rec_of : Fields → Rec
rec_of fs = record {
  seq = number_of (get_field (codes "seq") fs);
  op = kind_read (get_field (codes "op") fs);
  p = path_read (get_field (codes "p") fs);
  d = number_of (get_field (codes "d") fs);
  src = source_read (get_field (codes "src") fs);
}

unfoldable pub line_of : Option Json → Line
line_of (some (obj fs)) = entry (rec_of fs)
line_of _ = broken

abbrev Reads : {A : Type 0} → (Option Json → Result A) → (Option Json → A → Type 0) → Type 0
Reads {A} read Means = (o : Option Json) (a : A) → read o ≡ ok a → Means o a

as_nat-ok : Reads as_nat (λ o n. number_of o ≡ some n)
unfolding number_of
as_nat-ok none n h = cc
as_nat-ok (some (num k)) n h = ap some (ok-injective k n h)
as_nat-ok (some null) n h = cc
as_nat-ok (some (bool b)) n h = cc
as_nat-ok (some (other_num t)) n h = cc
as_nat-ok (some (str t)) n h = cc
as_nat-ok (some (arr js)) n h = cc
as_nat-ok (some (obj fs)) n h = cc

as_text-ok : Reads as_text (λ o t. path_read o ≡ some t)
unfolding path_read
as_text-ok none n h = cc
as_text-ok (some (str k)) n h = ap some (ok-injective k n h)
as_text-ok (some null) n h = cc
as_text-ok (some (bool b)) n h = cc
as_text-ok (some (other_num t)) n h = cc
as_text-ok (some (num t)) n h = cc
as_text-ok (some (arr js)) n h = cc
as_text-ok (some (obj fs)) n h = cc

known-same : (k l : Kind) → known k ≡ ok l → k ≡ l
known-same written l h = ok-injective written l h
known-same made l h = ok-injective made l h
known-same deleted l h = ok-injective deleted l h
known-same (unknown t) l h = cc

as_kind-ok : Reads as_kind (λ o k. kind_read o ≡ some k)
unfolding kind_read
as_kind-ok none n h = cc
as_kind-ok (some (str k)) n h = ap some (known-same (kind_of k) n h)
as_kind-ok (some null) n h = cc
as_kind-ok (some (bool b)) n h = cc
as_kind-ok (some (other_num t)) n h = cc
as_kind-ok (some (num t)) n h = cc
as_kind-ok (some (arr js)) n h = cc
as_kind-ok (some (obj fs)) n h = cc

pub require-ok : (b : Bool) (u : Unit {0}) → require b ≡ ok u → b ≡ true
require-ok true u h = refl
require-ok false u h = cc

-- A path that a plan accepts.
validated-path :
    (i : Item) (c : CheckedItem)
    → validate_item i ≡ ok c
    → (parts : List Text) × (split_relative i.path ≡ ok parts)
unfolding validate_item
validated-path i c h = elim (Bool-cases (is_kind i.kind)) [
  | inl e ↦ let (parts, cut, more) = >>=-eq-ok (split_relative i.path) _ (rw e at h) in (parts, cut)
  | inr e ↦ let refused = rw e at h in cc
]

probe-path :
    (i : Item) {items : List CheckedItem}
    → validate_plan (i ∷ []) ≡ ok items
    → (parts : List Text) × (split_relative i.path ≡ ok parts)
unfolding validate_plan validate_items
probe-path i h = let (c, one, rest) = >>=-eq-ok (validate_item i) _ h in validated-path i c one

path-probe : (kind : Kind) (rel : Text) → (probe kind rel).path ≡ rel
path-probe written rel = refl
path-probe made rel = refl
path-probe deleted rel = refl
path-probe (unknown k) rel = refl

-- What the loop has read of a record that it takes.
pub record IsTaken (fs : Fields) (m n : Loaded) : Type 0 where
  pub seq : ℕ
  pub d : ℕ
  pub rel : Text
  pub kind : Kind
  pub ids : Dict Text
  pub parts : List Text
  pub numbered : number_of (get_field (codes "seq") fs) ≡ some seq
  pub later : m.best_seq < seq
  pub flag : as_flag (get_field (codes "d") fs) ≡ ok d
  pub path : path_read (get_field (codes "p") fs) ≡ some rel
  pub sort : kind_read (get_field (codes "op") fs) ≡ some kind
  pub checked : split_relative rel ≡ ok parts
  pub sourced : take_source kind rel d (get_field (codes "src") fs) m.write_payloads ≡ ok ids
  pub ends : n ≡ record {
    ops = insert rel (record { seq = seq; kind = kind; d = d }) m.ops;
    write_payloads = ids;
    best_seq = seq;
  }

pub take_fields-IsTaken : (fs : Fields) (m n : Loaded) → take_fields fs m ≡ ok n → IsTaken fs m n
unfolding take_fields
take_fields-IsTaken fs m n h =
    let (all, h0, h1) = >>=-eq-ok (require (has_keys fs)) _ h in
    let (seq, q0, h2) = >>=-eq-ok (as_nat (get_field (codes "seq") fs)) _ h1 in
    let (later, l0, h3) = >>=-eq-ok (require (ltb m.best_seq seq)) _ h2 in
    let (d, d0, h4) = >>=-eq-ok (as_flag (get_field (codes "d") fs)) _ h3 in
    let (rel, r0, h5) = >>=-eq-ok (as_text (get_field (codes "p") fs)) _ h4 in
    let (kind, k0, h6) = >>=-eq-ok (as_kind (get_field (codes "op") fs)) _ h5 in
    let (items, c0, h7) = >>=-eq-ok (validate_plan (probe kind rel ∷ [])) _ h6 in
    let (ids, s0, h8) =
      >>=-eq-ok (take_source kind rel d (get_field (codes "src") fs) m.write_payloads) _ h7 in
    let (parts, cut) = probe-path (probe kind rel) c0 in
    record {
      seq = seq;
      d = d;
      rel = rel;
      kind = kind;
      ids = ids;
      parts = parts;
      numbered = as_nat-ok (get_field (codes "seq") fs) seq q0;
      later = ground (arith, require-ok _ later l0);
      flag = d0;
      path = as_text-ok _ rel r0;
      sort = as_kind-ok _ kind k0;
      checked = rw (path-probe kind rel) at cut;
      sourced = s0;
      ends = sym (ok-injective _ _ h8);
    }

pub take_value-cases :
    (o : Option Json) (m n : Loaded)
    → take_value o m ≡ ok n
    → (fs : Fields) × (o ≡ some (obj fs)) × IsTaken fs m n
take_value-cases none m n h = cc
take_value-cases (some (obj fs)) m n h = elim (Bool-cases (is_unique (obj fs))) [
  | inl e ↦ (fs, refl, take_fields-IsTaken fs m n (rw e at h))
  | inr e ↦ let refused = rw e at h in cc
]
take_value-cases (some null) m n h = cc
take_value-cases (some (bool b)) m n h = cc
take_value-cases (some (num b)) m n h = cc
take_value-cases (some (other_num b)) m n h = cc
take_value-cases (some (str b)) m n h = cc
take_value-cases (some (arr b)) m n h = cc
