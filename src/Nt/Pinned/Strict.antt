-- ===== src/Nt/Pinned/Strict.antt =====
-- What the loop over the records keeps: paths and payload IDs that a plan accepts, in a bounded number.
use userfreezer.Prelude.{
  ℕ, suc, ◌+◌, ◌≤◌, ◌≡◌, Bool, true, false, ◌&&◌, Option, none, some, List, [], ◌∷◌, leb, nat_eq,
  length, all_of, arith,
}
use userfreezer.Prelude.Text.{Text, codes, ◌==◌, eq_iff, eq_refl}
use userfreezer.Prelude.Dict.{
  Dict, lookup, insert, lookup-insert, lookup-erase, NodupKeys, NodupKeys-insert, all_of-insert,
}
use userfreezer.Prelude.Json.{Json, Fields, get_field, str, num}
use userfreezer.Core.Types.{Kind, written, made, deleted, unknown, Op}
use userfreezer.Core.Outcome.{Result, ok, err, >>=-eq-ok, ok-injective}
use userfreezer.Core.PayloadId.{valid_id}
use userfreezer.Core.Journal.{Loaded}
use userfreezer.Plan.{split_relative}
use userfreezer.Nt.Pinned.{take_source, as_flag, take_value, take_lines}
use userfreezer.Nt.Pinned.Loop.{IsTaken, take_value-cases}

abbrev pub is_ok : {A : Type 0} → Result A → Bool
is_ok (ok a) = true
is_ok (err e) = false

-- An operation as the strict loader leaves it, with the payload ID of its path.
abbrev pub fits_op : Kind → ℕ → Option Text → Bool
fits_op written d (some id) = nat_eq d 0 && valid_id id
fits_op made d none = nat_eq d 1
fits_op deleted d none = leb d 1
fits_op _ _ _ = false

abbrev pub is_strict : Dict Text → Text × Op → Bool
is_strict ids (rel, op) = is_ok (split_relative rel) && fits_op op.kind op.d (lookup rel ids)

pub record IsStrict (count : ℕ) (m : Loaded) : Type 0 where
  pub keys : NodupKeys m.ops
  pub each : all_of (is_strict m.write_payloads) m.ops ≡ true
  pub short : length m.ops ≤ count

length-insert :
    {V : Type 0} (k : Text) (v : V) (d : Dict V) → length (insert k v d) ≤ suc (length d)
unfolding insert
length-insert k v [] = omega arith
length-insert k v ((j, w) ∷ d) = ground (arith, length-insert k v d)

fits_op-taken :
    (kind : Kind) (rel : Text) (d : ℕ) (o : Option Json) (ids ids' : Dict Text)
    → d ≤ 1
    → take_source kind rel d o ids ≡ ok ids'
    → fits_op kind d (lookup rel ids') ≡ true
unfolding take_source
fits_op-taken written rel d (some (str src)) ids ids' l h =
    ground (arith, lookup-insert rel rel src ids, eq_refl rel)
fits_op-taken written rel d o ids ids' l h = cc
fits_op-taken made rel d none ids ids' l h = ground (arith, lookup-erase rel rel ids, eq_refl rel)
fits_op-taken made rel d (some j) ids ids' l h = cc
fits_op-taken deleted rel d none ids ids' l h =
    ground (arith, lookup-erase rel rel ids, eq_refl rel)
fits_op-taken deleted rel d (some j) ids ids' l h = cc
fits_op-taken (unknown k) rel d o ids ids' l h = cc

-- Other paths keep their payload IDs.
lookup-taken :
    (kind : Kind) (rel : Text) (d : ℕ) (o : Option Json) (ids ids' : Dict Text) (j : Text)
    → take_source kind rel d o ids ≡ ok ids'
    → (j == rel) ≡ false
    → lookup j ids' ≡ lookup j ids
unfolding take_source
lookup-taken written rel d (some (str src)) ids ids' j h e =
    ground (arith, lookup-insert rel j src ids, eq_iff j rel, eq_iff rel j)
lookup-taken written rel d o ids ids' j h e = cc
lookup-taken made rel d none ids ids' j h e =
    ground (arith, lookup-erase rel j ids, eq_iff j rel, eq_iff rel j)
lookup-taken made rel d (some v) ids ids' j h e = cc
lookup-taken deleted rel d none ids ids' j h e =
    ground (arith, lookup-erase rel j ids, eq_iff j rel, eq_iff rel j)
lookup-taken deleted rel d (some v) ids ids' j h e = cc
lookup-taken (unknown k) rel d o ids ids' j h e = cc

as_flag-small : (o : Option Json) (d : ℕ) → as_flag o ≡ ok d → d ≤ 1
as_flag-small none d h = ground arith
as_flag-small (some (num n)) d h = ground arith
as_flag-small o d h = cc

IsStrict-taken :
    (fs : Fields) (count : ℕ) (m n : Loaded)
    → IsStrict count m
    → IsTaken fs m n
    → IsStrict (suc count) n
IsStrict-taken fs count m n s t = rw t.ends (record {
  keys = NodupKeys-insert t.rel op m.ops s.keys;
  each =
      all_of-insert (is_strict m.write_payloads) (is_strict t.ids) t.rel op m.ops s.keys
        (rw t.checked (
          fits_op-taken t.kind t.rel t.d src m.write_payloads t.ids
            (as_flag-small (get_field (codes "d") fs) t.d t.flag) t.sourced))
        (λ j w e h. rw (lookup-taken t.kind t.rel t.d src m.write_payloads t.ids j t.sourced e) h)
        s.each;
  short = omega (arith, s.short, length-insert t.rel op m.ops);
})
  where
    op : Op
    op = record { seq = t.seq; kind = t.kind; d = t.d }

    src : Option Json
    src = get_field (codes "src") fs

IsStrict-mono : (a b : ℕ) (m : Loaded) → a ≤ b → IsStrict a m → IsStrict b m
IsStrict-mono a b m l s = record { keys = s.keys; each = s.each; short = omega (arith, l, s.short) }

pub take_lines-IsStrict :
    (loads : Text → Option Json) (raws : List Text) (count total : ℕ) (m n : Loaded)
    → count + length raws ≤ total
    → IsStrict count m
    → take_lines loads raws m ≡ ok n
    → IsStrict total n
unfolding take_lines
take_lines-IsStrict loads [] count total m n l s h =
    rw (← ok-injective m n h) (IsStrict-mono count total m (omega arith) s)
take_lines-IsStrict loads (raw ∷ raws) count total m n l s h =
    let (k, one, rest) = >>=-eq-ok (take_value (loads raw) m) _ h in
    let (fs, e, t) = take_value-cases (loads raw) m k one in
    take_lines-IsStrict loads raws (suc count) total k n (omega arith)
      (IsStrict-taken fs count m k s t) rest
