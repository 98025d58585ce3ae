-- ===== src/Core/Invariant/Marking.antt =====
-- The marker operations, `mkdirs` and `remove`, keep an instance well-formed.
use userfreezer.Prelude.{
  all_of, and-eq-true, [], if◌then◌else◌, ℕ, suc, ◌≡◌, refl, sym, ◌∙◌, true, false, some, List, ◌∷◌,
  All, arith, Bool-cases, inl, inr,
}
use userfreezer.Prelude.Text.{Text, ◌==◌, eq_iff, eq_refl, join, slash}
use userfreezer.Prelude.Text.Split.{join-ne-nil}
use userfreezer.Prelude.Dict.{Dict, lookup, insert, erase, lookup-insert, lookup-erase}
use userfreezer.Core.Types.{Ops, Kind, written, made, Op}
use userfreezer.Core.Outcome.{ok, err, Error}
use userfreezer.Core.RelPath.Safety.{IsSafe, IsSafe-NoSlash}
use userfreezer.Core.Overlay.{blocked_above, absent, Overlay, append, put_marker, mem}
use userfreezer.Core.Journal.{source, has_content}
use userfreezer.Core.Journal.Replay.{new_rec}
use userfreezer.Core.Instance.{
  on_disk, with_temp, DeepFreezer, directory, journal, journal_rec, set_op,
}
use userfreezer.Core.Api.{make_at_with, remove_at_with, Target, make_at, remove_at}
use userfreezer.Core.Invariant.{Well, IsWell, IdBelow}
use userfreezer.Core.Invariant.Step.{IsWell-next}

-- A marker that was put is there, and so are the others.
pub put_marker-mem :
    (rel : Text) (ks ks' : List Text) → put_marker rel ks ≡ ok ks' → mem rel ks' ≡ true
unfolding put_marker
put_marker-mem rel ks ks' h = ground (arith, h, eq_refl rel)

put_marker-kept :
    (rel : Text) (ks ks' : List Text) (j : Text)
    → put_marker rel ks ≡ ok ks'
    → mem j ks ≡ true
    → mem j ks' ≡ true
unfolding put_marker
put_marker-kept rel ks ks' j h m = ground (arith, h, m)

-- The instance where a marker cannot be put.
abbrev pub unmarked_state : Text → List Text → DeepFreezer → Overlay → DeepFreezer
unmarked_state key ks s o = if blocked_above key ks then s else on_disk s (with_temp key o)

module _ (T : Target) (s : DeepFreezer) (o : Overlay) (parts : List Text) (x : Error) where
  pub make_at_failed :
      s.disk.overlay ≡ directory o
      → put_marker (join slash parts) o.md ≡ err x
      → make_at T parts s ≡ (err x, unmarked_state (join slash parts) o.md s o)
  unfolding make_at_with
  make_at_failed e m = rw (e, m)

  pub remove_at_failed :
      (d : ℕ)
      → s.disk.overlay ≡ directory o
      → put_marker (join slash parts) o.del ≡ err x
      → remove_at T parts d s ≡ (err x, unmarked_state (join slash parts) o.del s o)
  unfolding remove_at_with
  remove_at_failed d e m = rw (e, m)

-- A temporary file changes nothing that the invariant is about.
temp-has_content :
    (key : Text) (o : Overlay) (ids : Dict Text) (ops : Ops)
    → all_of (has_content o ids) ops ≡ true
    → all_of (has_content (with_temp key o) ids) ops ≡ true
unfolding has_content
temp-has_content key o ids [] h = refl
temp-has_content key o ids ((k, op) ∷ ops) h =
    let (c, rest) = and-eq-true (has_content o ids (k, op)) _ h in
    rw c (temp-has_content key o ids ops rest)

pub unmarked-Well :
    (s : DeepFreezer) (o : Overlay) (ids : Dict Text) (key : Text) (ks : List Text)
    → IsWell s o ids
    → Well (unmarked_state key ks s o)
unmarked-Well s o ids key ks w = elim (Bool-cases (blocked_above key ks)) [
  | inl e ↦ rw e (o, ids, w)
  | inr e ↦ rw e (
    with_temp key o,
    ids,
    record {
      on_disk = refl;
      unmarked = w.unmarked;
      same_manifest = w.same_manifest;
      seqs = w.seqs;
      keys = w.keys;
      nodup = w.nodup;
      ids_below = w.ids_below;
      ids_same = w.ids_same;
      ended = w.ended;
      whole = w.whole;
      replayed = w.replayed;
      contents = temp-has_content key o ids s.ops w.contents;
    },
  )
]

module _ (s : DeepFreezer) (o : Overlay) (ids : Dict Text) (p : Text) (ps : List Text) (d : ℕ)
    (ks : List Text) where
  abbrev key : Text
  key = join slash (p ∷ ps)

  abbrev pub marked_ids : Dict Text
  marked_ids = erase key ids

  abbrev pub marked_state : Overlay → Kind → DeepFreezer
  marked_state o' kind = record s {
    disk = record s.disk { overlay = directory o' };
    seq = suc s.seq;
    ops = insert key (record { seq = suc s.seq; kind = kind; d = d }) s.ops;
  }

  abbrev pub made_overlay : Overlay
  made_overlay = record o { md = ks; journal = append o.journal (new_rec s.seq made key d absent) }

  abbrev pub removed_overlay : Overlay
  removed_overlay = record o {
    del = ks;
    journal = append o.journal (new_rec s.seq Kind.deleted key d absent);
  }

  ids_below :
      ((k i : Text) → lookup k s.write_payloads ≡ some i → IdBelow s.seq i)
      → (k i : Text) → lookup k s.write_payloads ≡ some i
      → IdBelow (suc s.seq) i
  ids_below below k i e = let (n, le, named) = below k i e in (n, omega arith, named)

  ids_same :
      (kind : Kind)
      → (kind ≡ written → ⊥)
      → ((k : Text) (op : Op)
          → lookup k s.ops ≡ some op
          → op.kind ≡ written
          → lookup k ids ≡ lookup k s.write_payloads)
      → (k : Text) (op : Op)
      → lookup k (insert key (record { seq = suc s.seq; kind = kind; d = d }) s.ops) ≡ some op
      → op.kind ≡ written
      → lookup k marked_ids ≡ lookup k s.write_payloads
  ids_same kind other same k op e t = elim (Bool-cases (key == k)) [
    | inl b ↦ absurd (
        other (
          ground (
            arith,
            lookup-insert key k (record { seq = suc s.seq; kind = kind; d = d }) s.ops,
            e,
            t,
            b,
          )))
    | inr b ↦
        rw (lookup-erase, b)
          (same k op
            (sym (
                rw b at
                  (lookup-insert key k (record { seq = suc s.seq; kind = kind; d = d }) s.ops))
              ∙ e)
            t)
  ]

  pub make_at_lem :
      (T : Target)
      → s.disk.overlay ≡ directory o
      → put_marker key o.md ≡ ok ks
      → d ≡ 1
      → make_at T (p ∷ ps) s ≡ (ok tt, marked_state made_overlay made)
  unfolding make_at_with journal journal_rec set_op
  make_at_lem T e m one = rw (e, m, one)

  pub remove_at_lem :
      (T : Target)
      → s.disk.overlay ≡ directory o
      → put_marker key o.del ≡ ok ks
      → remove_at T (p ∷ ps) d s ≡ (ok tt, marked_state removed_overlay Kind.deleted)
  unfolding remove_at_with journal journal_rec set_op
  remove_at_lem T e m = rw (e, m)

  module _ (w : IsWell s o ids) (safe : All IsSafe (p ∷ ps)) where
    made-kept :
        put_marker key o.md ≡ ok ks
        → (j : Text) (op : Op) → (j == key) ≡ false
        → has_content o ids (j, op) ≡ true
        → has_content made_overlay marked_ids (j, op) ≡ true
    unfolding has_content
    made-kept m j op ne h = ground (
      arith,
      m,
      ne,
      h,
      lookup-erase key j ids,
      eq_iff key j,
      eq_iff j key,
      put_marker-kept key o.md ks j m,
    )

    removed-kept :
        put_marker key o.del ≡ ok ks
        → (j : Text) (op : Op) → (j == key) ≡ false
        → has_content o ids (j, op) ≡ true
        → has_content removed_overlay marked_ids (j, op) ≡ true
    unfolding has_content
    removed-kept m j op ne h = ground (
      arith,
      m,
      ne,
      h,
      lookup-erase key j ids,
      eq_iff key j,
      eq_iff j key,
      put_marker-kept key o.del ks j m,
    )

    pub made-IsWell :
        put_marker key o.md ≡ ok ks
        → IsWell (marked_state made_overlay made) made_overlay marked_ids
    unfolding source has_content
    made-IsWell m =
        IsWell-next s o ids w made key d absent made_overlay marked_ids s.write_payloads
          (p, ps, IsSafe-NoSlash (p ∷ ps) safe, refl) (join-ne-nil p ps safe.0.named) refl refl refl
          (put_marker-mem key o.md ks m) (made-kept m) (ids_below w.ids_below)
          (ids_same made (λ e. cc) w.ids_same)

    pub removed-IsWell :
        put_marker key o.del ≡ ok ks
        → IsWell (marked_state removed_overlay Kind.deleted) removed_overlay marked_ids
    unfolding source has_content
    removed-IsWell m =
        IsWell-next s o ids w Kind.deleted key d absent removed_overlay marked_ids s.write_payloads
          (p, ps, IsSafe-NoSlash (p ∷ ps) safe, refl) (join-ne-nil p ps safe.0.named) refl refl refl
          (put_marker-mem key o.del ks m) (removed-kept m) (ids_below w.ids_below)
          (ids_same Kind.deleted (λ e. cc) w.ids_same)
