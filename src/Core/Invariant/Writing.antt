-- ===== src/Core/Invariant/Writing.antt =====
-- `write` keeps an instance well-formed.
use native.Mathlib.Numerals.{add-one}
use userfreezer.Prelude.{
  suc, ◌<◌, ◌^◌, ◌≡◌, refl, sym, ◌∙◌, true, false, some, List, ◌∷◌, All, arith, Bool-cases,
  Option-cases, inl, inr,
}
use userfreezer.Prelude.Text.{Text, ◌==◌, eq_iff, eq_refl, join, slash}
use userfreezer.Prelude.Text.Split.{join-ne-nil}
use userfreezer.Prelude.Dict.{Dict, lookup, insert, lookup-insert, has_key-insert}
use userfreezer.Core.Types.{written, Op}
use userfreezer.Core.Outcome.{ok}
use userfreezer.Core.RelPath.Safety.{IsSafe, IsSafe-NoSlash}
use userfreezer.Core.PayloadId.{payload_id, valid_id-payload_id}
use userfreezer.Core.Overlay.{ident, Overlay, append}
use userfreezer.Core.Journal.{source, has_content}
use userfreezer.Core.Journal.Replay.{new_rec}
use userfreezer.Core.Instance.{DeepFreezer, directory, put_payload, journal, journal_rec, set_op}
use userfreezer.Core.Api.{write_at_with, write_at}
use userfreezer.Core.Invariant.{IsWell, IdBelow}
use userfreezer.Core.Invariant.Step.{IsWell-next}

module _ (s : DeepFreezer) (o : Overlay) (ids : Dict Text) (p : Text) (ps : List Text)
    (bytes : Text) where
  abbrev key : Text
  key = join slash (p ∷ ps)

  abbrev id : Text
  id = payload_id (suc s.seq)

  abbrev pub written_overlay : Overlay
  written_overlay = record o {
    payloads = insert id bytes o.payloads;
    journal = append o.journal (new_rec s.seq written key 0 (ident id));
  }

  abbrev pub written_ids : Dict Text
  written_ids = insert key id ids

  abbrev pub written_state : DeepFreezer
  written_state = record s {
    disk = record s.disk { overlay = directory written_overlay };
    seq = suc s.seq;
    ops = insert key (record { seq = suc s.seq; kind = written; d = 0 }) s.ops;
    write_payloads = insert key id s.write_payloads;
  }

  pub write_at_lem :
      s.disk.overlay ≡ directory o → write_at (p ∷ ps) bytes s ≡ (ok tt, written_state)
  unfolding write_at_with put_payload journal journal_rec set_op
  write_at_lem e = rw (e, add-one)

  kept :
      (j : Text) (op : Op)
      → (j == key) ≡ false
      → has_content o ids (j, op) ≡ true
      → has_content written_overlay written_ids (j, op) ≡ true
  unfolding has_content
  kept j op ne h = elim (Option-cases (lookup j ids)) [
    | inl e ↦ ground (arith, ne, h, e, lookup-insert key j id ids, eq_iff key j, eq_iff j key)
    | inr (i, e) ↦ ground (
      arith,
      ne,
      h,
      e,
      lookup-insert key j id ids,
      eq_iff key j,
      eq_iff j key,
      has_key-insert id i bytes o.payloads,
    )
  ]

  ids_below :
      ((k i : Text) → lookup k s.write_payloads ≡ some i → IdBelow s.seq i)
      → (k i : Text) → lookup k (insert key id s.write_payloads) ≡ some i
      → IdBelow (suc s.seq) i
  ids_below below k i e = elim (Bool-cases (key == k)) [
    | inl t ↦
        (suc s.seq, omega arith, ground (arith, lookup-insert key k id s.write_payloads, e, t))
    | inr f ↦
        let (n, le, named) =
          below k i (sym (rw f at (lookup-insert key k id s.write_payloads)) ∙ e) in
        (n, omega arith, named)
  ]

  ids_same :
      ((k : Text) (op : Op)
        → lookup k s.ops ≡ some op
        → op.kind ≡ written
        → lookup k ids ≡ lookup k s.write_payloads)
      → (k : Text) (op : Op) → lookup k written_state.ops ≡ some op
      → op.kind ≡ written
      → lookup k written_ids ≡ lookup k written_state.write_payloads
  ids_same same k op e t = elim (Bool-cases (key == k)) [
    | inl b ↦ rw (lookup-insert, lookup-insert, b)
    | inr b ↦
        rw (lookup-insert, lookup-insert, b)
          (same k op
            (sym (
                rw b at
                  (lookup-insert key k (record { seq = suc s.seq; kind = written; d = 0 }) s.ops))
              ∙ e)
            t)
  ]

  module _ (w : IsWell s o ids) (safe : All IsSafe (p ∷ ps)) (room : suc s.seq < 10 ^ 32) where
    pub written-IsWell : IsWell written_state written_overlay written_ids
    unfolding source has_content
    written-IsWell =
        IsWell-next s o ids w written key 0 (ident id) written_overlay written_ids
          (insert key id s.write_payloads) (p, ps, IsSafe-NoSlash (p ∷ ps) safe, refl)
          (join-ne-nil p ps safe.0.named) (rw (valid_id-payload_id (suc s.seq) room)) refl refl
          (rw (lookup-insert, eq_refl, has_key-insert, eq_refl)) kept (ids_below w.ids_below)
          (ids_same w.ids_same)
