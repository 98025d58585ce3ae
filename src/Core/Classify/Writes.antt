-- ===== src/Core/Classify/Writes.antt =====
-- What `_classify` answers after a new operation at a path, for the path itself, for the paths
-- below it and for the directories above it.
use mathlib.Core.Path.{subst}
use mathlib.Core.List.{append-nil}
use userfreezer.Prelude.{ℕ, ◌<◌, ◌≡◌, false, some, List, [], ◌∷◌, ◌++◌, arith}
use userfreezer.Prelude.Text.{Text, eq_refl, eq-append_false, join, slash}
use userfreezer.Prelude.Text.Split.{join-append}
use userfreezer.Prelude.Dict.{insert}
use userfreezer.Core.Types.{Op, Ops, gone}
use userfreezer.Core.Classify.{classify, own, cover, has_live_child}
use userfreezer.Core.Classify.Newest.{
  SeqBelow, SeqBelow-mono, SeqBelow-insert, IsNewest-insert, has_live_child-newest, cover-newest,
  Has-prefix_keys,
}

module _ (n : ℕ) (ops : Ops) (bound : SeqBelow n ops) (op : Op) (newer : n < op.seq) (p : Text)
    (ps : List Text) where
  abbrev key : Text
  key = join slash (p ∷ ps)

  abbrev next : Ops
  next = insert key op ops

  cover-next : (r : List Text) → cover next (p ∷ (ps ++ r)) ≡ some (op, key)
  cover-next r =
      cover-newest next key op (IsNewest-insert n ops key op newer bound) (p ∷ (ps ++ r))
        (omega arith) (Has-prefix_keys p ps r)

  cover_at : cover next (p ∷ ps) ≡ some (op, key)
  cover_at = subst (λ qs. cover next (p ∷ qs) ≡ some (op, key)) (append-nil ps) (cover-next [])

  no_live-next : (full : Text) → has_live_child next full op.seq ≡ false
  no_live-next full = has_live_child-newest next full op.seq (
      SeqBelow-insert op.seq ops key op (omega arith)
        (SeqBelow-mono n op.seq ops (omega arith) bound))

  pub classify-insert_at : classify next (p ∷ ps) ≡ own op.kind false
  unfolding classify
  classify-insert_at = rw (cover_at, no_live-next, eq_refl)

  pub classify-insert_below :
      (r : Text) (rs : List Text) → classify next (p ∷ (ps ++ (r ∷ rs))) ≡ gone
  unfolding classify
  classify-insert_below r rs =
      rw (cover-next (r ∷ rs), no_live-next, join-append p ps r rs, eq-append_false)
