-- ===== src/Core/Invariant/Recovery.antt =====
-- What a new instance finds on the disk of a well-formed one.
use userfreezer.Prelude.{ℕ, ◌≡◌, refl, ap, ◌∙◌, true, [], ◌∷◌, arith, keep_if, all_of, and-eq-true}
use userfreezer.Prelude.Text.{Text}
use userfreezer.Prelude.Dict.{Dict}
use userfreezer.Core.Types.{Op, Ops}
use userfreezer.Core.Outcome.{ok, ◌>>=◌}
use userfreezer.Core.Overlay.{Overlay}
use userfreezer.Core.Journal.{
  has_content, known_kinds, drop_dead, keep_alive, load_journal, replay, start,
}
use userfreezer.Core.Instance.{DeepFreezer}
use userfreezer.Core.Invariant.{IsWell, as_loaded}

module _ (o : Overlay) (ids : Dict Text) where
  content-known :
      (k : Text) (op : Op) (ops : Ops)
      → has_content o ids (k, op) ≡ true
      → known_kinds ops ≡ true
      → known_kinds ((k, op) ∷ ops) ≡ true
  unfolding has_content known_kinds
  content-known k op ops h r = ground (arith, h, r)

  all-known : (ops : Ops) → all_of (has_content o ids) ops ≡ true → known_kinds ops ≡ true
  unfolding known_kinds
  all-known [] h = refl
  all-known ((k, op) ∷ ops) h =
      let (c, rest) = and-eq-true _ _ h in content-known k op ops c (all-known ops rest)

  all-kept :
      (ops : Ops) → all_of (has_content o ids) ops ≡ true → keep_if (has_content o ids) ops ≡ ops
  all-kept [] h = refl
  all-kept (e ∷ ops) h =
      let (c, rest) = and-eq-true (has_content o ids e) _ h in rw (c, all-kept ops rest)

  none-dropped :
      (ops : Ops) (kept : Dict Text)
      → all_of (has_content o ids) ops ≡ true
      → drop_dead o ids ops kept ≡ kept
  unfolding drop_dead
  none-dropped [] kept h = refl
  none-dropped (e ∷ ops) kept h =
      let (c, rest) = and-eq-true (has_content o ids e) _ h in rw (c, none-dropped ops kept rest)

  -- The validation drops nothing where every operation has its content.
  pub keep_alive_all :
      (ops : Ops) (seq : ℕ)
      → all_of (has_content o ids) ops ≡ true
      → keep_alive o (record { ops = ops; write_payloads = ids; best_seq = seq })
        ≡ ok (record { ops = ops; write_payloads = ids; best_seq = seq })
  unfolding keep_alive
  keep_alive_all ops seq h = rw (all-known ops h, all-kept ops h, none-dropped ops ids h)

-- The loader rebuilds the operations and the sequence of a well-formed instance from its overlay.
pub load-IsWell :
    (s : DeepFreezer) (o : Overlay) (ids : Dict Text)
    → IsWell s o ids
    → load_journal o ≡ ok (as_loaded s ids)
unfolding load_journal
load-IsWell s o ids w =
    ap (λ tail. replay o.journal.lines tail start >>= keep_alive o) w.ended
    ∙ ap (λ r. r >>= keep_alive o) w.replayed
    ∙ keep_alive_all o ids s.ops s.seq w.contents
