-- ===== src/Core/Views/Made.antt =====
-- After `mkdirs`: the directory is there, is empty below, and `mkdirs` of a path below it fails.
use userfreezer.Prelude.{ap, ◌∙◌, suc, ◌≡◌, refl, true, false, List, [], ◌∷◌, ◌++◌, arith}
use userfreezer.Prelude.Text.{Text, join, slash, starts_with}
use userfreezer.Prelude.Text.Split.{below-starts_with, any_of-mem}
use userfreezer.Prelude.Dict.{Dict}
use userfreezer.Core.Types.{made, Op}
use userfreezer.Core.Outcome.{ok, err, os_error}
use userfreezer.Core.RelPath.{norm}
use userfreezer.Core.Overlay.{blocked_above, Overlay, put_marker, mem}
use userfreezer.Core.Classify.{classify}
use userfreezer.Core.Classify.Writes.{classify-insert_at, classify-insert_below}
use userfreezer.Core.Instance.{DeepFreezer}
use userfreezer.Core.Api.{mkdirs_with, Target, exists, is_dir, is_made, mkdirs}
use userfreezer.Core.Invariant.{IsWell, IsReady, require_frozen-ready}
use userfreezer.Core.Invariant.Marking.{
  make_at_lem, marked_state, made_overlay, make_at_failed, unmarked_state, put_marker-mem,
}

-- A marker above the path is in the way of its own.
conflict-above :
    (p : Text) (ps : List Text) (r : Text) (rs : List Text) (ks : List Text)
    → mem (join slash (p ∷ ps)) ks ≡ true
    → put_marker (join slash (p ∷ (ps ++ (r ∷ rs)))) ks ≡ err os_error
unfolding put_marker
conflict-above p ps r rs ks h = ground (
  arith,
  any_of-mem (λ k. starts_with (join slash (p ∷ (ps ++ (r ∷ rs)))) (k ++ (slash ∷ [])))
      (join slash (p ∷ ps)) ks (below-starts_with p ps r rs) h,
)

blocked-above :
    (p : Text) (ps : List Text) (r : Text) (rs : List Text) (ks : List Text)
    → mem (join slash (p ∷ ps)) ks ≡ true
    → blocked_above (join slash (p ∷ (ps ++ (r ∷ rs)))) ks ≡ true
blocked-above p ps r rs ks h =
    any_of-mem (λ k. starts_with (join slash (p ∷ (ps ++ (r ∷ rs)))) (k ++ (slash ∷ [])))
      (join slash (p ∷ ps)) ks (below-starts_with p ps r rs) h

unmarked-blocked :
    (key : Text) (ks : List Text) (s : DeepFreezer) (o : Overlay)
    → blocked_above key ks ≡ true
    → unmarked_state key ks s o ≡ s
unmarked-blocked key ks s o h = rw h refl

module _ (T : Target) (s : DeepFreezer) (o : Overlay) (ids : Dict Text) (ready : IsReady s)
    (w : IsWell s o ids) (rel : Text) (p : Text) (ps : List Text) (normed : norm rel ≡ ok (p ∷ ps))
    (absent : is_made T (p ∷ ps) (classify s.ops (p ∷ ps)) ≡ false) (ks : List Text)
    (free : put_marker (join slash (p ∷ ps)) o.md ≡ ok ks) where
  abbrev op : Op
  op = record { seq = suc s.seq; kind = made; d = 1 }

  abbrev after : DeepFreezer
  after = marked_state s o ids p ps 1 ks (made_overlay s o ids p ps 1 ks) made

  mkdirs_lem : mkdirs T rel s ≡ (ok tt, after)
  unfolding mkdirs_with
  mkdirs_lem =
      rw (require_frozen-ready s ready, normed, absent)
        (make_at_lem s o ids p ps 1 ks T w.on_disk free refl)

  IsReady-after : IsReady after
  IsReady-after = record { frozen = ready.frozen; locked = ready.locked; kept = ready.kept }

  -- A `mkdirs` by a frozen, well-formed instance, of a path that is no directory yet and whose
  -- marker can be put, succeeds. The directory is then there, and nothing is found below it.
  pub made-mkdirs :
      (below : Text) (q : Text) (qs : List Text)
      → norm below ≡ ok (p ∷ (ps ++ (q ∷ qs)))
      → let (r, t) = mkdirs T rel s in
        (r ≡ ok tt) × (is_dir T rel t ≡ ok true) × (exists T below t ≡ ok false)
  unfolding exists is_dir
  made-mkdirs below q qs e =
      let c = classify-insert_at s.seq s.ops w.seqs op (omega arith) p ps in
      let f = require_frozen-ready after IsReady-after in
      rw mkdirs_lem (
        refl,
        rw (f, normed, c),
        rw (f, e, classify-insert_below s.seq s.ops w.seqs op (omega arith) p ps q qs),
      )

  -- After such a `mkdirs`, `mkdirs` of a path below the new directory raises an OSError and
  -- changes nothing.
  pub mkdirs-nested_fails :
      (below : Text) (q : Text) (qs : List Text)
      → norm below ≡ ok (p ∷ (ps ++ (q ∷ qs)))
      → let t = (mkdirs T rel s).1 in mkdirs T below t ≡ (err os_error, t)
  mkdirs-nested_fails below q qs e =
      let c = classify-insert_below s.seq s.ops w.seqs op (omega arith) p ps q qs in
      let own = made_overlay s o ids p ps 1 ks in
      let there = put_marker-mem (join slash (p ∷ ps)) o.md ks free in
      rw mkdirs_lem (
        unfold mkdirs_with in
        rw (require_frozen-ready after IsReady-after, e, c)
          (make_at_failed T after own (p ∷ (ps ++ (q ∷ qs))) os_error refl
              (conflict-above p ps q qs ks there)
            ∙ ap (λ (t : DeepFreezer). (err os_error, t))
                (unmarked-blocked (join slash (p ∷ (ps ++ (q ∷ qs)))) ks after own
                  (blocked-above p ps q qs ks there))))
