-- ===== src/Core/Views/Removed.antt =====
-- After `remove`: the path and everything below it are gone from the view. Where a marker on disk is
-- in the way `remove` fails.
use userfreezer.Prelude.{
  ◌⊎◌, inl, inr, Bool-cases, if◌then◌else◌, ℕ, suc, ◌≡◌, refl, true, false, List, [], ◌∷◌, ◌++◌,
  arith, if◌then◌else◌,
}
use userfreezer.Prelude.Text.{Text, join, slash, starts_with}
use userfreezer.Prelude.Text.Split.{below-starts_with, any_of-mem}
use userfreezer.Prelude.Dict.{Dict}
use userfreezer.Core.Types.{Kind, Op}
use userfreezer.Core.Outcome.{ok, err, file_not_found, os_error}
use userfreezer.Core.RelPath.{norm}
use userfreezer.Core.Overlay.{blocked_above, Overlay, put_marker, mem}
use userfreezer.Core.Classify.{classify}
use userfreezer.Core.Classify.Writes.{classify-insert_at, classify-insert_below}
use userfreezer.Core.Instance.{on_disk, with_temp, DeepFreezer, directory}
use userfreezer.Core.Api.{is_dir_as, remove_with, Target, read, exists, is_dir, is_dir_as, remove}
use userfreezer.Core.Invariant.{IsWell, IsReady, require_frozen-ready}
use userfreezer.Core.Invariant.Marking.{
  remove_at_lem, marked_state, removed_overlay, remove_at_failed, unmarked_state,
}

module _ (T : Target) (s : DeepFreezer) (o : Overlay) (ids : Dict Text) (ready : IsReady s)
    (w : IsWell s o ids) (rel : Text) (p : Text) (ps : List Text) (normed : norm rel ≡ ok (p ∷ ps))
    (ks : List Text) (free : put_marker (join slash (p ∷ ps)) o.del ≡ ok ks) where
  abbrev d : ℕ
  d = if is_dir_as T (p ∷ ps) (classify s.ops (p ∷ ps)) then 1 else 0

  abbrev op : Op
  op = record { seq = suc s.seq; kind = Kind.deleted; d = d }

  abbrev after : DeepFreezer
  after = marked_state s o ids p ps d ks (removed_overlay s o ids p ps d ks) Kind.deleted

  remove_lem : remove T rel s ≡ (ok tt, after)
  unfolding remove_with is_dir
  remove_lem =
      rw (require_frozen-ready s ready, normed, require_frozen-ready s ready, normed)
        (remove_at_lem s o ids p ps d ks T w.on_disk free)

  IsReady-after : IsReady after
  IsReady-after = record { frozen = ready.frozen; locked = ready.locked; kept = ready.kept }

  -- A `remove` by a frozen, well-formed instance, of a path that is not the root and whose marker
  -- can be put, succeeds. The path is then not found or read any more, and neither is anything
  -- below it.
  pub gone-remove :
      (below : Text) (q : Text) (qs : List Text)
      → norm below ≡ ok (p ∷ (ps ++ (q ∷ qs)))
      → let (r, t) = remove T rel s in
        (r ≡ ok tt)
        × (exists T rel t ≡ ok false)
        × (read T rel t ≡ err file_not_found)
        × (exists T below t ≡ ok false)
        × (read T below t ≡ err file_not_found)
  unfolding exists read
  gone-remove below q qs e =
      let c = classify-insert_at s.seq s.ops w.seqs op (omega arith) p ps in
      let f = require_frozen-ready after IsReady-after in
      let g = classify-insert_below s.seq s.ops w.seqs op (omega arith) p ps q qs in
      rw remove_lem (refl, rw (f, normed, c), rw (f, normed, c), rw (f, e, g), rw (f, e, g))

-- A marker below the path is in the way of its own.
conflict-below :
    (p : Text) (ps : List Text) (r : Text) (rs : List Text) (ks : List Text)
    → mem (join slash (p ∷ (ps ++ (r ∷ rs)))) ks ≡ true
    → put_marker (join slash (p ∷ ps)) ks ≡ err os_error
unfolding put_marker
conflict-below p ps r rs ks h = ground (
  arith,
  any_of-mem (λ k. starts_with k (join slash (p ∷ ps) ++ (slash ∷ [])))
      (join slash (p ∷ (ps ++ (r ∷ rs)))) ks (below-starts_with p ps r rs) h,
)

unmarked-cases :
    (key : Text) (ks : List Text) (s : DeepFreezer) (o : Overlay)
    → (unmarked_state key ks s o ≡ s) ⊎ (unmarked_state key ks s o ≡ on_disk s (with_temp key o))
unmarked-cases key ks s o = elim (Bool-cases (blocked_above key ks)) [
  | inl e ↦ rw e (inl refl)
  | inr e ↦ rw e (inr refl)
]

-- Where the overlay of a frozen instance holds the marker of something removed below a directory,
-- `remove` of that directory raises an OSError. Memory, journal, payloads and markers are then as
-- before; at most the temporary file of the marker that could not be put is left.
pub remove-parent_fails :
    (T : Target) (s : DeepFreezer) (o : Overlay) (rel : Text) (p : Text) (ps : List Text) (r : Text)
    (rs : List Text)
    → IsReady s
    → s.disk.overlay ≡ directory o
    → mem (join slash (p ∷ (ps ++ (r ∷ rs)))) o.del ≡ true
    → norm rel ≡ ok (p ∷ ps)
    → let (e, t) = remove T rel s in
      (e ≡ err os_error) × ((t ≡ s) ⊎ (t ≡ on_disk s (with_temp (join slash (p ∷ ps)) o)))
unfolding remove_with is_dir
remove-parent_fails T s o rel p ps r rs ready there h normed =
    let d = if is_dir_as T (p ∷ ps) (classify s.ops (p ∷ ps)) then 1 else 0 in
    let failed =
      remove_at_failed T s o (p ∷ ps) os_error d there (conflict-below p ps r rs o.del h) in
    rw (require_frozen-ready s ready, normed, require_frozen-ready s ready, normed, failed)
      (refl, unmarked-cases (join slash (p ∷ ps)) o.del s o)
