-- ===== src/Core/Views/Written.antt =====
-- After `write`: the path itself, the paths below it, the directories above it and all others.
use mathlib.Core.Path.{subst}
use userfreezer.Prelude.{
  suc, ◌≡◌, refl, sym, ap, ◌∙◌, true, false, Option, none, some, List, ◌∷◌, ◌++◌, arith,
}
use userfreezer.Prelude.Text.{Text, ◌==◌, eq_refl, eq-false, join, slash}
use userfreezer.Prelude.Text.Split.{Apart, Apart-ne}
use userfreezer.Prelude.Dict.{Dict, lookup, insert, lookup-insert}
use userfreezer.Core.Types.{written, Op, View, new}
use userfreezer.Core.Outcome.{ok, err, file_not_found}
use userfreezer.Core.RelPath.{norm}
use userfreezer.Core.RelPath.Safety.{IsSafe-NoSlash, norm-IsSafe}
use userfreezer.Core.PayloadId.{payload_id, payload_id-injective}
use userfreezer.Core.Overlay.{Overlay}
use userfreezer.Core.Classify.{classify}
use userfreezer.Core.Classify.Writes.{classify-insert_at, classify-insert_below}
use userfreezer.Core.Classify.Above.{classify-insert_above, raised}
use userfreezer.Core.Classify.Elsewhere.{classify-insert_apart}
use userfreezer.Core.Instance.{DeepFreezer, OverlayPath, with_overlay}
use userfreezer.Core.Api.{
  write_with, Target, write, read, exists, is_dir, read_payload, read_as, payload_at, content_of,
  exists_as, is_dir_as,
}
use userfreezer.Core.Invariant.{IsWell, IsReady, IdBelow, require_frozen-ready}
use userfreezer.Core.Invariant.Writing.{write_at_lem, written_state, written_overlay}

module _ (T : Target) (s : DeepFreezer) (o : Overlay) (ids : Dict Text) (ready : IsReady s)
    (w : IsWell s o ids) (rel : Text) (p : Text) (ps : List Text) (normed : norm rel ≡ ok (p ∷ ps))
    (bytes : Text) where
  abbrev op : Op
  op = record { seq = suc s.seq; kind = written; d = 0 }

  abbrev key : Text
  key = join slash (p ∷ ps)

  abbrev id : Text
  id = payload_id (suc s.seq)

  abbrev after : DeepFreezer
  after = written_state s o ids p ps bytes

  pub write_lem : write rel bytes s ≡ (ok tt, after)
  unfolding write_with
  write_lem = rw (require_frozen-ready s ready, normed) (write_at_lem s o ids p ps bytes w.on_disk)

  pub IsReady-after : IsReady after
  IsReady-after = record { frozen = ready.frozen; locked = ready.locked; kept = ready.kept }

  read_written : read_as T after (p ∷ ps) new ≡ ok bytes
  unfolding read_payload
  read_written = ground (
    arith,
    lookup-insert key key id s.write_payloads,
    lookup-insert id id bytes o.payloads,
    eq_refl key,
    eq_refl id,
  )

  -- A `write` by a frozen, well-formed instance, to a path that `_norm` accepts and that is not
  -- the root, succeeds. What was written is then read back, and the path is found and is no
  -- directory.
  pub read-write :
      let (r, t) = write rel bytes s in
      (r ≡ ok tt)
      × (read T rel t ≡ ok bytes)
      × (exists T rel t ≡ ok true)
      × (is_dir T rel t ≡ ok false)
  unfolding read exists is_dir
  read-write =
      let c = classify-insert_at s.seq s.ops w.seqs op (omega arith) p ps in
      rw write_lem (
        refl,
        rw (require_frozen-ready after IsReady-after, normed, c) read_written,
        rw (require_frozen-ready after IsReady-after, normed, c),
        rw (require_frozen-ready after IsReady-after, normed, c),
      )

  -- After such a `write`, nothing is found or read below the written path, whatever was there.
  pub gone-write :
      (below : Text) (r : Text) (rs : List Text)
      → norm below ≡ ok (p ∷ (ps ++ (r ∷ rs)))
      → let t = (write rel bytes s).1 in
        (exists T below t ≡ ok false) × (read T below t ≡ err file_not_found)
  unfolding read exists
  gone-write below r rs e =
      let c = classify-insert_below s.seq s.ops w.seqs op (omega arith) p ps r rs in
      rw write_lem (
        rw (require_frozen-ready after IsReady-after, e, c),
        rw (require_frozen-ready after IsReady-after, e, c),
      )

  id-ne : (i : Text) → IdBelow s.seq i → (id == i) ≡ false
  id-ne i (n, le, named) =
      eq-false id i λ e. absurd (omega (arith, payload_id-injective (suc s.seq) n (e ∙ named)))

  payload-same :
      (k : Text) (x : Option Text)
      → lookup k s.write_payloads ≡ x
      → payload_at x (written_overlay s o ids p ps bytes) k ≡ payload_at x o k
  payload-same k none e = refl
  payload-same k (some i) e = ap content_of (rw (lookup-insert, id-ne i (w.ids_below k i e)))

  read_same :
      (q : Text) (qs : List Text)
      → (key == join slash (q ∷ qs)) ≡ false
      → (v : View) → read_as T after (q ∷ qs) v ≡ read_as T s (q ∷ qs) v
  unfolding read_payload
  read_same q qs ne new =
      let k = join slash (q ∷ qs) in
      ap (λ (x : Option Text). payload_at x (written_overlay s o ids p ps bytes) k)
        (rw (lookup-insert, ne) refl)
      ∙ payload-same k (lookup k s.write_payloads) refl
      ∙ sym (
          ap (λ (d : OverlayPath). with_overlay d (λ x. read_payload s.write_payloads x k))
            w.on_disk)
  read_same q qs ne _ = refl

  -- After such a `write`, a path that parts from the written one, with neither of them above the
  -- other, is read, found and taken for a directory as before.
  pub untouched-write :
      (other : Text) (q : Text) (qs : List Text)
      → norm other ≡ ok (q ∷ qs)
      → Apart (p ∷ ps) (q ∷ qs)
      → let t = (write rel bytes s).1 in
        (read T other t ≡ read T other s)
        × (exists T other t ≡ exists T other s)
        × (is_dir T other t ≡ is_dir T other s)
  unfolding read exists is_dir
  untouched-write other q qs e h =
      let safe = norm-IsSafe other (q ∷ qs) e in
      let c =
        classify-insert_apart s.ops op p ps
          (IsSafe-NoSlash (p ∷ ps) (norm-IsSafe rel (p ∷ ps) normed)) q qs
          (IsSafe-NoSlash (q ∷ qs) safe) h w.keys in
      let ne =
        Apart-ne p ps q qs (IsSafe-NoSlash (p ∷ ps) (norm-IsSafe rel (p ∷ ps) normed))
          (IsSafe-NoSlash (q ∷ qs) safe) h in
      let f = require_frozen-ready after IsReady-after in
      let g = require_frozen-ready s ready in
      rw write_lem (
        rw (f, g, e, c) (read_same q qs ne (classify s.ops (q ∷ qs))),
        rw (f, g, e, c),
        rw (f, g, e, c),
      )

  raised-exists :
      (parts : List Text) (v : View)
      → (exists_as T parts (raised v) ≡ true) × (is_dir_as T parts (raised v) ≡ true)
  raised-exists parts v = ground arith

  -- After such a `write`, every directory above the written path but the root is one in the view,
  -- whatever it was.
  pub above-write :
      (dir q : Text) (qs : List Text) (r : Text) (rs : List Text)
      → norm dir ≡ ok (q ∷ qs)
      → ◌≡◌ {A = List Text} (p ∷ ps) (q ∷ (qs ++ (r ∷ rs)))
      → let t = (write rel bytes s).1 in (exists T dir t ≡ ok true) × (is_dir T dir t ≡ ok true)
  unfolding exists is_dir
  above-write dir q qs r rs e path =
      let c : classify after.ops (q ∷ qs) ≡ raised (classify s.ops (q ∷ qs)) =
        subst
          (λ xs.
            classify (insert (join slash xs) op s.ops) (q ∷ qs) ≡ raised (classify s.ops (q ∷ qs)))
          (sym path) (classify-insert_above s.seq s.ops w.seqs op (omega arith) refl q qs r rs) in
      let f = require_frozen-ready after IsReady-after in
      let both = raised-exists (q ∷ qs) (classify s.ops (q ∷ qs)) in
      rw write_lem (rw (f, e, c) (ap ok both.0), rw (f, e, c) (ap ok both.1))
