-- ===== src/Core/Views/Listed.antt =====
-- `iterdir` of a directory of the baseline, after a first write into it.
use mathlib.Core.List.{append_assoc}
use userfreezer.Prelude.{
  suc, ◌≡◌, refl, sym, ap, ◌∙◌, none, some, List, [], ◌∷◌, ◌++◌, All, arith, length, foldl,
}
use userfreezer.Prelude.Text.{Text, ◌==◌, join, slash, contains, starts_with-append}
use userfreezer.Prelude.Text.Split.{NoSlash, join-append}
use userfreezer.Prelude.Text.Order.{sorted, insert_sorted}
use userfreezer.Prelude.Dict.{Dict, lookup, insert}
use userfreezer.Core.Types.{written, Op, Ops, implicit_dir, base, new}
use userfreezer.Core.Outcome.{ok}
use userfreezer.Core.RelPath.{norm}
use userfreezer.Core.RelPath.Safety.{IsSafe, norm-IsSafe}
use userfreezer.Core.Overlay.{Overlay}
use userfreezer.Core.Classify.{classify, cover, prefix_keys, cover_step, has_live_child}
use userfreezer.Core.Classify.Above.{classify-insert_above, raised}
use userfreezer.Core.Classify.Writes.{classify-insert_at}
use userfreezer.Core.Invariant.Writing.{written_state}
use userfreezer.Core.Views.Written.{write_lem, IsReady-after}
use userfreezer.Core.Instance.{DeepFreezer}
use userfreezer.Core.Api.{Target, write}
use userfreezer.Core.Listing.{
  drop, head_part, tail_part, name_of, collect, dir_prefix, listed, iterdir, add_some,
}
use userfreezer.Core.Invariant.{IsWell, IsReady, require_frozen-ready}

drop-append : (xs ys : Text) → drop (length xs) (xs ++ ys) ≡ ys
drop-append [] [] = refl
drop-append [] (y ∷ ys) = refl
drop-append (x ∷ xs) ys = drop-append xs ys

head_part-plain : (nm : Text) → NoSlash nm → head_part nm ≡ nm
unfolding contains
head_part-plain [] h = refl
head_part-plain (c ∷ nm) h = ground (arith, h, head_part-plain nm)

tail_part-plain : (nm : Text) → NoSlash nm → tail_part nm ≡ []
unfolding contains
tail_part-plain [] h = refl
tail_part-plain (c ∷ nm) h = ground (arith, h, tail_part-plain nm)

-- The one operation below a directory gives its name.
name_of-below :
    (ops : Ops) (prefix nm : Text) → NoSlash nm → name_of ops prefix (prefix ++ nm) ≡ some nm
unfolding name_of ◌==◌
name_of-below ops prefix nm h = rw (
  starts_with-append prefix nm,
  drop-append prefix nm,
  tail_part-plain nm h,
  head_part-plain nm h,
)

cover-empty : (keys : List Text) → foldl (cover_step []) none keys ≡ none
unfolding cover_step lookup
cover-empty [] = refl
cover-empty (k ∷ keys) = cover-empty keys

classify-empty : (parts : List Text) → classify [] parts ≡ base
unfolding classify cover has_live_child
classify-empty [] = refl
classify-empty (p ∷ ps) = rw (cover-empty (prefix_keys (p ∷ ps)))

module _ (T : Target) (s : DeepFreezer) (o : Overlay) (ids : Dict Text) (ready : IsReady s)
    (w : IsWell s o ids) (untouched : ◌≡◌ {A = Ops} s.ops []) (dir : Text) (q : Text)
    (qs : List Text) (dir_normed : norm dir ≡ ok (q ∷ qs)) (rel : Text) (nm : Text)
    (normed : norm rel ≡ ok (q ∷ (qs ++ (nm ∷ [])))) (bytes : Text) where
  abbrev after : DeepFreezer
  after = written_state s o ids q (qs ++ (nm ∷ [])) bytes

  abbrev op : Op
  op = record { seq = suc s.seq; kind = written; d = 0 }

  plain : NoSlash nm
  plain = (All-right (q ∷ qs) (norm-IsSafe rel (q ∷ (qs ++ (nm ∷ []))) normed)).0.no_slash
    where
      All-right : (xs : List Text) → All IsSafe (xs ++ (nm ∷ [])) → All IsSafe (nm ∷ [])
      All-right [] h = h
      All-right (x ∷ xs) h = All-right xs h.1

  path_key : join slash (q ∷ (qs ++ (nm ∷ []))) ≡ dir_prefix (q ∷ qs) ++ nm
  unfolding dir_prefix join
  path_key = join-append q qs nm [] ∙ sym (append_assoc (join slash (q ∷ qs)) (slash ∷ []) nm)

  above : classify after.ops (q ∷ qs) ≡ implicit_dir
  above =
      classify-insert_above s.seq s.ops w.seqs op (omega arith) refl q qs nm []
      ∙ ap raised (ap (λ ops. classify ops (q ∷ qs)) untouched ∙ classify-empty (q ∷ qs))

  at_path : classify after.ops (q ∷ (qs ++ (nm ∷ []))) ≡ new
  at_path = classify-insert_at s.seq s.ops w.seqs op (omega arith) q (qs ++ (nm ∷ []))

  collect-one :
      (ops : Ops)
      → collect ops (dir_prefix (q ∷ qs)) ((join slash (q ∷ (qs ++ (nm ∷ []))), op) ∷ []) []
        ≡ nm ∷ []
  unfolding collect
  collect-one ops =
      ap (λ k. add_some (name_of ops (dir_prefix (q ∷ qs)) k) []) path_key
      ∙ ap (λ x. add_some x []) (name_of-below ops (dir_prefix (q ∷ qs)) nm plain)

  collected : collect after.ops (dir_prefix (q ∷ qs)) after.ops [] ≡ nm ∷ []
  unfolding insert
  collected =
      ap
        (λ l.
          collect after.ops (dir_prefix (q ∷ qs)) (insert (join slash (q ∷ (qs ++ (nm ∷ [])))) op l)
            [])
        untouched
      ∙ collect-one after.ops

  listed_after : listed after.ops (q ∷ qs) [] ≡ nm ∷ []
  unfolding listed sorted insert_sorted
  listed_after = rw (collected, at_path) refl

  -- A first `write` by a frozen, well-formed instance without operations, into a directory below
  -- the root, makes `iterdir` of that directory name the written file alone, whatever the target
  -- holds.
  pub iterdir-write_hides : iterdir T dir (write rel bytes s).1 ≡ ok (nm ∷ [])
  unfolding iterdir
  iterdir-write_hides = rw (write_lem T s o ids ready w rel q (qs ++ (nm ∷ [])) normed bytes) (
      rw
        (
          require_frozen-ready after
              (IsReady-after T s o ids ready w rel q (qs ++ (nm ∷ [])) normed bytes),
          dir_normed,
          above,
        )
        (ap ok listed_after))
