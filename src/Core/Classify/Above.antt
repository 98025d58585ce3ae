-- ===== src/Core/Classify/Above.antt =====
-- What `_classify` answers for the directories above a path that has just been written or made.
use mathlib.Core.List.{append_assoc}
use userfreezer.Prelude.{
  ℕ, ◌≤◌, ◌<◌, ◌≡◌, refl, ap, ◌∙◌, Bool, true, false, Option, none, some, List, [], ◌∷◌, ◌++◌,
  foldl, arith, drop_last, any_of-false, any_of-Has, All-universal,
}
use userfreezer.Prelude.Text.{
  Text, ◌==◌, eq-append_false', join, slash, starts_with, starts_with-append, split,
}
use userfreezer.Prelude.Text.Split.{join-append}
use userfreezer.Prelude.Dict.{lookup, insert, lookup-insert, Has-insert}
use userfreezer.Core.Types.{Op, Ops, is_deleted, View, m_dir, implicit_dir}
use userfreezer.Core.Classify.{
  Covering, classify, cover, cover_step, keep_newer, prefix_keys, has_live_child, live_child,
  shadowed, newer_than, anchor_seq, verdict,
}
use userfreezer.Core.Classify.Newest.{SeqBelow, SeqBelow-lookup, SeqBelow-insert, SeqBelow-mono}
use userfreezer.Core.Classify.Keys.{Same, All-prefix_keys, cover-Same}

shadowed-newest : (ops : Ops) (child : Text) (n : ℕ) → SeqBelow n ops → shadowed ops child n ≡ false
unfolding shadowed
shadowed-newest ops child n h =
    any_of-false (λ k. newer_than n (lookup k ops)) (drop_last (prefix_keys (split slash child)))
      (All-universal (λ k. newer_than n (lookup k ops) ≡ false) (λ k. older k (lookup k ops) refl)
        _)
  where
    older : (k : Text) (o : Option Op) → lookup k ops ≡ o → newer_than n o ≡ false
    older k none e = refl
    older k (some op) e = ground (arith, SeqBelow-lookup n ops k op h e)

anchor-foldl :
    (n : ℕ) (ops : Ops) (keys : List Text) (acc : Covering)
    → SeqBelow n ops
    → anchor_seq acc ≤ n
    → anchor_seq (foldl (cover_step ops) acc keys) ≤ n
unfolding cover_step
anchor-foldl n ops [] acc h l = l
anchor-foldl n ops (k ∷ keys) acc h l =
    anchor-foldl n ops keys (keep_newer (lookup k ops) acc k) h (kept (lookup k ops) acc refl l)
  where
    kept :
        (o : Option Op) (c : Covering)
        → lookup k ops ≡ o
        → anchor_seq c ≤ n
        → anchor_seq (keep_newer o c k) ≤ n
    kept none c e b = b
    kept (some op) none e b = SeqBelow-lookup n ops k op h e
    kept (some op) (some (held, path)) e b = ground (arith, SeqBelow-lookup n ops k op h e)

anchor-cover :
    (n : ℕ) (ops : Ops) (parts : List Text) → SeqBelow n ops → anchor_seq (cover ops parts) ≤ n
unfolding cover
anchor-cover n ops parts h = anchor-foldl n ops (prefix_keys parts) none h (omega arith)

-- A directory made explicitly stays one. Any other path becomes an implicit directory.
abbrev pub raised : View → View
raised m_dir = m_dir
raised _ = implicit_dir

verdict-raised :
    (c : Covering) (full : Text) (live : Bool) → verdict c full true ≡ raised (verdict c full live)
verdict-raised c full live = ground arith

module _ (n : ℕ) (ops : Ops) (bound : SeqBelow n ops) (op : Op) (newer : n < op.seq)
    (alive : is_deleted op.kind ≡ false) (q : Text) (qs : List Text) (r : Text)
    (rs : List Text) where
  abbrev key : Text
  key = join slash (q ∷ (qs ++ (r ∷ rs)))

  abbrev next : Ops
  next = insert key op ops

  extension-ne :
      (a : List Text) (t : Text) (u : List Text)
      → (join slash (q ∷ (a ++ (t ∷ u))) == join slash (q ∷ a)) ≡ false
  extension-ne a t u = rw (join-append q a t u) (eq-append_false' _ _ _)

  key-ne-prefix : (a b : List Text) → qs ≡ a ++ b → (key == join slash (q ∷ a)) ≡ false
  key-ne-prefix a [] e =
      rw (ap (λ (t : List Text). t ++ (r ∷ rs)) e ∙ append_assoc a [] (r ∷ rs))
        (extension-ne a r rs)
  key-ne-prefix a (z ∷ zs) e =
      rw (ap (λ (t : List Text). t ++ (r ∷ rs)) e ∙ append_assoc a (z ∷ zs) (r ∷ rs))
        (extension-ne a z (zs ++ (r ∷ rs)))

  Same-prefix : (a b : List Text) → qs ≡ a ++ b → Same next ops (join slash (q ∷ a))
  Same-prefix a b e = rw (lookup-insert, key-ne-prefix a b e)

  new-live :
      live_child next
        (join slash (q ∷ qs) ++ (slash ∷ []))
        (anchor_seq (cover ops (q ∷ qs)))
        (key, op)
      ≡ true
  unfolding live_child
  new-live = ground (
    arith,
    alive,
    anchor-cover n ops (q ∷ qs) bound,
    shadowed-newest next key op.seq (
        SeqBelow-insert op.seq ops key op (omega arith)
          (SeqBelow-mono n op.seq ops (omega arith) bound)),
    below-q,
  )
    where
      below-q : starts_with key (join slash (q ∷ qs) ++ (slash ∷ [])) ≡ true
      below-q =
          rw (join-append q qs r rs, ← append_assoc (join slash (q ∷ qs)) (slash ∷ []) _)
            (starts_with-append _ _)

  live-next : has_live_child next (join slash (q ∷ qs)) (anchor_seq (cover ops (q ∷ qs))) ≡ true
  unfolding has_live_child
  live-next = any_of-Has _ (key, op) next new-live (Has-insert key op ops)

  pub classify-insert_above : classify next (q ∷ qs) ≡ raised (classify ops (q ∷ qs))
  unfolding classify
  classify-insert_above =
      rw
        (cover-Same next ops (q ∷ qs) (All-prefix_keys (Same next ops) q qs Same-prefix), live-next)
        (verdict-raised _ _ _)
