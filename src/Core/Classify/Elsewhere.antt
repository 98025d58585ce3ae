-- ===== src/Core/Classify/Elsewhere.antt =====
-- An operation at one path leaves the classification of every path apart from it as it was.
use mathlib.Core.Path.{subst, subst₂}
use userfreezer.Prelude.{
  ℕ, ◌≡◌, sym, ap, true, false, List, [], ◌∷◌, ◌++◌, All, inl, inr, Bool-cases, All-left, All-map,
}
use userfreezer.Prelude.Text.{Text, ◌==◌, eq→path, join, slash, starts_with}
use userfreezer.Prelude.Text.Split.{
  NoSlash, Apart, Apart-extend, not-Apart-extend, not-Apart-extended, join-injective,
  starts_with-below, split-join,
}
use userfreezer.Prelude.Dict.{insert, lookup-insert, any_of-insert}
use userfreezer.Core.Types.{Op, Ops}
use userfreezer.Core.Classify.{classify, has_live_child, live_child, shadowed, prefix_keys}
use userfreezer.Core.Classify.Keys.{Same, All-prefix_keys, cover-Same, shadowed-Same}

-- The key is that of a path whose components hold no slash, as `_norm` makes them.
abbrev pub IsKey : Text → Type 0
IsKey k = (c : Text) × (cs : List Text) × All NoSlash (c ∷ cs) × (k ≡ join slash (c ∷ cs))

abbrev pub HasKeys : Ops → Type 0
HasKeys ops = All (λ e. IsKey e.0) ops

module _ (ops : Ops) (op : Op) (p : Text) (ps : List Text) (p_ok : All NoSlash (p ∷ ps)) where
  abbrev key : Text
  key = join slash (p ∷ ps)

  abbrev next : Ops
  next = insert key op ops

  ne-prefix :
      (q : Text) (qs a b : List Text)
      → All NoSlash (q ∷ qs)
      → Apart (p ∷ ps) (q ∷ qs)
      → qs ≡ a ++ b
      → (key == join slash (q ∷ a)) ≡ true
      → ⊥
  ne-prefix q qs a b k h e t =
      let a_ok : All NoSlash a = All-left NoSlash a b (subst (All NoSlash) e k.1) in
      let same = join-injective p ps q a p_ok (k.0, a_ok) (eq→path key (join slash (q ∷ a)) t) in
      not-Apart-extended (q ∷ a) b (subst₂ Apart same (ap (λ (t : List Text). q ∷ t) e) h)

  Same-prefix :
      (q : Text) (qs a b : List Text)
      → All NoSlash (q ∷ qs)
      → Apart (p ∷ ps) (q ∷ qs)
      → qs ≡ a ++ b
      → Same next ops (join slash (q ∷ a))
  Same-prefix q qs a b k h e = elim (Bool-cases (key == join slash (q ∷ a))) [
    | inl t ↦ absurd (ne-prefix q qs a b k h e t)
    | inr f ↦ rw (lookup-insert, f)
  ]

  Same-prefixes :
      (q : Text) (qs : List Text)
      → All NoSlash (q ∷ qs)
      → Apart (p ∷ ps) (q ∷ qs)
      → All (Same next ops) (prefix_keys (q ∷ qs))
  Same-prefixes q qs k h =
      All-prefix_keys (Same next ops) q qs (λ a b e. Same-prefix q qs a b k h e)

  module _ (q : Text) (qs : List Text) (q_ok : All NoSlash (q ∷ qs))
      (h : Apart (p ∷ ps) (q ∷ qs)) where
    abbrev dir : Text
    dir = join slash (q ∷ qs) ++ (slash ∷ [])

    not-below : starts_with key dir ≡ true → ⊥
    not-below t =
        let (r, rs, e) = starts_with-below p ps q qs p_ok q_ok t in
        not-Apart-extend (q ∷ qs) (r ∷ rs) (subst (λ x. Apart x (q ∷ qs)) e h)

    shadowed-below :
        (c : Text) (cs : List Text) (seq : ℕ)
        → All NoSlash (c ∷ cs)
        → starts_with (join slash (c ∷ cs)) dir ≡ true
        → shadowed next (join slash (c ∷ cs)) seq ≡ shadowed ops (join slash (c ∷ cs)) seq
    shadowed-below c cs seq ok t =
        let (r, rs, e) = starts_with-below c cs q qs ok q_ok t in
        let apart : Apart (p ∷ ps) (c ∷ cs) =
          subst (Apart (p ∷ ps)) (sym e) (Apart-extend (p ∷ ps) (q ∷ qs) (r ∷ rs) h) in
        shadowed-Same next ops (join slash (c ∷ cs)) seq
          (rw (split-join c cs ok) (Same-prefixes c cs ok apart))

    live_child-same :
        (anchor : ℕ) (e : Text × Op)
        → IsKey e.0
        → live_child next dir anchor e ≡ live_child ops dir anchor e
    unfolding live_child
    live_child-same anchor (child, o) (c, cs, ok, named) =
        elim (Bool-cases (starts_with child dir)) [
          | inr f ↦ rw f
          | inl t ↦ rw named (rw (shadowed-below c cs o.seq ok (rw named at t)))
        ]

    has_live_child-same :
        (anchor : ℕ)
        → HasKeys ops
        → has_live_child next (join slash (q ∷ qs)) anchor
          ≡ has_live_child ops (join slash (q ∷ qs)) anchor
    unfolding has_live_child live_child
    has_live_child-same anchor keys =
        any_of-insert (live_child next dir anchor) (live_child ops dir anchor) key op ops (rw off)
          (λ w. rw off)
          (All-map (λ e. IsKey e.0)
            (λ e. live_child next dir anchor e ≡ live_child ops dir anchor e)
            (live_child-same anchor) ops keys)
      where
        off : starts_with key dir ≡ false
        off = elim (Bool-cases (starts_with key dir)) [ inl t ↦ absurd (not-below t) | inr f ↦ f ]

    pub classify-insert_apart : HasKeys ops → classify next (q ∷ qs) ≡ classify ops (q ∷ qs)
    unfolding classify
    classify-insert_apart keys =
        rw (cover-Same next ops (q ∷ qs) (Same-prefixes q qs q_ok h), has_live_child-same _ keys)
