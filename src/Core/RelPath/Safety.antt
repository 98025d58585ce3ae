-- ===== src/Core/RelPath/Safety.antt =====
-- The components that `_norm` and `_commit_parts` let through stay inside the tree.
use mathlib.Core.Path.{subst}
use userfreezer.Prelude.{
  ℕ, ◌≡◌, refl, false, List, [], ◌∷◌, any_of, keep_if, nat_eq, arith, All, All-map, inl, inr,
  Bool-cases,
}
use userfreezer.Prelude.Text.{
  Text, codes, ◌==◌, replace, strip, lstrip_by, split, push, contains, slash,
}
use userfreezer.Prelude.Text.Split.{NoSlash}
use userfreezer.Core.Outcome.{ok, ok-injective}
use userfreezer.Core.RelPath.{norm, norm_parts, is_component, is_ambiguous, commit_parts, backslash}

-- One component: not empty, not `.` and not `..`, and without a slash.
pub record IsSafe (p : Text) : Type 0 where
  pub named : (p == []) ≡ false
  pub not_dot : (p == codes ".") ≡ false
  pub not_dots : (p == codes "..") ≡ false
  pub no_slash : NoSlash p

push-NoSlash :
    (c : ℕ) (ws : List Text) → nat_eq c slash ≡ false → All NoSlash ws → All NoSlash (push c ws)
unfolding contains
push-NoSlash c [] e h = (ground arith, tt)
push-NoSlash c (w ∷ ws) e h = (ground (arith, h.0), h.1)

pub split-NoSlash : (s : Text) → All NoSlash (split slash s)
unfolding split contains
split-NoSlash [] = (refl, tt)
split-NoSlash (c ∷ s) = elim (Bool-cases (nat_eq c slash)) [
  | inl e ↦ rw e (refl, split-NoSlash s)
  | inr e ↦ rw e (push-NoSlash c (split slash s) e (split-NoSlash s))
]

keep_if-IsSafe :
    (ws : List Text)
    → All NoSlash ws
    → any_of (λ p. p == codes "..") (keep_if is_component ws) ≡ false
    → All IsSafe (keep_if is_component ws)
keep_if-IsSafe [] h e = tt
keep_if-IsSafe (w ∷ ws) h e = elim (Bool-cases (is_component w)) [
  | inl k ↦
      let e' = rw k at e in
      let safe : IsSafe w = record {
        named = ground (arith, k);
        not_dot = ground (arith, k);
        not_dots = ground (arith, e');
        no_slash = h.0;
      } in
      rw k (safe, keep_if-IsSafe ws h.1 (ground (arith, e')))
  | inr k ↦ rw k (keep_if-IsSafe ws h.1 (rw k at e))
]

norm_parts-IsSafe : (rel : Text) (parts : List Text) → norm_parts rel ≡ ok parts → All IsSafe parts
unfolding norm_parts
norm_parts-IsSafe rel parts h =
    let kept = keep_if is_component (split slash rel) in
    elim (Bool-cases (any_of (λ p. p == codes "..") kept)) [
      | inl e ↦ ground (arith, e, h)
      | inr e ↦
          let same : kept ≡ parts = ground (arith, e, h) in
          subst (All IsSafe) same (keep_if-IsSafe (split slash rel) (split-NoSlash rel) e)
    ]

-- Each component of a path that `_norm` returns is not empty, neither `.` nor `..`, and holds no
-- slash.
pub norm-IsSafe : (rel : Text) (parts : List Text) → norm rel ≡ ok parts → All IsSafe parts
unfolding norm
norm-IsSafe rel parts h =
    let cut = lstrip_by (λ c. nat_eq c slash) (strip (replace backslash slash rel)) in
    elim (Bool-cases (cut == [])) [
      | inl e ↦ subst (All IsSafe) (ok-injective [] parts (rw e at h)) tt
      | inr e ↦ norm_parts-IsSafe cut parts (rw e at h)
    ]

pub IsSafe-NoSlash : (parts : List Text) → All IsSafe parts → All NoSlash parts
IsSafe-NoSlash parts h = All-map IsSafe NoSlash (λ p s. s.no_slash) parts h

ambiguous-IsSafe :
    (ws : List Text) → All NoSlash ws → any_of is_ambiguous ws ≡ false → All IsSafe ws
ambiguous-IsSafe [] h e = tt
ambiguous-IsSafe (w ∷ ws) h e = (
  record {
    named = ground (arith, e);
    not_dot = ground (arith, e);
    not_dots = ground (arith, e);
    no_slash = h.0;
  },
  ambiguous-IsSafe ws h.1 (ground (arith, e)),
)

-- Each component of a path that `_commit_parts` accepts is not empty, neither `.` nor `..`, and
-- holds no slash.
pub commit_parts-IsSafe :
    (rel : Text) (parts : List Text) → commit_parts rel ≡ ok parts → All IsSafe parts
unfolding commit_parts
commit_parts-IsSafe rel parts h =
    let path = replace backslash slash rel in
    elim (Bool-cases (any_of is_ambiguous (split slash path))) [
      | inl e ↦ ground (arith, e, h)
      | inr e ↦
          let same : split slash path ≡ parts = ground (arith, e, h) in
          subst (All IsSafe) same (ambiguous-IsSafe (split slash path) (split-NoSlash path) e)
    ]
