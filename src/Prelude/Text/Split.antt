-- ===== src/Prelude/Text/Split.antt =====
-- `split` after `join`, and what a slash-separated key says of the path that it stands for.
use mathlib.Core.Path.{◌≡◌, refl, sym, ap, ◌∙◌, subst}
use mathlib.Core.Logic.{◌⊎◌, inl, inr, ◌≢◌}
use mathlib.Core.Bool.{Bool, true, false}
use mathlib.Core.List.{List, [], ◌∷◌, ◌++◌, append_assoc}
use native.Mathlib.Omega.{arith}
use userfreezer.Prelude.Tests.{nat_eq, nat_eq_iff, Bool-cases}
use userfreezer.Prelude.Lists.{All, any_of}
use userfreezer.Prelude.Text.{
  Text, ◌==◌, eq-false, split, join, starts_with, starts_with-append, eq→path, contains, slash,
}

pub join-append :
    (p : Text) (ps : List Text) (r : Text) (rs : List Text)
    → join slash (p ∷ (ps ++ (r ∷ rs))) ≡ join slash (p ∷ ps) ++ (slash ∷ join slash (r ∷ rs))
unfolding join
join-append p [] r rs = refl
join-append p (q ∷ ps) r rs = rw (join-append q ps r rs) (sym (append_assoc p _ _))

-- A component holds no slash.
abbrev pub NoSlash : Text → Type 0
NoSlash t = contains t slash ≡ false

split-word : (w t : Text) → NoSlash w → split slash (w ++ (slash ∷ t)) ≡ w ∷ split slash t
unfolding split contains
split-word [] t h = refl
split-word (c ∷ w) t h = rw (split-word w t (ground arith)) (ground arith)

split-last : (w : Text) → NoSlash w → split slash w ≡ w ∷ []
unfolding split contains
split-last [] h = refl
split-last (c ∷ w) h = rw (split-last w (ground arith)) (ground arith)

pub split-join_then :
    (p : Text) (ps : List Text) (t : Text)
    → All NoSlash (p ∷ ps)
    → split slash (join slash (p ∷ ps) ++ (slash ∷ t)) ≡ p ∷ (ps ++ split slash t)
unfolding join
split-join_then p [] t h = split-word p t h.0
split-join_then p (q ∷ ps) t h =
    rw (append_assoc p _ _, split-word p _ h.0, split-join_then q ps t h.1)

pub split-join :
    (p : Text) (ps : List Text) → All NoSlash (p ∷ ps) → split slash (join slash (p ∷ ps)) ≡ p ∷ ps
unfolding join
split-join p [] h = split-last p h.0
split-join p (q ∷ ps) h = rw (split-word p _ h.0, split-join q ps h.1)

pub split-cons : (s : Text) → (w : Text) × (ws : List Text) × (split slash s ≡ w ∷ ws)
unfolding split
split-cons [] = ([], [], refl)
split-cons (c ∷ s) = elim (Bool-cases (nat_eq c slash)) [
  | inl e ↦ ([], split slash s, rw e)
  | inr e ↦ let (w, ws, q) = split-cons s in (c ∷ w, ws, rw (e, q))
]

pub starts_with-rest : (s p : Text) → starts_with s p ≡ true → (t : Text) × (s ≡ p ++ t)
unfolding starts_with
starts_with-rest s [] h = (s, refl)
starts_with-rest [] (c ∷ p) h = cc
starts_with-rest (x ∷ s) (c ∷ p) h =
    let (t, e) = starts_with-rest s p (ground arith) in (t, ground (arith, nat_eq_iff x c))

-- Neither path leads to the other.
abbrev pub Apart : List Text → List Text → Type 0
Apart [] ys = ⊥
Apart (x ∷ xs) [] = ⊥
Apart (x ∷ xs) (y ∷ ys) = (x ≢ y) ⊎ Apart xs ys

pub Apart-extend : (xs ys zs : List Text) → Apart xs ys → Apart xs (ys ++ zs)
Apart-extend [] ys zs h = absurd h
Apart-extend (x ∷ xs) [] zs h = absurd h
Apart-extend (x ∷ xs) (y ∷ ys) zs (inl h) = inl h
Apart-extend (x ∷ xs) (y ∷ ys) zs (inr h) = inr (Apart-extend xs ys zs h)

pub not-Apart-extend : (xs zs : List Text) → Apart (xs ++ zs) xs → ⊥
not-Apart-extend [] [] h = h
not-Apart-extend [] (z ∷ zs) h = h
not-Apart-extend (x ∷ xs) zs (inl h) = h refl
not-Apart-extend (x ∷ xs) zs (inr h) = not-Apart-extend xs zs h

pub not-Apart-extended : (xs zs : List Text) → Apart xs (xs ++ zs) → ⊥
not-Apart-extended [] zs h = h
not-Apart-extended (x ∷ xs) zs (inl h) = h refl
not-Apart-extended (x ∷ xs) zs (inr h) = not-Apart-extended xs zs h

not-Apart-self : (xs : List Text) → Apart xs xs → ⊥
not-Apart-self [] h = h
not-Apart-self (x ∷ xs) (inl h) = h refl
not-Apart-self (x ∷ xs) (inr h) = not-Apart-self xs h

pub join-injective :
    (p : Text) (ps : List Text) (q : Text) (qs : List Text)
    → All NoSlash (p ∷ ps)
    → All NoSlash (q ∷ qs)
    → join slash (p ∷ ps) ≡ join slash (q ∷ qs)
    → ◌≡◌ {A = List Text} (p ∷ ps) (q ∷ qs)
join-injective p ps q qs h k e = sym (split-join p ps h) ∙ ap (split slash) e ∙ split-join q qs k

-- A key that starts with the directory `q/` stands for a path below `q`.
pub starts_with-below :
    (c : Text) (cs : List Text) (q : Text) (qs : List Text)
    → All NoSlash (c ∷ cs)
    → All NoSlash (q ∷ qs)
    → starts_with (join slash (c ∷ cs)) (join slash (q ∷ qs) ++ (slash ∷ [])) ≡ true
    → (r : Text) × (rs : List Text) × (◌≡◌ {A = List Text} (c ∷ cs) (q ∷ (qs ++ (r ∷ rs))))
starts_with-below c cs q qs h k e =
    let (t, eq) = starts_with-rest _ _ e in
    let (w, ws, cut) = split-cons t in
    (
      w,
      ws,
      sym (split-join c cs h)
          ∙ ap (split slash) (eq ∙ append_assoc (join slash (q ∷ qs)) (slash ∷ []) t)
          ∙ split-join_then q qs t k
          ∙ ap (λ (rest : List Text). q ∷ (qs ++ rest)) cut,
    )

pub join-ne-nil :
    (p : Text) (ps : List Text) → (p == []) ≡ false → (join slash (p ∷ ps) == []) ≡ false
unfolding join ◌==◌
join-ne-nil [] ps h = cc
join-ne-nil (c ∷ p) [] h = refl
join-ne-nil (c ∷ p) (q ∷ ps) h = refl

-- Paths that part have different keys.
pub Apart-ne :
    (p : Text) (ps : List Text) (q : Text) (qs : List Text)
    → All NoSlash (p ∷ ps)
    → All NoSlash (q ∷ qs)
    → Apart (p ∷ ps) (q ∷ qs)
    → (join slash (p ∷ ps) == join slash (q ∷ qs)) ≡ false
Apart-ne p ps q qs h k a = eq-false _ _ λ e.
    not-Apart-self (q ∷ qs) (subst (λ xs. Apart xs (q ∷ qs)) (join-injective p ps q qs h k e) a)

-- The key of a path below another starts with the other's directory.
pub below-starts_with :
    (p : Text) (ps : List Text) (r : Text) (rs : List Text)
    → starts_with (join slash (p ∷ (ps ++ (r ∷ rs)))) (join slash (p ∷ ps) ++ (slash ∷ [])) ≡ true
below-starts_with p ps r rs =
    rw (join-append p ps r rs, ← append_assoc (join slash (p ∷ ps)) (slash ∷ []) _)
      (starts_with-append _ _)

-- A test that holds of a listed text holds of some.
pub any_of-mem :
    (test : Text → Bool) (k : Text) (ks : List Text)
    → test k ≡ true
    → any_of (λ j. j == k) ks ≡ true
    → any_of test ks ≡ true
any_of-mem test k [] t h = h
any_of-mem test k (j ∷ ks) t h = elim (Bool-cases (j == k)) [
  | inl e ↦ rw (eq→path j k e, t)
  | inr e ↦ ground (arith, any_of-mem test k ks t (rw e at h))
]
