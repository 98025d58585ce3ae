-- ===== src/Admin/Nonces.antt =====
-- admin_ipc.py: how the dictionary of nonces grows and shrinks.
use mathlib.Core.Path.{subst}
use userfreezer.Prelude.{
  suc, ◌≤◌, ◌≡◌, refl, Bool, true, false, Option, some, [], ◌∷◌, keep_if, length, arith, Has, inl,
  inr, Bool-cases,
}
use userfreezer.Prelude.Text.{Text, ◌==◌, eq→path}
use userfreezer.Prelude.Dict.{Dict, lookup, insert, erase, has_key}

module _ {V : Type 0} where
  pub length-keep_if : (p : Text × V → Bool) (d : Dict V) → length (keep_if p d) ≤ length d
  length-keep_if p [] = omega arith
  length-keep_if p (e ∷ d) = ground (arith, length-keep_if p d)

  pub length-erase : (k : Text) (d : Dict V) → length (erase k d) ≤ length d
  unfolding erase
  length-erase k [] = omega arith
  length-erase k ((j, w) ∷ d) = ground (arith, length-erase k d)

  pub length-insert : (k : Text) (v : V) (d : Dict V) → length (insert k v d) ≤ suc (length d)
  unfolding insert
  length-insert k v [] = omega arith
  length-insert k v ((j, w) ∷ d) = ground (arith, length-insert k v d)

  pub has_key-erase : (k : Text) (d : Dict V) → has_key k (erase k d) ≡ false
  unfolding has_key erase
  has_key-erase k [] = refl
  has_key-erase k ((j, w) ∷ d) = ground (arith, has_key-erase k d)

  pub lookup-keep_if :
      (p : Text × V → Bool) (k : Text) (v : V) (d : Dict V)
      → lookup k d ≡ some v
      → p (k, v) ≡ true
      → lookup k (keep_if p d) ≡ some v
  unfolding lookup
  lookup-keep_if p k v [] e h = e
  lookup-keep_if p k v ((j, w) ∷ d) e h = ground (arith, eq→path j k, lookup-keep_if p k v d, e, h)

  pair-path :
      (j k : Text) (w v : V)
      → j ≡ k
      → ◌≡◌ {A = Option V} (some w) (some v)
      → ◌≡◌ {A = Text × V} (j, w) (k, v)
  pair-path j k w v e h = cc

  pub Has-keep_if :
      (p : Text × V → Bool) (k : Text) (v : V) (d : Dict V)
      → lookup k (keep_if p d) ≡ some v
      → Has (k, v) d × (p (k, v) ≡ true)
  unfolding lookup
  Has-keep_if p k v [] e = cc
  Has-keep_if p k v ((j, w) ∷ d) e = elim (Bool-cases (p (j, w))) [
    | inr n ↦ (let (h, q) = Has-keep_if p k v d (rw n at e) in (inr h, q))
    | inl y ↦ elim (Bool-cases (j == k)) [
      | inr n ↦ (let (h, q) = Has-keep_if p k v d (rw (y, n) at e) in (inr h, q))
      | inl t ↦
          (let found : ◌≡◌ {A = Option V} (some w) (some v) = rw (y, t) at e in
            let both : ◌≡◌ {A = Text × V} (j, w) (k, v) = pair-path j k w v (eq→path j k t) found in
            (inl both, subst (λ x. p x ≡ true) both y))
    ]
  ]
