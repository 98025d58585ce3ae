-- ===== src/Prelude/Dict.antt =====
-- Python's `dict` with texts for keys, in insertion order: assigning to a present key keeps its
-- place, and `pop` drops the entry.
use mathlib.Core.Path.{◌≡◌, refl, ap, subst}
use mathlib.Core.Logic.{inl, inr}
use mathlib.Core.Bool.{Bool, true, false}
use mathlib.Core.Option.{Option, none, some}
use mathlib.Core.List.{List, [], ◌∷◌}
use native.Mathlib.Omega.{arith}
use userfreezer.Prelude.Tests.{if◌then◌else◌, Bool-cases}
use userfreezer.Prelude.Lists.{all_of, All, Has, any_of, any_of-cong}
use userfreezer.Prelude.Text.{Text, ◌==◌, eq_iff, eq→path}

abbrev pub Dict {ℓ} : Type ℓ → Type ℓ
Dict V = List (Text × V)

module _ {ℓ} {V : Type ℓ} where
  unfoldable pub lookup : Text → Dict V → Option V
  lookup k [] = none
  lookup k ((j, v) ∷ d) = if j == k then some v else lookup k d

  -- `d[k] = v`
  unfoldable pub insert : Text → V → Dict V → Dict V
  insert k v [] = (k, v) ∷ []
  insert k v ((j, w) ∷ d) = if j == k then (k, v) ∷ d else (j, w) ∷ insert k v d

  -- `d.pop(k, None)`
  unfoldable pub erase : Text → Dict V → Dict V
  erase k [] = []
  erase k ((j, w) ∷ d) = let rest = erase k d in if j == k then rest else (j, w) ∷ rest

  -- `k in d`
  unfoldable pub has_key : Text → Dict V → Bool
  has_key k [] = false
  has_key k ((j, w) ∷ d) = if j == k then true else has_key k d

  pub lookup-insert :
      (k j : Text) (v : V) (d : Dict V)
      → lookup j (insert k v d) ≡ (if k == j then some v else lookup j d)
  unfolding lookup insert
  lookup-insert k j v [] = refl
  lookup-insert k j v ((i, w) ∷ d) =
      ground (arith, eq_iff k j, eq_iff i k, eq_iff i j, lookup-insert k j v d)

  pub lookup-erase :
      (k j : Text) (d : Dict V) → lookup j (erase k d) ≡ (if k == j then none else lookup j d)
  unfolding lookup erase
  lookup-erase k j [] = ground arith
  lookup-erase k j ((i, w) ∷ d) =
      ground (arith, lookup-erase k j d, eq_iff i k, eq_iff i j, eq_iff k j)

  pub has_key-lookup : (k : Text) (d : Dict V) → has_key k d ≡ false → lookup k d ≡ none
  unfolding lookup has_key
  has_key-lookup k [] h = refl
  has_key-lookup k ((j, w) ∷ d) h = ground (arith, has_key-lookup k d)

module _ {ℓ} {V : Type ℓ} where
  -- What holds of every entry holds after an assignment of an entry for which it holds.
  pub All-insert :
      (P : Text × V → Type ℓ) (k : Text) (v : V) (d : Dict V)
      → P (k, v)
      → All P d
      → All P (insert k v d)
  unfolding insert
  All-insert P k v [] p h = (p, tt)
  All-insert P k v ((j, w) ∷ d) p h =
      elim (j == k) as (λ b. All P (if b then (k, v) ∷ d else (j, w) ∷ insert k v d)) [
        | true ↦ (p, h.1)
        | false ↦ (h.0, All-insert P k v d p h.1)
      ]

pub Has-insert : {V : Type 0} (k : Text) (v : V) (d : Dict V) → Has (k, v) (insert k v d)
unfolding insert
Has-insert k v [] = inl refl
Has-insert k v ((j, w) ∷ d) =
    elim (j == k) as (λ b. Has (k, v) (if b then (k, v) ∷ d else (j, w) ∷ insert k v d)) [
      | true ↦ inl refl
      | false ↦ inr (Has-insert k v d)
    ]

-- A test that skips the assigned key and agrees elsewhere answers as before the assignment.
pub any_of-insert :
    {V : Type 0} (p q : Text × V → Bool) (k : Text) (v : V) (d : Dict V)
    → p (k, v) ≡ false
    → ((w : V) → q (k, w) ≡ false)
    → All (λ e. p e ≡ q e) d
    → any_of p (insert k v d) ≡ any_of q d
unfolding insert
any_of-insert p q k v [] new old h = ground arith
any_of-insert p q k v ((j, w) ∷ d) new old h = elim (Bool-cases (j == k)) [
  | inl e ↦ rw (e, new, ap (λ (i : Text). q (i, w)) (eq→path j k e), old w) (any_of-cong p q d h.1)
  | inr e ↦ rw (e, h.0, any_of-insert p q k v d new old h.1)
]

-- No key is listed twice.
abbrev pub NodupKeys {ℓ} : {V : Type ℓ} → Dict V → Type 0
NodupKeys [] = Unit
NodupKeys ((k, v) ∷ d) = (has_key k d ≡ false) × NodupKeys d

module _ {V : Type 0} where
  pub has_key-insert :
      (k j : Text) (v : V) (d : Dict V)
      → has_key j (insert k v d) ≡ (if k == j then true else has_key j d)
  unfolding has_key insert
  has_key-insert k j v [] = refl
  has_key-insert k j v ((i, w) ∷ d) =
      ground (arith, has_key-insert k j v d, eq_iff i k, eq_iff i j, eq_iff k j)

  pub NodupKeys-insert : (k : Text) (v : V) (d : Dict V) → NodupKeys d → NodupKeys (insert k v d)
  unfolding insert has_key
  NodupKeys-insert k v [] h = (refl, tt)
  NodupKeys-insert k v ((j, w) ∷ d) h = elim (Bool-cases (j == k)) [
    | inl e ↦ rw e (subst (λ i. has_key i d ≡ false) (eq→path j k e) h.0, h.1)
    | inr e ↦ rw e (
      ground (arith, has_key-insert k j v d, h.0, eq_iff j k, eq_iff k j, e),
      NodupKeys-insert k v d h.1,
    )
  ]

  -- A test that held of all entries before the assignment, and is only weakened for other keys.
  all_of-other :
      (p q : Text × V → Bool) (k : Text) (d : Dict V)
      → has_key k d ≡ false
      → ((j : Text) (w : V) → (j == k) ≡ false → p (j, w) ≡ true → q (j, w) ≡ true)
      → all_of p d ≡ true
      → all_of q d ≡ true
  unfolding has_key
  all_of-other p q k [] h f a = refl
  all_of-other p q k ((j, w) ∷ d) h f a = elim (Bool-cases (j == k)) [
    | inl e ↦ ground (arith, e, h)
    | inr e ↦
        let rest = all_of-other p q k d (rw e at h) f (ground (arith, a)) in
        ground (arith, f j w e, a, rest)
  ]

  pub all_of-insert :
      (p q : Text × V → Bool) (k : Text) (v : V) (d : Dict V)
      → NodupKeys d
      → q (k, v) ≡ true
      → ((j : Text) (w : V) → (j == k) ≡ false → p (j, w) ≡ true → q (j, w) ≡ true)
      → all_of p d ≡ true
      → all_of q (insert k v d) ≡ true
  unfolding insert
  all_of-insert p q k v [] n new f a = ground (arith, new)
  all_of-insert p q k v ((j, w) ∷ d) n new f a = elim (Bool-cases (j == k)) [
    | inl e ↦
        let rest =
          all_of-other p q k d (subst (λ i. has_key i d ≡ false) (eq→path j k e) n.0) f
            (ground (arith, a)) in
        rw e (ground (arith, new, rest))
    | inr e ↦
        let rest = all_of-insert p q k v d n.1 new f (ground (arith, a)) in
        rw e (ground (arith, f j w e, a, rest))
  ]
