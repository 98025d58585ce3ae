-- ===== src/Core/Classify/Newest.antt =====
-- The newest operation of the overlay: where it covers a path it decides its classification.
use userfreezer.Prelude.{
  ℕ, ◌≤◌, ◌<◌, ◌≡◌, refl, ◌⊎◌, inl, inr, false, Option, none, some, List, [], ◌∷◌, ◌++◌, foldl,
  arith, All, any_of-false, Has, Has-map,
}
use userfreezer.Prelude.Text.{Text, eq_iff, eq_refl, join, slash}
use userfreezer.Prelude.Dict.{lookup, insert, lookup-insert, All-insert}
use userfreezer.Core.Types.{Op, Ops}
use userfreezer.Core.Classify.{
  Covering, keep_newer, cover_step, cover, prefixes, prefix_keys, anchor_seq, has_live_child,
  live_child,
}

-- No operation is newer than `n`.
abbrev pub SeqBelow : ℕ → Ops → Type 0
SeqBelow n ops = All (λ e. e.1.seq ≤ n) ops

pub SeqBelow-lookup :
    (n : ℕ) (ops : Ops) (k : Text) (op : Op) → SeqBelow n ops → lookup k ops ≡ some op → op.seq ≤ n
unfolding lookup
SeqBelow-lookup n [] k op h e = cc
SeqBelow-lookup n ((j, w) ∷ ops) k op h e = ground (arith, h.0, SeqBelow-lookup n ops k op h.1)

pub SeqBelow-mono : (n m : ℕ) (ops : Ops) → n ≤ m → SeqBelow n ops → SeqBelow m ops
SeqBelow-mono n m [] l h = tt
SeqBelow-mono n m (e ∷ ops) l h = (omega (arith, h.0), SeqBelow-mono n m ops l h.1)

pub SeqBelow-insert :
    (n : ℕ) (ops : Ops) (k : Text) (op : Op)
    → op.seq ≤ n
    → SeqBelow n ops
    → SeqBelow n (insert k op ops)
SeqBelow-insert n ops k op l h = All-insert (λ e. e.1.seq ≤ n) k op ops l h

-- Past the newest sequence there is no live child.
pub has_live_child-newest :
    (ops : Ops) (full : Text) (n : ℕ) → SeqBelow n ops → has_live_child ops full n ≡ false
unfolding has_live_child
has_live_child-newest ops full n h = any_of-false _ ops (none_live ops h)
  where
    none_live :
        (es : Ops) → SeqBelow n es → All (λ e. live_child ops (full ++ (slash ∷ [])) n e ≡ false) es
    none_live [] h = tt
    none_live (e ∷ es) h = (ground (arith, h.0), none_live es h.1)

-- An operation that is newer than every other one in the overlay.
pub record IsNewest (ops : Ops) (k : Text) (op : Op) : Type 0 where
  pub here : lookup k ops ≡ some op
  pub rest : (j : Text) (other : Op) → lookup j ops ≡ some other → (j ≡ k) ⊎ (other.seq < op.seq)

pub IsNewest-insert :
    (n : ℕ) (ops : Ops) (k : Text) (op : Op)
    → n < op.seq
    → SeqBelow n ops
    → IsNewest (insert k op ops) k op
IsNewest-insert n ops k op l h = record {
  here = rw lookup-insert (ground (arith, eq_refl k));
  rest = λ j other e.
      ground (arith, lookup-insert k j op ops, eq_iff k j, SeqBelow-lookup n ops j other h);
}

module _ (ops : Ops) (k : Text) (op : Op) (newest : IsNewest ops k op) where
  -- A loop that has met the newest operation keeps it.
  keep_newer-kept :
      (o : Option Op) (j : Text) → lookup j ops ≡ o → keep_newer o (some (op, k)) j ≡ some (op, k)
  keep_newer-kept none j e = refl
  keep_newer-kept (some other) j e = ground (arith, newest.here, newest.rest j other e)

  cover_step-kept : (j : Text) → cover_step ops (some (op, k)) j ≡ some (op, k)
  unfolding cover_step
  cover_step-kept j = keep_newer-kept (lookup j ops) j refl

  -- What the loop may hold before it meets the newest operation, or after.
  abbrev Settling : Covering → Type 0
  Settling acc = (anchor_seq acc < op.seq) ⊎ (acc ≡ some (op, k))

  keep_newer-Settling :
      (o : Option Op) (acc : Covering) (j : Text)
      → lookup j ops ≡ o
      → Settling acc
      → Settling (keep_newer o acc j)
  keep_newer-Settling none acc j e h = h
  keep_newer-Settling (some other) none j e h = ground (arith, newest.here, newest.rest j other e)
  keep_newer-Settling (some other) (some (held, path)) j e h =
      ground (arith, newest.here, newest.rest j other e)

  cover_step-Settling : (acc : Covering) (j : Text) → Settling acc → Settling (cover_step ops acc j)
  unfolding cover_step
  cover_step-Settling acc j h = keep_newer-Settling (lookup j ops) acc j refl h

  cover_step-here : (acc : Covering) → Settling acc → cover_step ops acc k ≡ some (op, k)
  unfolding cover_step
  cover_step-here none h = ground (arith, newest.here)
  cover_step-here (some (held, path)) h = ground (arith, newest.here)

  foldl-kept : (keys : List Text) → foldl (cover_step ops) (some (op, k)) keys ≡ some (op, k)
  foldl-kept [] = refl
  foldl-kept (j ∷ keys) = rw (cover_step-kept j) (foldl-kept keys)

  foldl-newest :
      (keys : List Text) (acc : Covering)
      → Settling acc
      → Has k keys
      → foldl (cover_step ops) acc keys ≡ some (op, k)
  foldl-newest [] acc s h = absurd h
  foldl-newest (j ∷ keys) acc s (inl e) = rw (e, cover_step-here acc s) (foldl-kept keys)
  foldl-newest (j ∷ keys) acc s (inr h) =
      foldl-newest keys (cover_step ops acc j) (cover_step-Settling acc j s) h

  pub cover-newest :
      (parts : List Text) → 0 < op.seq → Has k (prefix_keys parts) → cover ops parts ≡ some (op, k)
  unfolding cover
  cover-newest parts p h = foldl-newest (prefix_keys parts) none (inl p) h

Has-prefixes : (x : Text) (ps r : List Text) → Has (x ∷ ps) (prefixes (x ∷ (ps ++ r)))
unfolding prefixes
Has-prefixes x [] r = inl refl
Has-prefixes x (y ∷ ps) r =
    inr (Has-map (λ q. x ∷ q) (y ∷ ps) (prefixes (y ∷ (ps ++ r))) (Has-prefixes y ps r))

-- A path is among the prefixes of its extensions.
pub Has-prefix_keys :
    (x : Text) (ps r : List Text) → Has (join slash (x ∷ ps)) (prefix_keys (x ∷ (ps ++ r)))
unfolding prefix_keys
Has-prefix_keys x ps r =
    Has-map (join slash) (x ∷ ps) (prefixes (x ∷ (ps ++ r))) (Has-prefixes x ps r)
