-- ===== src/Core/Classify/Keys.antt =====
-- The keys that `_classify` looks up: those of the ancestors of a path. Where two overlays agree on
-- them, its loops answer alike.
use userfreezer.Prelude.{
  ◌≡◌, refl, ap, List, [], ◌∷◌, ◌++◌, foldl, drop_last, All, any_of-cong, All-drop_last, All-image,
  All-map, ℕ, none,
}
use userfreezer.Prelude.Text.{Text, join, slash, split}
use userfreezer.Prelude.Dict.{lookup}
use userfreezer.Core.Types.{Ops}
use userfreezer.Core.Classify.{
  Covering, cover_step, cover, prefixes, prefix_keys, shadowed, keep_newer, newer_than,
}

All-prefixes :
    (P : List Text → Type 0) (x : Text) (xs : List Text)
    → ((a b : List Text) → xs ≡ a ++ b → P (x ∷ a))
    → All P (prefixes (x ∷ xs))
unfolding prefixes
All-prefixes P x [] f = (f [] [] refl, tt)
All-prefixes P x (y ∷ ys) f = (
  f [] (y ∷ ys) refl,
  All-image P (λ q. x ∷ q) (prefixes (y ∷ ys))
      (All-prefixes (λ q. P (x ∷ q)) y ys (λ a b e. f (y ∷ a) b (ap (λ (t : List Text). y ∷ t) e))),
)

-- What holds of the key of every non-empty ancestor.
pub All-prefix_keys :
    (P : Text → Type 0) (x : Text) (xs : List Text)
    → ((a b : List Text) → xs ≡ a ++ b → P (join slash (x ∷ a)))
    → All P (prefix_keys (x ∷ xs))
unfolding prefix_keys
All-prefix_keys P x xs f =
    All-image P (join slash) (prefixes (x ∷ xs)) (All-prefixes (λ q. P (join slash q)) x xs f)

-- Two overlays hold the same operation at a key.
abbrev pub Same : Ops → Ops → Text → Type 0
Same ops' ops k = lookup k ops' ≡ lookup k ops

foldl-Same :
    (ops' ops : Ops) (keys : List Text) (acc : Covering)
    → All (Same ops' ops) keys
    → foldl (cover_step ops') acc keys ≡ foldl (cover_step ops) acc keys
unfolding cover_step
foldl-Same ops' ops [] acc h = refl
foldl-Same ops' ops (k ∷ keys) acc h =
    rw h.0 (foldl-Same ops' ops keys (keep_newer (lookup k ops) acc k) h.1)

pub cover-Same :
    (ops' ops : Ops) (parts : List Text)
    → All (Same ops' ops) (prefix_keys parts)
    → cover ops' parts ≡ cover ops parts
unfolding cover
cover-Same ops' ops parts h = foldl-Same ops' ops (prefix_keys parts) none h

pub shadowed-Same :
    (ops' ops : Ops) (child : Text) (seq : ℕ)
    → All (Same ops' ops) (prefix_keys (split slash child))
    → shadowed ops' child seq ≡ shadowed ops child seq
unfolding shadowed
shadowed-Same ops' ops child seq h =
    any_of-cong (λ k. newer_than seq (lookup k ops')) (λ k. newer_than seq (lookup k ops)) _
      (All-map (Same ops' ops) (λ k. newer_than seq (lookup k ops') ≡ newer_than seq (lookup k ops))
        (λ k e. ap (newer_than seq) e) (drop_last (prefix_keys (split slash child)))
        (All-drop_last (Same ops' ops) (prefix_keys (split slash child)) h))
