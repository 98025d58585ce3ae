-- ===== src/Prelude/Text/Order.antt =====
-- `sorted` of texts: by code points, a prefix first.
use mathlib.Core.Path.{◌≡◌, refl}
use mathlib.Core.Bool.{Bool, true, false, ◌&&◌, ◌||◌}
use mathlib.Core.List.{List, [], ◌∷◌}
use native.Mathlib.Omega.{arith}
use userfreezer.Prelude.Tests.{ltb, nat_eq, if◌then◌else◌}
use userfreezer.Prelude.Lists.{any_of}
use userfreezer.Prelude.Text.{Text}

-- a <= b
unfoldable pub text_le : Text → Text → Bool
text_le [] b = true
text_le (x ∷ a) [] = false
text_le (x ∷ a) (y ∷ b) = ltb x y || (nat_eq x y && text_le a b)

unfoldable pub insert_sorted : Text → List Text → List Text
insert_sorted a [] = a ∷ []
insert_sorted a (b ∷ bs) = if text_le a b then a ∷ b ∷ bs else b ∷ insert_sorted a bs

unfoldable pub sorted : List Text → List Text
sorted [] = []
sorted (a ∷ as_) = insert_sorted a (sorted as_)

text_le-total : (a b : Text) → text_le a b ≡ false → text_le b a ≡ true
unfolding text_le
text_le-total [] b h = cc
text_le-total (x ∷ a) [] h = refl
text_le-total (x ∷ a) (y ∷ b) h = ground (arith, text_le-total a b)

-- Each text is at most the next.
abbrev pub IsSorted : List Text → Type 0
IsSorted [] = Unit
IsSorted (a ∷ []) = Unit
IsSorted (a ∷ b ∷ bs) = (text_le a b ≡ true) × IsSorted (b ∷ bs)

insert_sorted-IsSorted : (a : Text) (bs : List Text) → IsSorted bs → IsSorted (insert_sorted a bs)
unfolding insert_sorted
insert_sorted-IsSorted a [] h = tt
insert_sorted-IsSorted a (b ∷ []) h = ground (arith, text_le-total a b)
insert_sorted-IsSorted a (b ∷ c ∷ bs) h =
    ground (arith, text_le-total a b, h.0, insert_sorted-IsSorted a (c ∷ bs) h.1)

pub sorted-IsSorted : (xs : List Text) → IsSorted (sorted xs)
unfolding sorted
sorted-IsSorted [] = tt
sorted-IsSorted (x ∷ xs) = insert_sorted-IsSorted x (sorted xs) (sorted-IsSorted xs)

any_of-insert_sorted :
    (p : Text → Bool) (a : Text) (bs : List Text)
    → any_of p (insert_sorted a bs) ≡ (p a || any_of p bs)
unfolding insert_sorted
any_of-insert_sorted p a [] = refl
any_of-insert_sorted p a (b ∷ bs) = ground (arith, any_of-insert_sorted p a bs)

-- Sorting neither loses nor invents a text.
pub any_of-sorted : (p : Text → Bool) (xs : List Text) → any_of p (sorted xs) ≡ any_of p xs
unfolding sorted
any_of-sorted p [] = refl
any_of-sorted p (x ∷ xs) = ground (arith, any_of-insert_sorted p x (sorted xs), any_of-sorted p xs)
