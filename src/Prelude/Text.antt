-- ===== src/Prelude/Text.antt =====
-- Python's `str` and `bytes` as lists of code points or bytes, with the methods that the code uses.
pub mod Split
pub mod Order
use Prim.Native.Char.{code}
use Prim.Native.Nat.{ℕ, suc, ◌+◌, ◌-◌, ◌≤◌}
use Prim.Native.String.{String}
use mathlib.Core.Path.{◌≡◌, refl, ap}
use mathlib.Core.Logic.{◌↔◌, ◌≢◌}
use mathlib.Core.Bool.{Bool, true, false, not, ◌&&◌, ◌||◌}
use mathlib.Core.List.{List, [], ◌∷◌, ◌++◌, map}
use native.Mathlib.Omega.{arith}
use userfreezer.Prelude.Tests.{ltb, leb, nat_eq, nat_eq_iff, if◌then◌else◌, Bool-cases}
use userfreezer.Prelude.Lists.{length, length-append, All}

abbrev pub Text : Type 0
Text = List ℕ

abbrev pub codes : String → Text
codes String.[] = []
codes (String.◌∷◌ c s) = code c ∷ codes s

infix 50 ◌==◌
unfoldable pub ◌==◌ : Text → Text → Bool
[] == [] = true
[] == (y ∷ ys) = false
(x ∷ xs) == [] = false
(x ∷ xs) == (y ∷ ys) = nat_eq x y && (xs == ys)

pub eq→path : (a b : Text) → (a == b) ≡ true → a ≡ b
unfolding ◌==◌
eq→path [] [] h = refl
eq→path [] (y ∷ ys) h = cc
eq→path (x ∷ xs) [] h = cc
eq→path (x ∷ xs) (y ∷ ys) h = ground (arith, nat_eq_iff x y, eq→path xs ys)

pub eq_refl : (a : Text) → (a == a) ≡ true
unfolding ◌==◌
eq_refl [] = refl
eq_refl (x ∷ xs) = ground (arith, nat_eq_iff x x, eq_refl xs)

pub eq_iff : (a b : Text) → ((a == b) ≡ true) ↔ (a ≡ b)
eq_iff a b = (eq→path a b, λ p. rw p (eq_refl b))

pub eq-false : (a b : Text) → a ≢ b → (a == b) ≡ false
eq-false a b h = ground (arith, eq_iff a b)

-- A text differs from its proper extensions.
pub eq-append_false : (a b : Text) (c : ℕ) → (a == (a ++ (c ∷ b))) ≡ false
unfolding ◌==◌
eq-append_false [] b c = refl
eq-append_false (x ∷ a) b c = ground (arith, eq-append_false a b c)

pub eq-append_false' : (a b : Text) (c : ℕ) → ((a ++ (c ∷ b)) == a) ≡ false
unfolding ◌==◌
eq-append_false' [] b c = refl
eq-append_false' (x ∷ a) b c = ground (arith, eq-append_false' a b c)

-- `s.startswith(prefix)`
unfoldable pub starts_with : Text → Text → Bool
starts_with s [] = true
starts_with [] (p ∷ ps) = false
starts_with (c ∷ s) (p ∷ ps) = nat_eq c p && starts_with s ps

pub starts_with-append : (p s : Text) → starts_with (p ++ s) p ≡ true
unfolding starts_with
starts_with-append [] s = refl
starts_with-append (x ∷ p) s = ground (arith, starts_with-append p s)

-- `c in s`
unfoldable pub contains : Text → ℕ → Bool
contains [] c = false
contains (x ∷ s) c = nat_eq x c || contains s c

abbrev pub push : ℕ → List Text → List Text
push c [] = (c ∷ []) ∷ []
push c (w ∷ ws) = (c ∷ w) ∷ ws

-- `s.split(sep)`
unfoldable pub split : ℕ → Text → List Text
split sep [] = [] ∷ []
split sep (c ∷ s) = let rest = split sep s in if nat_eq c sep then [] ∷ rest else push c rest

-- `sep.join(parts)`
unfoldable pub join : ℕ → List Text → Text
join sep [] = []
join sep (w ∷ []) = w
join sep (w ∷ v ∷ ws) = w ++ (sep ∷ join sep (v ∷ ws))

-- `s.replace(a, b)` of one character
unfoldable pub replace : ℕ → ℕ → Text → Text
replace a b [] = []
replace a b (c ∷ s) = (if nat_eq c a then b else c) ∷ replace a b s

-- `s.lstrip(...)` by a test
unfoldable pub lstrip_by : (ℕ → Bool) → Text → Text
lstrip_by p [] = []
lstrip_by p (c ∷ s) = let rest = lstrip_by p s in if p c then rest else c ∷ s

unfoldable pub rstrip_by : (ℕ → Bool) → Text → Text
rstrip_by p [] = []
rstrip_by p (c ∷ s) = elim (rstrip_by p s) [
  | [] ↦ (if p c then [] else c ∷ [])
  | x ∷ xs ↦ c ∷ x ∷ xs
]

-- `str.isspace` of one character
abbrev pub is_space : ℕ → Bool
is_space c =
    (leb 9 c && leb c 13)
    || (leb 28 c && leb c 32)
    || nat_eq c 133
    || nat_eq c 160
    || nat_eq c 5760
    || (leb 8192 c && leb c 8202)
    || nat_eq c 8232
    || nat_eq c 8233
    || nat_eq c 8239
    || nat_eq c 8287
    || nat_eq c 12288

-- `s.strip()`
unfoldable pub strip : Text → Text
unfolding lstrip_by rstrip_by
strip s = lstrip_by is_space (rstrip_by is_space s)

abbrev pub slash : ℕ
slash = b'/'

abbrev pub is_digit : ℕ → Bool
is_digit c = leb b'0' c && leb c b'9'
