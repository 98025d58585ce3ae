-- ===== src/Core/PayloadId.antt =====
-- deepfreezer.py: the payload IDs of `write`, `"%016d" % n`, and the test of `_load_journal`.
use native.Mathlib.Nat.{pow-suc}
use userfreezer.Prelude.{
  List, ◌||◌, any_of, and-eq-true, ℕ, zero, suc, ◌+◌, ◌-◌, ◌*◌, ◌/◌, ◌%◌, ◌^◌, ◌≤◌, ◌<◌, ◌≡◌, refl,
  ◌∙◌, ap, Bool, true, false, not, ◌&&◌, [], ◌∷◌, ◌++◌, arith, ltb, leb, length, all_of,
  if◌then◌else◌, inl, inr, Bool-cases, lt→ltb,
}
use userfreezer.Prelude.Text.{Text, ◌==◌, is_digit}

-- The decimal digits of n before `acc`. The fuel `suc n` is enough: `digits-enough`.
pub digits : ℕ → ℕ → Text → Text
digits zero n acc = acc
digits (suc fuel) n acc =
    let more = digits fuel (n / 10) ((b'0' + n % 10) ∷ acc) in
    if ltb n 10 then (b'0' + n) ∷ acc else more

abbrev pub zeros : ℕ → Text
zeros zero = []
zeros (suc n) = b'0' ∷ zeros n

-- `"%016d" % n`
unfoldable pub payload_id : ℕ → Text
unfolding digits
payload_id n = let ds = digits (suc n) n [] in zeros (16 - length ds) ++ ds

-- `src.isdigit() and len(src) <= 32`
-- The characters beyond ASCII for which `str.isdigit` is true, first and last of each run (Unicode 14)
abbrev digit_runs : List (ℕ × ℕ)
digit_runs =
    (178, 179)
    ∷ (185, 185)
    ∷ (1632, 1641)
    ∷ (1776, 1785)
    ∷ (1984, 1993)
    ∷ (2406, 2415)
    ∷ (2534, 2543)
    ∷ (2662, 2671)
    ∷ (2790, 2799)
    ∷ (2918, 2927)
    ∷ (3046, 3055)
    ∷ (3174, 3183)
    ∷ (3302, 3311)
    ∷ (3430, 3439)
    ∷ (3558, 3567)
    ∷ (3664, 3673)
    ∷ (3792, 3801)
    ∷ (3872, 3881)
    ∷ (4160, 4169)
    ∷ (4240, 4249)
    ∷ (4969, 4977)
    ∷ (6112, 6121)
    ∷ (6160, 6169)
    ∷ (6470, 6479)
    ∷ (6608, 6618)
    ∷ (6784, 6793)
    ∷ (6800, 6809)
    ∷ (6992, 7001)
    ∷ (7088, 7097)
    ∷ (7232, 7241)
    ∷ (7248, 7257)
    ∷ (8304, 8304)
    ∷ (8308, 8313)
    ∷ (8320, 8329)
    ∷ (9312, 9320)
    ∷ (9332, 9340)
    ∷ (9352, 9360)
    ∷ (9450, 9450)
    ∷ (9461, 9469)
    ∷ (9471, 9471)
    ∷ (10102, 10110)
    ∷ (10112, 10120)
    ∷ (10122, 10130)
    ∷ (42528, 42537)
    ∷ (43216, 43225)
    ∷ (43264, 43273)
    ∷ (43472, 43481)
    ∷ (43504, 43513)
    ∷ (43600, 43609)
    ∷ (44016, 44025)
    ∷ (65296, 65305)
    ∷ (66720, 66729)
    ∷ (68160, 68163)
    ∷ (68912, 68921)
    ∷ (69216, 69224)
    ∷ (69714, 69722)
    ∷ (69734, 69743)
    ∷ (69872, 69881)
    ∷ (69942, 69951)
    ∷ (70096, 70105)
    ∷ (70384, 70393)
    ∷ (70736, 70745)
    ∷ (70864, 70873)
    ∷ (71248, 71257)
    ∷ (71360, 71369)
    ∷ (71472, 71481)
    ∷ (71904, 71913)
    ∷ (72016, 72025)
    ∷ (72784, 72793)
    ∷ (73040, 73049)
    ∷ (73120, 73129)
    ∷ (92768, 92777)
    ∷ (92864, 92873)
    ∷ (93008, 93017)
    ∷ (120782, 120831)
    ∷ (123200, 123209)
    ∷ (123632, 123641)
    ∷ (125264, 125273)
    ∷ (127232, 127242)
    ∷ (130032, 130041)
    ∷ []

-- `str.isdigit` of one character
unfoldable pub is_decimal : ℕ → Bool
is_decimal c = is_digit c || any_of (λ r. leb r.0 c && leb c r.1) digit_runs

unfoldable pub valid_id : Text → Bool
valid_id src = not (src == []) && all_of is_decimal src && leb (length src) 32

value : ℕ → Text → ℕ
value acc [] = acc
value acc (c ∷ cs) = value (acc * 10 + (c - b'0')) cs

-- The number can be read back from its digits.
value-digits : (fuel n : ℕ) (acc : Text) → n < fuel → value 0 (digits fuel n acc) ≡ value n acc
unfolding value digits
value-digits zero n acc h = absurd (omega arith)
value-digits (suc fuel) n acc h = elim (Bool-cases (ltb n 10)) [
  | inl e ↦ rw e (ap (λ (k : ℕ). value k acc) (omega arith))
  | inr e ↦
      rw (e, value-digits fuel (n / 10) ((b'0' + n % 10) ∷ acc) (ground arith))
        (ap (λ (k : ℕ). value k acc) (omega arith))
]

value-zeros : (k : ℕ) (s : Text) → value 0 (zeros k ++ s) ≡ value 0 s
unfolding value
value-zeros zero s = refl
value-zeros (suc k) s = value-zeros k s

value-payload_id : (n : ℕ) → value 0 (payload_id n) ≡ n
unfolding payload_id value
value-payload_id n =
    value-zeros (16 - length (digits (suc n) n [])) (digits (suc n) n [])
    ∙ value-digits (suc n) n [] (omega arith)

-- Two sequence numbers with the same payload ID are equal, so no two writes of an instance share a
-- payload file.
pub payload_id-injective : (n m : ℕ) → payload_id n ≡ payload_id m → n ≡ m
payload_id-injective n m e = omega (arith, value-payload_id n, value-payload_id m, ap (value 0) e)

all_of-digits :
    (fuel n : ℕ) (acc : Text)
    → n < fuel
    → all_of is_digit acc ≡ true
    → all_of is_digit (digits fuel n acc) ≡ true
unfolding digits
all_of-digits zero n acc h e = e
all_of-digits (suc fuel) n acc h e = elim (Bool-cases (ltb n 10)) [
  | inl t ↦ rw t (ground (arith, t))
  | inr t ↦
      rw t (all_of-digits fuel (n / 10) ((b'0' + n % 10) ∷ acc) (ground (arith, t)) (ground arith))
]

length-digits :
    (k fuel n : ℕ) (acc : Text)
    → n < fuel
    → n < 10 ^ suc k
    → length (digits fuel n acc) ≤ suc k + length acc
unfolding digits
length-digits k zero n acc h l = absurd (omega arith)
length-digits zero (suc fuel) n acc h l = rw (lt→ltb n 10 l) (omega arith)
length-digits (suc k) (suc fuel) n acc h l = elim (Bool-cases (ltb n 10)) [
  | inl t ↦ rw t (omega arith)
  | inr t ↦ rw t (
      omega (
        arith,
        length-digits k fuel (n / 10) ((b'0' + n % 10) ∷ acc) (ground (arith, t))
            (omega (arith, pow-suc 10 (suc k))),
      ))
]

digits-ne-nil : (fuel n : ℕ) (acc : Text) → 0 < length (digits (suc fuel) n acc)
unfolding digits
digits-ne-nil zero n acc = ground arith
digits-ne-nil (suc fuel) n acc = ground (arith, digits-ne-nil fuel (n / 10) ((b'0' + n % 10) ∷ acc))

zeros_digits : (k : ℕ) (s : Text) → all_of is_digit s ≡ true → all_of is_digit (zeros k ++ s) ≡ true
zeros_digits zero s h = h
zeros_digits (suc k) s h = zeros_digits k s h

length-zeros : (k : ℕ) (s : Text) → length (zeros k ++ s) ≡ k + length s
length-zeros zero s = omega arith
length-zeros (suc k) s = omega (arith, length-zeros k s)

digits_decimal : (s : Text) → all_of is_digit s ≡ true → all_of is_decimal s ≡ true
unfolding is_decimal
digits_decimal [] h = refl
digits_decimal (c ∷ s) h = let (d, ds) = and-eq-true (is_digit c) _ h in rw d (digits_decimal s ds)

not_nil : (s : Text) → 0 < length s → (s == []) ≡ false
unfolding ◌==◌
not_nil [] h = absurd (omega arith)
not_nil (c ∷ s) h = refl

le→leb : (a b : ℕ) → a ≤ b → leb a b ≡ true
le→leb a b h = ground arith

valid_padded :
    (s : Text)
    → 0 < length s
    → all_of is_digit s ≡ true
    → length s ≤ 32
    → valid_id (zeros (16 - length s) ++ s) ≡ true
unfolding valid_id
valid_padded s h e l =
    let long = length-zeros (16 - length s) s in
    rw (
      not_nil (zeros (16 - length s) ++ s) (omega arith),
      digits_decimal (zeros (16 - length s) ++ s) (zeros_digits (16 - length s) s e),
      le→leb (length (zeros (16 - length s) ++ s)) 32 (omega arith),
    )

-- The loader accepts every payload ID that `write` makes for a sequence below 10^32.
pub valid_id-payload_id : (n : ℕ) → n < 10 ^ 32 → valid_id (payload_id n) ≡ true
unfolding valid_id payload_id
valid_id-payload_id n h =
    valid_padded (digits (suc n) n []) (digits-ne-nil n n [])
      (all_of-digits (suc n) n [] (omega arith) refl)
      (omega (arith, length-digits 31 (suc n) n [] (omega arith) h))
