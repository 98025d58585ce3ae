-- ===== src/Admin/Wire/RoundTrip.antt =====
-- A message that is sent is received, however the socket cuts it into parts.
use mathlib.Core.List.{append_assoc}
use userfreezer.Prelude.{
  ℕ, zero, suc, ◌-◌, ◌≤◌, ◌<◌, ◌≡◌, refl, sym, ap, List, [], ◌∷◌, ◌++◌, ltb, leb, nat_eq, length,
  length-append, ltb-false_of_le, arith, Bool-cases, inl, inr,
}
use userfreezer.Prelude.Text.{Text}
use userfreezer.Core.Outcome.{Result, ok, ok-injective, passed_guard, protocol_error}
use userfreezer.Admin.Wire.{
  pack, unpack, wire_send, take_bytes, drop_bytes, exact, wire_receive, max_bytes,
}

-- All bytes of the parts, in order.
abbrev pub flatten : List Text → Text
flatten [] = []
flatten (p ∷ ps) = p ++ flatten ps

-- No part is empty: the connection is open to the end of the parts.
abbrev pub IsOpen : List Text → Type 0
IsOpen [] = Unit
IsOpen ([] ∷ ps) = ⊥
IsOpen ((c ∷ p) ∷ ps) = IsOpen ps

unpack-pack : (n : ℕ) → unpack (pack n) ≡ n
unfolding unpack pack
unpack-pack n = omega arith

length-pack : (n : ℕ) → length (pack n) ≡ 4
unfolding pack
length-pack n = refl

-- The two texts that a sum of lengths cuts.
split-part :
    (p wanted rest more : Text)
    → length p ≤ length wanted
    → p ++ more ≡ wanted ++ rest
    → (w : Text) × (wanted ≡ p ++ w) × (more ≡ w ++ rest)
split-part [] wanted rest more l e = (wanted, refl, e)
split-part (c ∷ p) [] rest more l e = absurd (omega (arith, l))
split-part (c ∷ p) (d ∷ wanted) rest more l e =
    let heads : c ≡ d = cc e in
    let tails : p ++ more ≡ wanted ++ rest = cc e in
    let (w, f, g) = split-part p wanted rest more (omega (arith, l)) tails in
    (w, ground (arith, heads, f), g)

cut-part :
    (wanted p rest more : Text)
    → length wanted ≤ length p
    → p ++ more ≡ wanted ++ rest
    → (take_bytes (length wanted) p ≡ wanted) × (drop_bytes (length wanted) p ++ more ≡ rest)
cut-part [] p rest more l e = (refl, e)
cut-part (d ∷ wanted) [] rest more l e = absurd (omega (arith, l))
cut-part (d ∷ wanted) (c ∷ p) rest more l e =
    let heads : c ≡ d = cc e in
    let tails : p ++ more ≡ wanted ++ rest = cc e in
    let (f, g) = cut-part wanted p rest more (omega (arith, l)) tails in
    (ground (arith, heads, f), g)

nil-of_length : (w : Text) → length w ≡ 0 → w ≡ []
nil-of_length [] e = refl
nil-of_length (c ∷ w) e = absurd (omega (arith, e))

length-drop_bytes : (n : ℕ) (p : Text) → length (drop_bytes n p) ≡ length p - n
length-drop_bytes zero p = omega arith
length-drop_bytes (suc n) [] = omega arith
length-drop_bytes (suc n) (c ∷ p) = omega (arith, length-drop_bytes n p)

IsOpen-part : (p : Text) (parts : List Text) → 0 < length p → IsOpen parts → IsOpen (p ∷ parts)
IsOpen-part [] parts l o = absurd (omega (arith, l))
IsOpen-part (c ∷ p) parts l o = o

-- The first parts hold the bytes that are wanted, and the others the rest.
pub record IsSplit (parts : List Text) (size : ℕ) (wanted rest : Text) : Type 0 where
  pub others : List Text
  pub read : exact size parts ≡ ok (wanted, others)
  pub left : flatten others ≡ rest
  pub live : IsOpen others

abbrev got : List Text → Text → Result (Text × List Text)
got others read = ok (read, others)

exact-nothing :
    (parts : List Text) (size : ℕ) (wanted rest : Text)
    → IsOpen parts
    → size ≡ 0
    → size ≡ length wanted
    → flatten parts ≡ wanted ++ rest
    → IsSplit parts size wanted rest
unfolding exact
exact-nothing [] size wanted rest o z s e =
    let none : wanted ≡ [] = nil-of_length wanted (omega arith) in
    rw (none, z) (record { others = []; read = refl; left = rw none at e; live = tt })
exact-nothing ([] ∷ parts) size wanted rest o z s e = absurd o
exact-nothing ((c ∷ part) ∷ parts) size wanted rest o z s e =
    let none : wanted ≡ [] = nil-of_length wanted (omega arith) in
    rw (none, z)
      (record { others = (c ∷ part) ∷ parts; read = refl; left = rw none at e; live = o })

exact-IsSplit :
    (parts : List Text) (size : ℕ) (wanted rest : Text)
    → IsOpen parts
    → size ≡ length wanted
    → flatten parts ≡ wanted ++ rest
    → IsSplit parts size wanted rest
unfolding exact
exact-IsSplit [] size [] rest o s e = exact-nothing [] size [] rest o s s e
exact-IsSplit [] size (x ∷ wanted) rest o s e = cc e
exact-IsSplit ([] ∷ parts) size wanted rest o s e = absurd o
exact-IsSplit ((c ∷ part) ∷ parts) size wanted rest o s e = elim (Bool-cases (nat_eq size 0)) [
  | inl z ↦ exact-nothing ((c ∷ part) ∷ parts) size wanted rest o (ground arith) s e
  | inr z ↦ elim (Bool-cases (leb (length (c ∷ part)) size)) [
    | inl l ↦
        let (w, f, g) = split-part (c ∷ part) wanted rest (flatten parts) (ground arith) e in
        let less : size - length (c ∷ part) ≡ length w =
          omega (arith, s, ap (λ (t : Text). length t) f, length-append (c ∷ part) w) in
        let ih = exact-IsSplit parts (size - length (c ∷ part)) w rest o less g in
        record {
          others = ih.others;
          read = rw (z, l, ih.read) (ap (got ih.others) (sym f));
          left = ih.left;
          live = ih.live;
        }
    | inr l ↦
        let (f, g) = cut-part wanted (c ∷ part) rest (flatten parts) (ground arith) e in
        let taken : take_bytes size (c ∷ part) ≡ wanted = rw s f in
        let left : drop_bytes size (c ∷ part) ++ flatten parts ≡ rest = rw s g in
        record {
          others = drop_bytes size (c ∷ part) ∷ parts;
          read = rw (z, l) (ap (got (drop_bytes size (c ∷ part) ∷ parts)) taken);
          left = left;
          live =
              IsOpen-part (drop_bytes size (c ∷ part)) parts
                (ground (arith, length-drop_bytes size (c ∷ part))) o;
        }
  ]
]

-- A message of 1 to 16384 bytes that has been sent is received whole, into however many parts the
-- socket cuts it and what follows, if no part is empty; and what follows stays in the socket.
pub wire_receive-send :
    (raw sent after : Text) (parts : List Text)
    → 0 < length raw
    → wire_send raw ≡ ok sent
    → IsOpen parts
    → flatten parts ≡ sent ++ after
    → (others : List Text) × (wire_receive parts ≡ ok (raw, others)) × (flatten others ≡ after)
unfolding wire_send wire_receive
wire_receive-send raw sent after parts filled h o e =
    let (small, same) = passed_guard protocol_error (ltb max_bytes (length raw)) _ h in
    let framed =
      rw
        (
          ← ok-injective (pack (length raw) ++ raw) sent same,
          append_assoc (pack (length raw)) raw after,
        )
        at e in
    let head =
      exact-IsSplit parts 4 (pack (length raw)) (raw ++ after) o (sym (length-pack (length raw)))
        framed in
    let body = exact-IsSplit head.others (length raw) raw after head.live refl head.left in
    (
      body.others,
      rw
          (
            head.read,
            unpack-pack (length raw),
            small,
            ltb-false_of_le (length raw) 1 (omega (arith, filled)),
            body.read,
          )
          refl,
      body.left,
    )
