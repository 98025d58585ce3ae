-- ===== src/Admin/Wire.antt =====
-- admin_ipc.py: `wire_send` and `wire_receive`, messages behind their length in four bytes. What the
-- socket delivers is a list of parts, of which `recv` takes at most so many bytes as it is asked for; an
-- empty part, or none, is the end of the connection.
pub mod RoundTrip
mod Examples
use userfreezer.Prelude.{
  ℕ, ◌+◌, ◌-◌, ◌*◌, ◌/◌, ◌%◌, ◌^◌, ◌||◌, true, false, Bool, List, [], ◌∷◌, ◌++◌, if◌then◌else◌, ltb,
  leb, nat_eq, length, zero, suc,
}
use userfreezer.Prelude.Text.{Text}
use userfreezer.Core.Outcome.{Result, ok, err, os_error, protocol_error, ◌>>=◌}

abbrev pub max_bytes : ℕ
max_bytes = 16384

-- `struct.pack("!I", n)` of a number below 2^32
unfoldable pub pack : ℕ → Text
pack n = n / 16777216 ∷ (n / 65536 % 256 ∷ (n / 256 % 256 ∷ (n % 256 ∷ [])))

-- `struct.unpack("!I", raw)`
unfoldable pub unpack : Text → ℕ
unpack (a ∷ (b ∷ (c ∷ (d ∷ [])))) = a * 16777216 + b * 65536 + c * 256 + d
unpack _ = 0

-- The bytes that are sent for a message that has been dumped.
unfoldable pub wire_send : Text → Result Text
wire_send raw =
    if ltb max_bytes (length raw) then err protocol_error else ok (pack (length raw) ++ raw)

abbrev pub take_bytes : ℕ → Text → Text
take_bytes zero s = []
take_bytes (suc n) [] = []
take_bytes (suc n) (c ∷ s) = c ∷ take_bytes n s

abbrev pub drop_bytes : ℕ → Text → Text
drop_bytes zero s = s
drop_bytes (suc n) [] = []
drop_bytes (suc n) (c ∷ s) = drop_bytes n s

-- `buf += part` in front of what the later rounds read
abbrev pub after_part : Text → Result (Text × List Text) → Result (Text × List Text)
after_part part (err e) = err e
after_part part (ok (rest, parts)) = ok (part ++ rest, parts)

-- `exact(size)`, with what remains in the socket
unfoldable pub exact : ℕ → List Text → Result (Text × List Text)
exact size [] = if nat_eq size 0 then ok ([], []) else err os_error
exact size ([] ∷ parts) = if nat_eq size 0 then ok ([], [] ∷ parts) else err os_error
exact size ((c ∷ part) ∷ parts) =
    let more = exact (size - length (c ∷ part)) parts in
    if nat_eq size 0
    then ok ([], (c ∷ part) ∷ parts)
    else if leb (length (c ∷ part)) size
    then after_part (c ∷ part) more
    else ok (take_bytes size (c ∷ part), drop_bytes size (c ∷ part) ∷ parts)

unfoldable pub wire_receive : List Text → Result (Text × List Text)
wire_receive parts = do
  (head, rest) ← exact 4 parts
  let size = unpack head
  if ltb size 1 || ltb max_bytes size then err protocol_error else exact size rest
