-- ===== src/Admin/Wire/Examples.antt =====
-- Two bytes in four parts, and one byte of the next message.
use userfreezer.Prelude.{◌≡◌, refl, List, [], ◌∷◌, arith}
use userfreezer.Prelude.Text.{Text}
use userfreezer.Core.Outcome.{ok}
use userfreezer.Admin.Wire.{pack, wire_send, wire_receive}
use userfreezer.Admin.Wire.RoundTrip.{flatten, wire_receive-send}

abbrev parts : List Text
parts = (0 ∷ (0 ∷ [])) ∷ ((0 ∷ (2 ∷ (123 ∷ []))) ∷ ((125 ∷ (9 ∷ [])) ∷ []))

sent : wire_send (123 ∷ (125 ∷ [])) ≡ ok (0 ∷ (0 ∷ (0 ∷ (2 ∷ (123 ∷ (125 ∷ []))))))
unfolding wire_send pack
sent = refl

wire_receive-send_example :
    (others : List Text) × (wire_receive parts ≡ ok (123 ∷ (125 ∷ []), others))
    × (flatten others ≡ 9 ∷ [])
wire_receive-send_example =
    wire_receive-send (123 ∷ (125 ∷ [])) (0 ∷ (0 ∷ (0 ∷ (2 ∷ (123 ∷ (125 ∷ [])))))) (9 ∷ []) parts
      (omega arith) sent tt refl
