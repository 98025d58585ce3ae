-- ===== src/Nt/Source.antt =====
-- nt_overlay_payload_experimental.py: `_parse_overlay_source`, which says where below the overlay a
-- payload may lie.
use userfreezer.Prelude.{
  ℕ, ◌&&◌, all_of, Bool, not, ◌||◌, List, [], ◌∷◌, any_of, if◌then◌else◌, ltb, length,
}
use userfreezer.Prelude.Text.{Text, codes, ◌==◌, split, slash}
use userfreezer.Core.Outcome.{Result, ok, ◌>>=◌}
use userfreezer.Core.PayloadId.{valid_id}
use userfreezer.Plan.{invalid, validate_all}

abbrev pub is_area : Text → Bool
is_area area = area == codes "payloads" || area == codes "files"

abbrev pub is_ascii : ℕ → Bool
is_ascii c = ltb c 128

abbrev pub is_nil : Text → Bool
is_nil part = part == []

-- `payloads/` holds payload IDs and nothing below them.
abbrev pub fits_area : Text → Text → List Text → Bool
fits_area area ident [] =
    not (area == codes "payloads") || (valid_id ident && all_of is_ascii ident)
fits_area area ident (p ∷ ps) = not (area == codes "payloads")

unfoldable pub source_parts : List Text → Result (List Text)
source_parts (area ∷ (ident ∷ rest)) =
    if not (is_area area) || any_of is_nil (area ∷ (ident ∷ rest))
    then invalid
    else validate_all (area ∷ (ident ∷ rest)) >>= λ parts.
        if fits_area area ident rest then ok parts else invalid
source_parts _ = invalid

unfoldable pub parse_overlay_source : Text → Result (List Text)
parse_overlay_source source =
    if source == [] || ltb 2048 (length source) then invalid else source_parts (split slash source)
