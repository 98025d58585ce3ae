-- ===== src/Enforce/Fresh.antt =====
-- Where `enforce_all` answers true, every entry's target is frozen with nothing written since.
use userfreezer.Prelude.{◌≡◌, Bool, false, List, [], ◌∷◌}
use userfreezer.Prelude.Text.{Text, codes, ◌==◌}
use userfreezer.Prelude.Json.{Json, obj, get_field}
use userfreezer.Core.Outcome.{Result, ok, err, value_error}
use userfreezer.Enforce.{Site, place, Disks, Row}
use userfreezer.Enforce.Opened.{IsBaseline}

-- The overlay that an entry names, where it has a target.
abbrev pub entry_place : Site → Json → Result Text
entry_place site (obj fs) = place site (get_field (codes "overlay") fs)
entry_place site _ = err value_error

abbrev pub is_good_row : Row → Bool
is_good_row row = row.state == codes "healthy"

module _ (site : Site) (disks : Disks) where
  -- An entry that ends well leaves its overlay frozen anew, and every other as it was.
  pub record IsEnforced (placed : Result Text) (after : Disks) : Type 0 where
    pub overlay : Text
    pub placed_at : placed ≡ ok overlay
    pub here : IsBaseline (after overlay)
    pub there : (other : Text) → (overlay == other) ≡ false → after other ≡ disks other

-- The overlays that the entries name are frozen anew.
abbrev pub AllFresh : List (Json × Site) → Disks → Type 0
AllFresh [] disks = Unit
AllFresh ((entry, site) ∷ entries) disks =
    ((overlay : Text) × (entry_place site entry ≡ ok overlay) × IsBaseline (disks overlay))
    × AllFresh entries disks
