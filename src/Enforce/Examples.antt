-- ===== src/Enforce/Examples.antt =====
-- One target whose overlay is not there yet.
use userfreezer.Prelude.{Bool, true, false, Option, none, some, List, [], ◌∷◌}
use userfreezer.Prelude.Text.{Text, codes}
use userfreezer.Prelude.Json.{Json, str, obj, field, end}
use userfreezer.Core.Lifecycle.{completed}
use userfreezer.Core.Instance.{nothing}
use userfreezer.Core.Outcome.{ok}
use userfreezer.Enforce.{Site, Disks, place}

abbrev site : Site
site = record {
  target = codes "/t";
  overlay = [];
  is_dir = true;
  opening = record { acquired = true; removal = completed; legacy_lock = none };
  rows = [];
  frozen_at = codes "2024";
  marked = ok tt;
  removal = completed;
  hardened = true;
}

abbrev entry : Json
entry = obj (field (codes "target") (str (codes "/t")) end)

abbrev bare : Disks
bare place = record { overlay = nothing; discard_marker = false }

abbrev nonzero : Text → Bool
nonzero t = true

abbrev config : Option (List (Json × Site))
config = some ((entry, site) ∷ [])
