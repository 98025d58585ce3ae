-- ===== src/Admin/Examples.antt =====
-- A broker with one configured target that is not frozen.
use userfreezer.Prelude.{ℕ, ◌≡◌, refl, Bool, true, false, none, some, [], ◌∷◌, arith}
use userfreezer.Prelude.Text.{Text, codes, ◌==◌}
use userfreezer.Prelude.Dict.{Dict, lookup}
use userfreezer.Core.Outcome.{ok}
use userfreezer.Core.Instance.{nothing}
use userfreezer.Core.Lifecycle.{completed}
use userfreezer.Admin.Broker.{Broker, discard, commit, Surroundings, prepared, run_core, process}
use userfreezer.Admin.Confirmed.{Permitted, process-Permitted}
use userfreezer.Admin.Prepared.{preparation, confirmation, prepare-confirm}

abbrev root : Text
root = codes "/t"

abbrev peer : Text
peer = codes "uid=0 pid=7"

abbrev targets : Dict Bool
targets = (root, false) ∷ []

abbrev broker : Broker
broker = record { pending = []; disk = λ t. record { overlay = nothing; discard_marker = false } }

abbrev at_time : ℕ → Surroundings
at_time n = record {
  now = n;
  token = codes "nonce";
  opening = record { acquired = true; removal = completed; legacy_lock = none };
  rows = [];
  frozen_at = codes "2024";
  committed = ok tt;
  marked = ok tt;
  placed = ok tt;
  removal = completed;
}

configured_root : lookup root targets ≡ some false
unfolding lookup ◌==◌
configured_root = refl

process-Permitted_example :
    Permitted true peer
      (confirmation root discard (codes "nonce"))
      5
      broker
      (process true peer targets (confirmation root discard (codes "nonce")) (at_time 5) broker)
process-Permitted_example =
    process-Permitted true peer targets (confirmation root discard (codes "nonce")) (at_time 5)
      broker refl

prepare-confirm_example :
    let (r, t) = process true peer targets (preparation root commit) (at_time 5) broker in
    (r ≡ ok (prepared (codes "nonce")))
    × ((process true peer targets (confirmation root commit (codes "nonce")) (at_time 34) t).0
        ≡ (run_core commit root false (at_time 34) (broker.disk root)).0)
prepare-confirm_example =
    prepare-confirm peer root commit targets false (at_time 5) (at_time 34) broker refl
      configured_root (omega arith) (omega arith)
