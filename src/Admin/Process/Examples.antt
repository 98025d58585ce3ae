-- ===== src/Admin/Process/Examples.antt =====
-- A message that stages the volumes of a nonce.
use userfreezer.Prelude.{◌≤◌, length, arith, Bool, true, false, Option, none, some, [], ◌∷◌}
use userfreezer.Prelude.Text.{Text, codes}
use userfreezer.Prelude.Json.{Json, num, str, obj, field, end}
use userfreezer.Core.Outcome.{ok}
use userfreezer.Core.Instance.{nothing}
use userfreezer.Core.Lifecycle.{completed}
use userfreezer.Windows.Uwf.{Machine, Provider, Lab}
use userfreezer.Admin.Broker.{Broker, Surroundings}
use userfreezer.Admin.Process.{Setting, process_raw}
use userfreezer.Admin.Process.Bound.{process_raw-bound}
use userfreezer.Admin.Process.Guarded.{Sanctioned, process_raw-Sanctioned}

abbrev peer : Text
peer = codes "admin"

abbrev broker : Broker
broker = record {
  pending =
      (
        codes "nonce",
        record {
          peer = peer;
          operation = codes "uwf-stage";
          target = codes "C:";
          persistent = some (codes "D:");
          expires = 30;
        },
      )
      ∷ [];
  disk = λ t. record { overlay = nothing; discard_marker = false };
}

abbrev message : Json
message = obj (
    field (codes "v") (num 1) (
      field (codes "id") (str (codes "00000000-0000-4000-8000-000000000000")) (
        field (codes "action") (str (codes "uwf-stage")) (
          field (codes "target") (str (codes "C:")) (
            field (codes "operation") (str (codes "D:"))
              (field (codes "confirm") (str (codes "nonce")) end))))))

abbrev loads : Text → Option Json
loads raw = some message

abbrev never : Text → Bool
never t = false

abbrev machine : Machine
machine = record {
  is_windows = true;
  build = 19045;
  edition = codes "Enterprise";
  system_drive = codes "C:";
  drive_type = 3;
  filesystem = codes "NTFS";
}

abbrev provider : Provider
provider = record {
  filters = record { current_enabled = false; next_enabled = false } ∷ [];
  volumes = [];
}

abbrev lab : Lab
lab = record {
  machine = machine;
  before = provider;
  binary = ok (codes "uwfmgr.exe");
  protects = true;
  enables = true;
  after = provider;
}

abbrev setting : Setting
setting = record { uwf_lab_enabled = true; targets = ok []; report = ok tt }

abbrev around : Surroundings
around = record {
  now = 5;
  token = codes "next";
  opening = record { acquired = true; removal = completed; legacy_lock = none };
  rows = [];
  frozen_at = codes "2024";
  committed = ok tt;
  marked = ok tt;
  placed = ok tt;
  removal = completed;
}

process_raw-Sanctioned_example :
    Sanctioned true true peer 5 broker
      (process_raw never loads true peer setting around lab (codes "{}") broker)
process_raw-Sanctioned_example =
    process_raw-Sanctioned never loads true peer setting around lab (codes "{}") broker

process_raw-bound_example :
    length (process_raw never loads true peer setting around lab (codes "{}") broker).broker.pending
    ≤ 128
process_raw-bound_example =
    process_raw-bound never loads true peer setting around lab (codes "{}") broker (omega arith)
