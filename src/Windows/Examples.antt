-- ===== src/Windows/Examples.antt =====
-- A machine with nothing configured, which is staged.
use userfreezer.Prelude.{true, false, [], ◌∷◌}
use userfreezer.Prelude.Text.{codes}
use userfreezer.Core.Outcome.{ok}
use userfreezer.Windows.Uwf.{Machine, Provider, Lab, stage_uwf_lab}
use userfreezer.Windows.Uwf.Staged.{Safe, stage_uwf_lab-Safe}

abbrev machine : Machine
machine = record {
  is_windows = true;
  build = 19045;
  edition = codes "Enterprise";
  system_drive = codes "C:";
  drive_type = 3;
  filesystem = codes "NTFS";
}

abbrev before : Provider
before = record {
  filters = record { current_enabled = false; next_enabled = false } ∷ [];
  volumes = [];
}

abbrev after : Provider
after = record {
  filters = record { current_enabled = false; next_enabled = true } ∷ [];
  volumes = record { drive = codes "C:"; current = false; protected = true } ∷ [];
}

abbrev lab : Lab
lab = record {
  machine = machine;
  before = before;
  binary = ok (codes "uwfmgr.exe");
  protects = true;
  enables = true;
  after = after;
}

stage_uwf_lab-Safe_example :
    Safe lab (codes "C:") (codes "D:") true (stage_uwf_lab true lab (codes "C:") (codes "D:"))
stage_uwf_lab-Safe_example = stage_uwf_lab-Safe true lab (codes "C:") (codes "D:")
