-- ===== src/Core/Types.antt =====
-- deepfreezer.py: the overlay operations and the state of a `DeepFreezer` instance. A number from
-- the journal is a natural.
use userfreezer.Prelude.{ℕ, Bool, true, false}
use userfreezer.Prelude.Text.{Text}
use userfreezer.Prelude.Dict.{Dict}

-- 'W', 'M', 'D', or another string that a damaged journal may hold.
pub data Kind : Type 0 where
  written made deleted : Kind
  unknown : Text → Kind

abbrev pub is_deleted : Kind → Bool
is_deleted Kind.deleted = true
is_deleted _ = false

-- A value of `ops`: (seq, kind, d), with d 0 for a file and 1 for a directory.
pub record Op : Type 0 where
  pub seq : ℕ
  pub kind : Kind
  pub d : ℕ

abbrev pub Ops : Type 0
Ops = Dict Op

-- What `_classify` answers.
pub data View : Type 0 where
  base implicit_dir deleted m_dir new gone : View
