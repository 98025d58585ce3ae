-- ===== src/Ledger/Blocking.antt =====
-- A ledger that is not empty blocks every later run of its root.
use userfreezer.Prelude.{ℕ, ◌≡◌, List, ◌∷◌, arith}
use userfreezer.Prelude.Text.{Text}
use userfreezer.Prelude.Json.{Json}
use userfreezer.Ledger.Files.{Name, Files, is_orphaned}
use userfreezer.Ledger.Execute.{Effect, pending, World, execute}

-- Where any file of the root is left, with or without INTENT and whatever is in it, a new run ends
-- at once as pending: it creates nothing and begins no operation.
pub execute-blocked :
    (dumps : Json → Text) (digest bytes : Text) (total : ℕ) (es : List Effect) (w : World)
    (e : Name × Text) (rest : Files)
    → w.files ≡ e ∷ rest
    → execute dumps digest bytes total es w ≡ (pending, w)
unfolding execute is_orphaned
execute-blocked dumps digest bytes total es w e rest left = ground (arith, left)
