-- ===== src/Ledger/Examples.antt =====
-- A ledger of one operation, with constant functions for `json.dumps` and `_parse_intent`.
use userfreezer.Prelude.{suc, ◌≡◌, refl, none, some, List, [], ◌∷◌}
use userfreezer.Prelude.Text.{Text, codes, ◌==◌}
use userfreezer.Prelude.Json.{Json}
use userfreezer.Core.Outcome.{Result, ok}
use userfreezer.Ledger.Files.{started, read_optional, has_file, marker, is_orphaned}
use userfreezer.Ledger.Inspect.{
  Intent, uncertain, Report, inspect, inspect_step, inspect_steps, conclude,
}
use userfreezer.Ledger.Execute.{Effect, happens, raises, World, pending, execute, execute_steps}
use userfreezer.Ledger.Reached.{fresh_store}
use userfreezer.Ledger.Safety.{Tells, inspect-execute}
use userfreezer.Ledger.Liveness.{happen, report_after, inspect-happen}
use userfreezer.Ledger.Blocking.{execute-blocked}

abbrev dumps : Json → Text
dumps j = codes "{}"

abbrev digest : Text
digest = codes "d1"

abbrev plan : Text
plan = codes "plan"

abbrev man : Intent
man = record { total = 1; digest = digest }

abbrev parse : Text → Result Intent
parse raw = ok man

-- The operation raises after STARTED.
abbrev torn_run : List Effect
torn_run = happens ∷ (happens ∷ (raises none ∷ []))

abbrev torn_report : Report
torn_report = record { state = uncertain; completed = 0; total = 1; uncertain_index = some 0 }

torn_inspected :
    inspect dumps parse (execute dumps digest plan 1 torn_run fresh_store).1.files ≡ ok torn_report
unfolding inspect inspect_step inspect_steps conclude execute execute_steps read_optional has_file
    marker is_orphaned ◌==◌
torn_inspected = refl

inspect-execute_example :
    Tells torn_report (execute dumps digest plan 1 torn_run fresh_store).1.begun 1
inspect-execute_example =
    inspect-execute dumps parse digest plan 1 man refl refl torn_run torn_report torn_inspected

inspect-happen_example :
    inspect dumps parse (execute dumps digest plan 1 (happen (suc 2)) fresh_store).1.files
    ≡ ok (report_after dumps digest plan 1 2)
inspect-happen_example = inspect-happen dumps digest plan 1 parse 2 refl

-- A store with a STARTED file whose INTENT was removed.
abbrev orphaned : World
orphaned = record { files = (started 0, plan) ∷ []; begun = 0 }

execute-blocked_example : execute dumps digest plan 1 torn_run orphaned ≡ (pending, orphaned)
execute-blocked_example =
    execute-blocked dumps digest plan 1 torn_run orphaned (started 0, plan) [] refl
