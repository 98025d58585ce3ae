-- ===== src/Ledger/Inspect.antt =====
-- nt_commit_checkpoint_experimental.py: `_inspect_open_store`, which reads a ledger and says how far
-- its plan came. `_parse_intent` is a parameter: it answers with the steps and the digest, or raises.
use userfreezer.Prelude.{
  ℕ, zero, suc, ◌+◌, Bool, false, not, ◌&&◌, ◌||◌, Option, none, some, if◌then◌else◌, nat_eq,
}
use userfreezer.Prelude.Text.{Text, codes, ◌==◌}
use userfreezer.Prelude.Json.{Json}
use userfreezer.Core.Outcome.{Result, ok, err, ◌>>=◌, deep_freeze}
use userfreezer.Ledger.Files.{
  intent, complete, started, done, Files, read_optional, is_some, marker,
}

-- What the inspector uses of an intent.
pub record Intent : Type 0 where
  pub total : ℕ
  pub digest : Text

pub data State : Type 0 where
  absent finished uncertain incomplete : State

pub record Report : Type 0 where
  pub state : State
  pub completed : ℕ
  pub total : ℕ
  pub uncertain_index : Option ℕ

-- The variables of the loop.
pub record Progress : Type 0 where
  pub completed : ℕ
  pub active : Option ℕ

abbrev pub tampered : {A : Type 0} → Result A
tampered = err (deep_freeze "checkpoint adulterado ou fora de sequencia")

-- `value is not None and value != expected`
abbrev pub differs : Option Text → Text → Bool
differs none expected = false
differs (some bytes) expected = not (bytes == expected)

-- `active is not None or index != completed`
abbrev pub out_of_order : ℕ → Progress → Bool
out_of_order index p = is_some p.active || not (nat_eq index p.completed)

-- The body of the loop.
unfoldable pub inspect_step : (Json → Text) → Files → Text → ℕ → Progress → Result Progress
inspect_step dumps files digest index p =
    let start = read_optional files (started index) in
    let finish = read_optional files (done index) in
    if differs start (marker dumps index (codes "started") digest)
    then tampered
    else if differs finish (marker dumps index (codes "done") digest)
    then tampered
    else if is_some finish && not (is_some start)
    then tampered
    else if is_some finish
    then (if out_of_order index p then tampered else ok (record p { completed = p.completed + 1 }))
    else if is_some start
    then (if out_of_order index p then tampered else ok (record p { active = some index }))
    else ok p

-- The loop over the steps, of which `left` remain.
unfoldable pub inspect_steps : (Json → Text) → Files → Text → ℕ → ℕ → Progress → Result Progress
inspect_steps dumps files digest index zero p = ok p
inspect_steps dumps files digest index (suc left) p =
    inspect_step dumps files digest index p >>= inspect_steps dumps files digest (suc index) left

abbrev pub is_all : ℕ → Progress → Bool
is_all total p = not (is_some p.active) && nat_eq p.completed total

-- From the reading of COMPLETE on.
unfoldable pub conclude : (Json → Text) → Files → Intent → Progress → Result Report
conclude dumps files man p =
    let last = read_optional files complete in
    if differs last (marker dumps man.total (codes "complete") man.digest)
    then tampered
    else if is_some last && not (is_all man.total p)
    then tampered
    else ok (record {
      state = if is_some last then finished else if is_some p.active then uncertain else incomplete;
      completed = p.completed;
      total = man.total;
      uncertain_index = p.active;
    })

-- From the intent's bytes on.
abbrev pub inspect_intent :
    (Json → Text) → (Text → Result Intent) → Files → Option Text → Result Report
inspect_intent dumps parse files none =
    ok (record { state = absent; completed = 0; total = 0; uncertain_index = none })
inspect_intent dumps parse files (some raw) = do
  man ← parse raw
  p ← inspect_steps dumps files man.digest 0 man.total (record { completed = 0; active = none })
  conclude dumps files man p

unfoldable pub inspect : (Json → Text) → (Text → Result Intent) → Files → Result Report
inspect dumps parse files = inspect_intent dumps parse files (read_optional files intent)
