-- ===== src/Admin/Process.antt =====
-- admin_ipc.py: `Broker.process` from the bytes of a message on, with the actions on the Unified Write
-- Filter. The answer to "status" is not modelled: it reads files and changes nothing.
pub mod Guarded
pub mod Bound
mod Examples
use userfreezer.Prelude.{
  ℕ, ◌+◌, Bool, true, false, not, ◌&&◌, Option, none, some, List, [], ◌∷◌, if◌then◌else◌, ltb, leb,
  length, map,
}
use userfreezer.Prelude.Text.{Text, codes, ◌==◌}
use userfreezer.Prelude.Dict.{Dict, lookup, insert, erase}
use userfreezer.Prelude.Json.{Json, text_of}
use userfreezer.Core.Outcome.{
  Result, ok, err, Error, value_error, runtime_error, protocol_error, permission_error, ◌>>=◌,
}
use userfreezer.Windows.Uwf.{
  Lab, Snapshot, Status, inspect_uwf, is_configured, validate_volumes, stage_uwf_lab, Staging,
}
use userfreezer.Windows.Uwf
use userfreezer.Admin.Broker.{Nonce, Broker, Action, Request, Surroundings, Reply, live, process}
use userfreezer.Admin.Decode.{
  UwfAction, uwf_status, uwf_prepare, uwf_stage, Command, status, core, filter, Message, Configured,
  decode_message,
}

pub data Answer : Type 0 where
  reported : Answer
  handled : Reply → Answer
  inspected : Snapshot → Status → Answer
  nonce : Text → Answer
  staged : Answer

-- The end of a request: what is answered, the broker, and the calls of uwfmgr.exe.
pub record Outcome : Type 0 where
  pub answer : Result Answer
  pub broker : Broker
  pub calls : List Uwf.Command

abbrev pub unchanged : Result Answer → Broker → Outcome
unchanged r b = record { answer = r; broker = b; calls = [] }

abbrev pub with_pending : Broker → Dict Nonce → Broker
with_pending b pending = record b { pending = pending }

-- "uwf-prepare" after the inspection
abbrev pub prepare_stage :
    Text → Text → Text → Surroundings → Broker → Result (Snapshot × Status) → Outcome
prepare_stage identity target persistent env b (err e) = unchanged (err e) b
prepare_stage identity target persistent env b (ok (s, st)) =
    if is_configured s
    then unchanged (err runtime_error) b
    else (let pending = live env.now b.pending in
        if leb 128 (length pending)
        then unchanged (err protocol_error) (with_pending b pending)
        else unchanged (ok (nonce env.token)) (
            with_pending b (
              insert env.token
                (record {
                  peer = identity;
                  operation = codes "uwf-stage";
                  target = target;
                  persistent = some persistent;
                  expires = env.now + 30;
                })
                pending)))

abbrev pub same_volume : Option Text → Text → Bool
same_volume none persistent = false
same_volume (some p) persistent = p == persistent

abbrev pub stage_matches : Text → Text → Text → ℕ → Option Nonce → Bool
stage_matches identity target persistent now none = false
stage_matches identity target persistent now (some n) =
    n.peer == identity
    && n.operation == codes "uwf-stage"
    && n.target == target
    && same_volume n.persistent persistent
    && ltb now n.expires

abbrev pub staged_as : Broker → Staging → Outcome
staged_as b (ok u, calls) = record { answer = ok staged; broker = b; calls = calls }
staged_as b (err e, calls) = record { answer = err e; broker = b; calls = calls }

-- "uwf-stage", which uses the nonce up
abbrev pub confirm_stage :
    Bool → Text → Text → Text → Option Text → Surroundings → Lab → Broker → Outcome
confirm_stage enabled identity target persistent none env lab b = unchanged (err protocol_error) b
confirm_stage enabled identity target persistent (some token) env lab b =
    let rest = with_pending b (erase token b.pending) in
    if stage_matches identity target persistent env.now (lookup token b.pending)
    then (if enabled
        then staged_as rest (stage_uwf_lab true lab target persistent)
        else unchanged (err permission_error) rest)
    else unchanged (err permission_error) rest

abbrev pub answer_inspected : Result (Snapshot × Status) → Result Answer
answer_inspected (err e) = err e
answer_inspected (ok (s, st)) = ok (inspected s st)

abbrev pub uwf_on :
    Bool → Text → UwfAction → Option Json → Text → Text → Surroundings → Lab → Broker → Outcome
uwf_on enabled identity uwf_status confirm target persistent env lab b =
    unchanged (answer_inspected (inspect_uwf lab.machine lab.before target persistent)) b
uwf_on enabled identity uwf_prepare confirm target persistent env lab b =
    if enabled
    then prepare_stage identity target persistent env b
        (inspect_uwf lab.machine lab.before target persistent)
    else unchanged (err permission_error) b
uwf_on enabled identity uwf_stage confirm target persistent env lab b =
    confirm_stage enabled identity target persistent (text_of confirm) env lab b

-- The volumes of the request, which have to be texts.
abbrev pub volumes_of : Option Text → Option Text → Result (Text × Text)
volumes_of (some target) (some persistent) =
    validate_volumes target persistent >>= λ u. ok (target, persistent)
volumes_of _ _ = err value_error

abbrev pub uwf_checked :
    Bool
    → Text
    → UwfAction
    → Option Json
    → Surroundings
    → Lab
    → Broker
    → Result (Text × Text)
    → Outcome
uwf_checked enabled identity act confirm env lab b (err e) = unchanged (err e) b
uwf_checked enabled identity act confirm env lab b (ok (target, persistent)) =
    uwf_on enabled identity act confirm target persistent env lab b

unfoldable pub uwf_action :
    Bool → Text → UwfAction → Message → Surroundings → Lab → Broker → Outcome
uwf_action enabled identity act m env lab b =
    if lab.machine.is_windows
    then uwf_checked enabled identity act m.confirm env lab b
        (volumes_of (text_of m.target) (text_of m.operation))
    else unchanged (err protocol_error) b

abbrev pub needs_admin : Command → Bool
needs_admin status = false
needs_admin (core act) = true
needs_admin (filter uwf_status) = false
needs_admin (filter act) = true

abbrev pub request_of : Action → Message → Request
request_of act m = record {
  action = act;
  target = m.target;
  confirm = m.confirm;
  operation = m.operation;
}

abbrev pub flag_of : Text × Configured → Text × Bool
flag_of (target, c) = (target, c.verify)

abbrev pub handled_as : Result Reply × Broker → Outcome
handled_as (ok r, b) = unchanged (ok (handled r)) b
handled_as (err e, b) = unchanged (err e) b

abbrev pub on_targets :
    Bool → Text → Action → Message → Surroundings → Broker → Result (Dict Configured) → Outcome
on_targets is_admin identity act m env b (err e) = unchanged (err e) b
on_targets is_admin identity act m env b (ok targets) =
    handled_as (process is_admin identity (map flag_of targets) (request_of act m) env b)

-- The broker's own part: whether the laboratory is enabled, and the configuration that it reads.
pub record Setting : Type 0 where
  pub uwf_lab_enabled : Bool
  pub targets : Result (Dict Configured)
  pub report : Result (Unit {0})

abbrev pub reported_as : Result (Unit {0}) → Result Answer
reported_as (ok u) = ok reported
reported_as (err e) = err e

abbrev pub dispatch :
    Bool → Text → Setting → Surroundings → Lab → Message → Command → Broker → Outcome
dispatch is_admin identity set env lab m status b = unchanged (reported_as set.report) b
dispatch is_admin identity set env lab m (core act) b =
    on_targets is_admin identity act m env b set.targets
dispatch is_admin identity set env lab m (filter act) b =
    uwf_action set.uwf_lab_enabled identity act m env lab b

abbrev pub process_decoded :
    Bool → Text → Setting → Surroundings → Lab → Broker → Result Message → Outcome
process_decoded is_admin identity set env lab b (err e) = unchanged (err e) b
process_decoded is_admin identity set env lab b (ok m) =
    if needs_admin m.command && not is_admin
    then unchanged (err permission_error) b
    else dispatch is_admin identity set env lab m m.command b

-- `process`
unfoldable pub process_raw :
    (Text → Bool)
    → (Text → Option Json)
    → Bool
    → Text
    → Setting
    → Surroundings
    → Lab
    → Text
    → Broker
    → Outcome
process_raw equals_one loads is_admin identity set env lab raw b =
    process_decoded is_admin identity set env lab b (decode_message equals_one loads raw)
