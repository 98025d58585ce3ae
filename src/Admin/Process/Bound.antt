-- ===== src/Admin/Process/Bound.antt =====
-- admin_ipc.py: the number of nonces that the broker keeps, over all messages.
use userfreezer.Prelude.{
  ◌+◌, ◌≤◌, Bool, true, false, not, ◌&&◌, Option, none, some, length, map, arith, Bool-cases, inl,
  inr, if◌then◌else◌,
}
use userfreezer.Prelude.Text.{Text, codes}
use userfreezer.Prelude.Dict.{Dict, lookup, erase}
use userfreezer.Prelude.Json.{Json, text_of}
use userfreezer.Core.Outcome.{Result, ok, err, protocol_error}
use userfreezer.Windows.Uwf.{Lab, Snapshot, Status, inspect_uwf, stage_uwf_lab, Staging}
use userfreezer.Admin.Broker.{Broker, Action, Surroundings, Reply, live, is_live, process}
use userfreezer.Admin.Nonces.{length-keep_if, length-erase, length-insert}
use userfreezer.Admin.Bound.{process-bound}
use userfreezer.Admin.Decode.{
  UwfAction, uwf_status, uwf_prepare, uwf_stage, Command, status, core, filter, Message, Configured,
  decode_message,
}
use userfreezer.Admin.Process.{
  Outcome, prepare_stage, stage_matches, confirm_stage, staged_as, uwf_on, uwf_checked, volumes_of,
  uwf_action, needs_admin, request_of, flag_of, handled_as, on_targets, Setting, dispatch,
  process_decoded, process_raw, unchanged,
}

abbrev IsBounded : Outcome → Type 0
IsBounded o = length o.broker.pending ≤ 128

module _ (identity : Text) (env : Surroundings) (lab : Lab) (b : Broker)
    (few : length b.pending ≤ 128) where
  prepare_stage-IsBounded :
      (target persistent : Text) (r : Result (Snapshot × Status))
      → IsBounded (prepare_stage identity target persistent env b r)
  prepare_stage-IsBounded target persistent (err e) = few
  prepare_stage-IsBounded target persistent (ok (s, st)) = ground (
    arith,
    few,
    length-keep_if (is_live env.now) b.pending,
    length-insert env.token
        (record {
          peer = identity;
          operation = codes "uwf-stage";
          target = target;
          persistent = some persistent;
          expires = env.now + 30;
        })
        (live env.now b.pending),
  )

  staged_as-IsBounded :
      (rest : Broker) (r : Staging) → length rest.pending ≤ 128 → IsBounded (staged_as rest r)
  staged_as-IsBounded rest (ok u, calls) h = h
  staged_as-IsBounded rest (err e, calls) h = h

  confirm_stage-IsBounded :
      (enabled : Bool) (target persistent : Text) (given : Option Text)
      → IsBounded (confirm_stage enabled identity target persistent given env lab b)
  confirm_stage-IsBounded enabled target persistent none = few
  confirm_stage-IsBounded enabled target persistent (some token) =
      let fewer : length (erase token b.pending) ≤ 128 =
        omega (arith, few, length-erase token b.pending) in
      let rest : Broker = record b { pending = erase token b.pending } in
      elim (Bool-cases
        (stage_matches identity target persistent env.now (lookup token b.pending))) [
          | inl e ↦ elim (Bool-cases enabled) [
            | inl on ↦
                rw (e, on)
                  (staged_as-IsBounded rest (stage_uwf_lab true lab target persistent) fewer)
            | inr off ↦ rw (e, off) fewer
          ]
          | inr e ↦ rw e fewer
        ]

  uwf_on-IsBounded :
      (enabled : Bool) (act : UwfAction) (confirm : Option Json) (target persistent : Text)
      → IsBounded (uwf_on enabled identity act confirm target persistent env lab b)
  uwf_on-IsBounded enabled uwf_status confirm target persistent = few
  uwf_on-IsBounded true uwf_prepare confirm target persistent =
      prepare_stage-IsBounded target persistent
        (inspect_uwf lab.machine lab.before target persistent)
  uwf_on-IsBounded false uwf_prepare confirm target persistent = few
  uwf_on-IsBounded enabled uwf_stage confirm target persistent =
      confirm_stage-IsBounded enabled target persistent (text_of confirm)

  uwf_checked-IsBounded :
      (enabled : Bool) (act : UwfAction) (confirm : Option Json) (r : Result (Text × Text))
      → IsBounded (uwf_checked enabled identity act confirm env lab b r)
  uwf_checked-IsBounded enabled act confirm (err e) = few
  uwf_checked-IsBounded enabled act confirm (ok (target, persistent)) =
      uwf_on-IsBounded enabled act confirm target persistent

  uwf_action-IsBounded :
      (enabled : Bool) (act : UwfAction) (m : Message)
      → IsBounded (uwf_action enabled identity act m env lab b)
  unfolding uwf_action
  uwf_action-IsBounded enabled act m =
      let r = volumes_of (text_of m.target) (text_of m.operation) in
      elim lab.machine.is_windows
        as (λ x. IsBounded (
          if x
          then uwf_checked enabled identity act m.confirm env lab b r
          else unchanged (err protocol_error) b)) [
            | true ↦ uwf_checked-IsBounded enabled act m.confirm r
            | false ↦ few
          ]

  handled_as-IsBounded :
      (r : Result Reply × Broker) → length r.1.pending ≤ 128 → IsBounded (handled_as r)
  handled_as-IsBounded (ok reply, b') h = h
  handled_as-IsBounded (err e, b') h = h

  on_targets-IsBounded :
      (is_admin : Bool) (act : Action) (m : Message) (targets : Result (Dict Configured))
      → IsBounded (on_targets is_admin identity act m env b targets)
  on_targets-IsBounded is_admin act m (err e) = few
  on_targets-IsBounded is_admin act m (ok targets) =
      handled_as-IsBounded
        (process is_admin identity (map flag_of targets) (request_of act m) env b)
        (process-bound is_admin identity (map flag_of targets) (request_of act m) env b few)

  dispatch-IsBounded :
      (is_admin : Bool) (set : Setting) (m : Message) (c : Command)
      → IsBounded (dispatch is_admin identity set env lab m c b)
  dispatch-IsBounded is_admin set m status = few
  dispatch-IsBounded is_admin set m (core act) = on_targets-IsBounded is_admin act m set.targets
  dispatch-IsBounded is_admin set m (filter act) = uwf_action-IsBounded set.uwf_lab_enabled act m

  process_decoded-IsBounded :
      (is_admin : Bool) (set : Setting) (r : Result Message)
      → IsBounded (process_decoded is_admin identity set env lab b r)
  process_decoded-IsBounded is_admin set (err e) = few
  process_decoded-IsBounded is_admin set (ok m) =
      elim (Bool-cases (needs_admin m.command && not is_admin)) [
        | inl e ↦ rw e few
        | inr e ↦ rw e (dispatch-IsBounded is_admin set m m.command)
      ]

-- A broker that keeps at most 128 nonces keeps at most 128 after any message, of the actions on
-- targets and on the write filter alike, whether it is answered or refused.
pub process_raw-bound :
    (equals_one : Text → Bool) (loads : Text → Option Json) (is_admin : Bool) (identity : Text)
    (set : Setting) (env : Surroundings) (lab : Lab) (raw : Text) (b : Broker)
    → length b.pending ≤ 128
    → length (process_raw equals_one loads is_admin identity set env lab raw b).broker.pending ≤ 128
unfolding process_raw
process_raw-bound equals_one loads is_admin identity set env lab raw b few =
    process_decoded-IsBounded identity env lab b few is_admin set
      (decode_message equals_one loads raw)
