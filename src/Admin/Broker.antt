-- ===== src/Admin/Broker.antt =====
-- admin_ipc.py: `Broker.process` from a decoded request on, for the actions on a configured target:
-- prepare, freeze, discard and commit. Confirmations are nonces that the broker keeps for 30 seconds.
-- The time, the random token and what the system answers to the core are inputs.
use userfreezer.Prelude.{
  ℕ, ◌+◌, Bool, true, false, ◌&&◌, ◌||◌, Option, none, some, List, if◌then◌else◌, ltb, leb, keep_if,
  length,
}
use userfreezer.Prelude.Text.{Text, codes, ◌==◌}
use userfreezer.Prelude.Json.{Json, text_of}
use userfreezer.Prelude.Dict.{Dict, lookup, insert, erase}
use userfreezer.Core.Outcome.{Result, ok, err, deep_freeze, protocol_error, permission_error}
use userfreezer.Core.Instance.{Disk, DeepFreezer}
use userfreezer.Core.Lifecycle.{Opening, open_instance, WalkRow, freeze, thaw, Removal}

-- A value of `_pending`. Of a pair of volumes `persistent` is the second; a path has none.
pub record Nonce : Type 0 where
  pub peer : Text
  pub operation : Text
  pub target : Text
  pub persistent : Option Text
  pub expires : ℕ

-- The broker, with the disks of the configured targets, each with the overlay that is configured.
pub record Broker : Type 0 where
  pub pending : Dict Nonce
  pub disk : Text → Disk

pub data Action : Type 0 where
  prepare freeze_now discard commit : Action

abbrev pub action_name : Action → Text
action_name prepare = codes "prepare"
action_name freeze_now = codes "freeze"
action_name discard = codes "discard"
action_name commit = codes "commit"

-- The keys of a request, beside its version and ID, with `none` for a missing one.
pub record Request : Type 0 where
  pub action : Action
  pub target : Option Json
  pub confirm : Option Json
  pub operation : Option Json

-- What the process is told from outside while it handles a request. `placed` is how the tests of the
-- paths at the start of `DeepFreezer.__init__` end.
pub record Surroundings : Type 0 where
  pub now : ℕ
  pub token : Text
  pub placed : Result (Unit {0})
  pub opening : Opening
  pub rows : List WalkRow
  pub frozen_at : Text
  pub committed : Result (Unit {0})
  pub marked : Result (Unit {0})
  pub removal : Removal

pub data Reply : Type 0 where
  prepared : Text → Reply
  acted : Bool → Reply

-- `self._pending` without what has expired
abbrev pub is_live : ℕ → Text × Nonce → Bool
is_live now (token, n) = ltb now n.expires

abbrev pub live : ℕ → Dict Nonce → Dict Nonce
live now pending = keep_if (is_live now) pending

abbrev pub is_operation : Text → Bool
is_operation op = op == codes "discard" || op == codes "commit"

unfoldable pub prepare_nonce :
    Text → Text → Option Text → Surroundings → Dict Nonce → Result Reply × Dict Nonce
prepare_nonce identity target none env pending = (err protocol_error, pending)
prepare_nonce identity target (some op) env pending =
    if is_operation op
    then (if leb 128 (length pending) then (err protocol_error, pending) else (
      ok (prepared env.token),
      insert env.token
          (record {
            peer = identity;
            operation = op;
            target = target;
            persistent = none;
            expires = env.now + 30;
          })
          pending,
    ))
    else (err protocol_error, pending)

abbrev pub is_none : Option Text → Bool
is_none none = true
is_none (some t) = false

-- `prepared != (identity, obj["action"], target, prepared[3])`, negated
abbrev pub matches : Text → Text → Text → Option Nonce → Bool
matches identity action target none = false
matches identity action target (some n) =
    n.peer == identity && n.operation == action && n.target == target && is_none n.persistent

-- The check of a confirmation, which uses it up.
unfoldable pub confirm_nonce :
    Text → Text → Text → Option Text → Dict Nonce → Result (Unit {0}) × Dict Nonce
confirm_nonce identity action target none pending = (err protocol_error, pending)
confirm_nonce identity action target (some token) pending = (
  (if matches identity action target (lookup token pending) then ok tt else err permission_error),
  erase token pending,
)

abbrev pub needs_frozen :
    Result (Unit {0}) × DeepFreezer → DeepFreezer → Result (Unit {0}) × DeepFreezer
needs_frozen r s = if s.frozen then r else (err (deep_freeze "alvo nao congelado"), s)

abbrev pub done : {A : Type 0} → Result A × DeepFreezer → Result (Unit {0}) × DeepFreezer
done (ok a, s) = (ok tt, s)
done (err e, s) = (err e, s)

-- The call of the core's instance.
abbrev pub act_on : Action → Text → Surroundings → DeepFreezer → Result (Unit {0}) × DeepFreezer
act_on prepare target env s = (ok tt, s)
act_on freeze_now target env s =
    if s.frozen then (ok tt, s) else done (freeze env.rows target env.frozen_at s)
act_on discard target env s = needs_frozen (thaw (ok tt) env.marked env.removal s) s
act_on commit target env s = needs_frozen (thaw env.committed env.marked env.removal s) s

abbrev pub reply_of : Result (Unit {0}) × DeepFreezer → Result Reply
reply_of (ok u, s) = ok (acted s.frozen)
reply_of (err e, s) = err e

-- `with DeepFreezer(...) as df:` and its body
abbrev pub within : Action → Text → Surroundings → Result DeepFreezer × Disk → Result Reply × Disk
within action target env (err e, disk) = (err e, disk)
within action target env (ok s, disk) = let r = act_on action target env s in (reply_of r, r.1.disk)

unfoldable pub run_core : Action → Text → Bool → Surroundings → Disk → Result Reply × Disk
run_core action target verify env disk = elim env.placed [
  | err e ↦ (err e, disk)
  | ok u ↦ within action target env (open_instance env.opening verify disk)
]

abbrev pub set_disk : Text → Disk → (Text → Disk) → Text → Disk
set_disk target disk disks other = if target == other then disk else disks other

abbrev pub run_at : Action → Text → Bool → Surroundings → Broker → Result Reply × Broker
run_at action target verify env b =
    let (r, disk) = run_core action target verify env (b.disk target) in
    (r, record { pending = b.pending; disk = set_disk target disk b.disk })

-- After a check that uses up a confirmation.
abbrev pub run_confirmed :
    Action
    → Text
    → Bool
    → Surroundings
    → Broker
    → Result (Unit {0}) × Dict Nonce
    → Result Reply × Broker
run_confirmed action target verify env b (err e, pending) = (err e, record b { pending = pending })
run_confirmed action target verify env b (ok u, pending) =
    run_at action target verify env (record b { pending = pending })

-- From the configured target on, `pending` without what has expired.
unfoldable pub target_action :
    Text → Action → Request → Text → Bool → Surroundings → Broker → Result Reply × Broker
target_action identity prepare req target verify env b =
    let (r, pending) = prepare_nonce identity target (text_of req.operation) env b.pending in
    (r, record b { pending = pending })
target_action identity freeze_now req target verify env b = run_at freeze_now target verify env b
target_action identity discard req target verify env b =
    run_confirmed discard target verify env b
      (confirm_nonce identity (codes "discard") target (text_of req.confirm) b.pending)
target_action identity commit req target verify env b =
    run_confirmed commit target verify env b
      (confirm_nonce identity (codes "commit") target (text_of req.confirm) b.pending)

abbrev pub configured : Dict Bool → Option Text → Option (Text × Bool)
configured targets none = none
configured targets (some target) = elim (lookup target targets) [
  | none ↦ none
  | some verify ↦ some (target, verify)
]

abbrev pub on_target :
    Text → Request → Option (Text × Bool) → Surroundings → Broker → Result Reply × Broker
on_target identity req none env b = (err permission_error, b)
on_target identity req (some (target, verify)) env b =
    target_action identity req.action req target verify env
      (record b { pending = live env.now b.pending })

-- `process` of a decoded request. `targets` is the configuration, with the flag "verify".
unfoldable pub process :
    Bool → Text → Dict Bool → Request → Surroundings → Broker → Result Reply × Broker
process is_admin identity targets req env b =
    if is_admin
    then on_target identity req (configured targets (text_of req.target)) env b
    else (err permission_error, b)
