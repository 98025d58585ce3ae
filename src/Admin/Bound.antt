-- ===== src/Admin/Bound.antt =====
-- admin_ipc.py: the number of nonces that the broker keeps.
use userfreezer.Prelude.{◌+◌, ◌≤◌, Bool, true, false, Option, none, some, length, arith}
use userfreezer.Prelude.Text.{Text, codes}
use userfreezer.Prelude.Dict.{Dict}
use userfreezer.Core.Outcome.{Result, ok, err}
use userfreezer.Admin.Broker.{
  Nonce, Broker, Action, prepare, freeze_now, discard, commit, Request, Surroundings, live, is_live,
  prepare_nonce, confirm_nonce, run_confirmed, target_action, on_target, configured, process,
}
use userfreezer.Prelude.Json.{text_of}
use userfreezer.Admin.Nonces.{length-keep_if, length-erase, length-insert}

prepare_nonce-bound :
    (identity target : Text) (op : Option Text) (env : Surroundings) (pending : Dict Nonce)
    → length pending ≤ 128
    → length (prepare_nonce identity target op env pending).1 ≤ 128
unfolding prepare_nonce
prepare_nonce-bound identity target none env pending h = h
prepare_nonce-bound identity target (some op) env pending h = ground (
  arith,
  h,
  length-insert env.token
      (record {
        peer = identity;
        operation = op;
        target = target;
        persistent = none;
        expires = env.now + 30;
      })
      pending,
)

confirm_nonce-bound :
    (identity action target : Text) (given : Option Text) (pending : Dict Nonce)
    → length pending ≤ 128
    → length (confirm_nonce identity action target given pending).1 ≤ 128
unfolding confirm_nonce
confirm_nonce-bound identity action target none pending h = h
confirm_nonce-bound identity action target (some token) pending h =
    omega (arith, length-erase token pending)

run_confirmed-bound :
    (act : Action) (target : Text) (verify : Bool) (env : Surroundings) (b : Broker)
    (c : Result (Unit {0}) × Dict Nonce)
    → length c.1 ≤ 128
    → length (run_confirmed act target verify env b c).1.pending ≤ 128
run_confirmed-bound act target verify env b (err e, rest) h = h
run_confirmed-bound act target verify env b (ok u, rest) h = h

target_action-bound :
    (identity : Text) (act : Action) (req : Request) (target : Text) (verify : Bool)
    (env : Surroundings) (b : Broker)
    → length b.pending ≤ 128
    → length (target_action identity act req target verify env b).1.pending ≤ 128
unfolding target_action
target_action-bound identity prepare req target verify env b h =
    prepare_nonce-bound identity target (text_of req.operation) env b.pending h
target_action-bound identity freeze_now req target verify env b h = h
target_action-bound identity discard req target verify env b h =
    run_confirmed-bound discard target verify env b _
      (confirm_nonce-bound identity (codes "discard") target (text_of req.confirm) b.pending h)
target_action-bound identity commit req target verify env b h =
    run_confirmed-bound commit target verify env b _
      (confirm_nonce-bound identity (codes "commit") target (text_of req.confirm) b.pending h)

-- A broker with at most 128 nonces has at most 128 after any request.
pub process-bound :
    (is_admin : Bool) (identity : Text) (targets : Dict Bool) (req : Request) (env : Surroundings)
    (b : Broker)
    → length b.pending ≤ 128
    → length (process is_admin identity targets req env b).1.pending ≤ 128
unfolding process
process-bound false identity targets req env b h = h
process-bound true identity targets req env b h =
    elim (configured targets (text_of req.target))
      as (λ (x : Option (Text × Bool)). length (on_target identity req x env b).1.pending ≤ 128) [
        | none ↦ h
        | some (target, verify) ↦
            target_action-bound identity req.action req target verify env
              (record b { pending = live env.now b.pending })
              (omega (arith, length-keep_if (is_live env.now) b.pending))
      ]
