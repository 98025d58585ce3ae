-- ===== src/Admin/Prepared.antt =====
-- admin_ipc.py: a confirmation that was prepared is accepted.
use userfreezer.Prelude.{
  ℕ, ◌+◌, ◌<◌, ◌≡◌, refl, ap, ◌∙◌, Bool, true, false, none, some, leb, length, arith,
}
use userfreezer.Prelude.Text.{Text, ◌==◌, eq_refl}
use userfreezer.Prelude.Dict.{Dict, lookup, insert, lookup-insert}
use userfreezer.Prelude.Json.{str}
use userfreezer.Core.Outcome.{ok}
use userfreezer.Admin.Broker.{
  Nonce, Broker, Action, prepare, freeze_now, discard, commit, action_name, Request, Surroundings,
  prepared, live, is_live, is_operation, prepare_nonce, confirm_nonce, matches, run_core,
  target_action, on_target, configured, process,
}
use userfreezer.Prelude.Json.{text_of}
use userfreezer.Admin.Nonces.{lookup-keep_if}
use userfreezer.Admin.Confirmed.{needs_nonce}

abbrev pub preparation : Text → Action → Request
preparation target act = record {
  action = prepare;
  target = some (str target);
  confirm = none;
  operation = some (str (action_name act));
}

abbrev pub confirmation : Text → Action → Text → Request
confirmation target act token = record {
  action = act;
  target = some (str target);
  confirm = some (str token);
  operation = none;
}

abbrev nonce_for : Text → Text → Action → ℕ → Nonce
nonce_for identity target act now = record {
  peer = identity;
  operation = action_name act;
  target = target;
  persistent = none;
  expires = now + 30;
}

-- The nonce is found as long as it has not expired.
nonce-live :
    (identity target : Text) (act : Action) (before after : ℕ) (token : Text) (pending : Dict Nonce)
    → after < before + 30
    → lookup token (live after (insert token (nonce_for identity target act before) pending))
      ≡ some (nonce_for identity target act before)
nonce-live identity target act before after token pending soon =
    lookup-keep_if (is_live after) token (nonce_for identity target act before) _
      (rw lookup-insert (ground (arith, eq_refl token))) (ground (arith, soon))

nonce-matches :
    (identity target : Text) (act : Action) (now : ℕ)
    → matches identity (action_name act) target (some (nonce_for identity target act now)) ≡ true
nonce-matches identity target act now =
    rw (eq_refl identity, eq_refl (action_name act), eq_refl target)

configured-some :
    (targets : Dict Bool) (target : Text) (verify : Bool)
    → lookup target targets ≡ some verify
    → configured targets (some target) ≡ some (target, verify)
configured-some targets target verify e = ground (arith, e)

on-configured :
    (identity : Text) (targets : Dict Bool) (target : Text) (verify : Bool) (req : Request)
    (env : Surroundings) (b : Broker)
    → lookup target targets ≡ some verify
    → text_of req.target ≡ some target
    → process true identity targets req env b ≡ on_target identity req (some (target, verify)) env b
unfolding process
on-configured identity targets target verify req env b there e =
    ap (λ x. on_target identity req (configured targets x) env b) e
    ∙ ap (λ x. on_target identity req x env b) (configured-some targets target verify there)

is_operation-name : (act : Action) → needs_nonce act ≡ true → is_operation (action_name act) ≡ true
unfolding ◌==◌
is_operation-name discard h = refl
is_operation-name commit h = refl
is_operation-name prepare h = cc
is_operation-name freeze_now h = cc

prepare_lem :
    (identity target : Text) (act : Action) (targets : Dict Bool) (verify : Bool)
    (env : Surroundings) (b : Broker)
    → needs_nonce act ≡ true
    → lookup target targets ≡ some verify
    → length (live env.now b.pending) < 128
    → process true identity targets (preparation target act) env b ≡ (
      ok (prepared env.token),
      record b {
        pending = insert env.token (nonce_for identity target act env.now) (live env.now b.pending);
      },
    )
unfolding target_action prepare_nonce
prepare_lem identity target act targets verify env b h there room =
    let room_left : leb 128 (length (live env.now b.pending)) ≡ false = ground (arith, room) in
    rw (on-configured identity targets target verify (preparation target act) env b there refl)
      (rw (is_operation-name act h, room_left) refl)

confirm_lem :
    (identity target : Text) (act : Action) (targets : Dict Bool) (verify : Bool)
    (env : Surroundings) (b : Broker) (token : Text) (made : ℕ)
    → needs_nonce act ≡ true
    → lookup target targets ≡ some verify
    → lookup token (live env.now b.pending) ≡ some (nonce_for identity target act made)
    → (process true identity targets (confirmation target act token) env b).0
      ≡ (run_core act target verify env (b.disk target)).0
unfolding target_action confirm_nonce
confirm_lem identity target discard targets verify env b token made h there found =
    rw
      (on-configured identity targets target verify (confirmation target discard token) env b there
        refl)
      (rw (found, nonce-matches identity target discard made) refl)
confirm_lem identity target commit targets verify env b token made h there found =
    rw
      (on-configured identity targets target verify (confirmation target commit token) env b there
        refl)
      (rw (found, nonce-matches identity target commit made) refl)
confirm_lem identity target prepare targets verify env b token made h there found = cc
confirm_lem identity target freeze_now targets verify env b token made h there found = cc

-- Where fewer than 128 nonces are live, an administrator's `prepare` of a discard or a commit of a
-- configured target succeeds, and a request of the same peer with that nonce, within 30 seconds,
-- gets the answer of the core.
pub prepare-confirm :
    (identity target : Text) (act : Action) (targets : Dict Bool) (verify : Bool)
    (before after : Surroundings) (b : Broker)
    → needs_nonce act ≡ true
    → lookup target targets ≡ some verify
    → length (live before.now b.pending) < 128
    → after.now < before.now + 30
    → let (r, t) = process true identity targets (preparation target act) before b in
      (r ≡ ok (prepared before.token))
      × ((process true identity targets (confirmation target act before.token) after t).0
          ≡ (run_core act target verify after (b.disk target)).0)
prepare-confirm identity target act targets verify before after b h there room soon =
    rw (prepare_lem identity target act targets verify before b h there room) (
      refl,
      confirm_lem identity target act targets verify after
          (record b {
            pending =
                insert before.token (nonce_for identity target act before.now)
                  (live before.now b.pending);
          })
          before.token before.now h there
          (nonce-live identity target act before.now after.now before.token
            (live before.now b.pending) soon),
    )
