-- ===== src/Admin/Process/Guarded.antt =====
-- A call of uwfmgr.exe needs an administrator and a nonce of its own peer for the same volumes.
use userfreezer.Prelude.{
  ℕ, ◌<◌, ◌≡◌, refl, ap, Bool, true, false, not, ◌&&◌, Option, none, some, [], if◌then◌else◌, map,
  arith, inl, inr, ◌⊎◌, Bool-cases, Option-cases,
}
use userfreezer.Prelude.Text.{Text, codes, eq→path}
use userfreezer.Prelude.Dict.{Dict, lookup, has_key, erase}
use userfreezer.Prelude.Json.{Json, text_of}
use userfreezer.Core.Outcome.{Result, ok, err, protocol_error}
use userfreezer.Windows.Uwf.{Lab, Snapshot, Status, inspect_uwf, Staging, stage_uwf_lab}
use userfreezer.Admin.Nonces.{has_key-erase}
use userfreezer.Admin.Broker.{Nonce, Broker, Action, Surroundings, Reply, process}
use userfreezer.Admin.Decode.{
  UwfAction, uwf_status, uwf_prepare, uwf_stage, Command, status, core, filter, Message, Configured,
  decode_message,
}
use userfreezer.Admin.Process.{
  Outcome, unchanged, with_pending, stage_matches, same_volume, confirm_stage, staged_as,
  prepare_stage, uwf_checked, volumes_of, uwf_action, flag_of, request_of, needs_admin, on_targets,
  handled_as, Setting, dispatch, process_decoded, process_raw,
}

-- A nonce for the staging of a pair of volumes.
pub record IsStageNonce (identity target persistent token : Text) (now : ℕ) (pending : Dict Nonce)
    : Type 0 where
  pub nonce : Nonce
  pub kept : lookup token pending ≡ some nonce
  pub peer : nonce.peer ≡ identity
  pub operation : nonce.operation ≡ codes "uwf-stage"
  pub system : nonce.target ≡ target
  pub volume : nonce.persistent ≡ some persistent
  pub fresh : now < nonce.expires

same_volume-path : (o : Option Text) (p : Text) → same_volume o p ≡ true → o ≡ some p
same_volume-path none p h = cc
same_volume-path (some q) p h = ap some (eq→path q p h)

module _ (identity : Text) (now : ℕ) (b : Broker) where
  -- Either no call was made, or a nonce was there and is gone.
  abbrev Staged : Bool → Text → Text → Outcome → Type 0
  Staged enabled target persistent o =
      (o.calls ≡ [])
      ⊎ ((enabled ≡ true)
          × (token : Text) × IsStageNonce identity target persistent token now b.pending
          × (has_key token o.broker.pending ≡ false))

  IsStageNonce-matches :
      (target persistent token : Text) (n : Nonce)
      → lookup token b.pending ≡ some n
      → stage_matches identity target persistent now (some n) ≡ true
      → IsStageNonce identity target persistent token now b.pending
  IsStageNonce-matches target persistent token n found h = record {
    nonce = n;
    kept = found;
    peer = ground (arith, h, eq→path n.peer identity);
    operation = ground (arith, h, eq→path n.operation (codes "uwf-stage"));
    system = ground (arith, h, eq→path n.target target);
    volume = same_volume-path n.persistent persistent (ground (arith, h));
    fresh = ground (arith, h);
  }

  staged_as-Staged :
      (enabled : Bool) (target persistent token : Text) (t : Broker) (s : Staging)
      → enabled ≡ true
      → IsStageNonce identity target persistent token now b.pending
      → has_key token t.pending ≡ false
      → Staged enabled target persistent (staged_as t s)
  staged_as-Staged enabled target persistent token t (ok u, calls) e n gone =
      inr (e, token, n, gone)
  staged_as-Staged enabled target persistent token t (err x, calls) e n gone =
      inr (e, token, n, gone)

  module _ (enabled : Bool) (env : Surroundings) (same_time : env.now ≡ now) (lab : Lab)
      (target persistent : Text) where
    confirm_stage-Staged :
        (given : Option Text)
        → Staged enabled target persistent
            (confirm_stage enabled identity target persistent given env lab b)
    confirm_stage-Staged none = inl refl
    confirm_stage-Staged (some token) = elim (Option-cases (lookup token b.pending)) [
      | inl e ↦ rw e (inl refl)
      | inr (n, e) ↦ elim (Bool-cases (stage_matches identity target persistent env.now (some n))) [
        | inr no_match ↦ rw (e, no_match) (inl refl)
        | inl y ↦ elim (Bool-cases enabled) [
          | inr off ↦ rw (e, y, off) (inl refl)
          | inl on ↦
              rw (e, y, on)
                (staged_as-Staged true target persistent token
                  (with_pending b (erase token b.pending))
                  (stage_uwf_lab true lab target persistent) refl
                  (IsStageNonce-matches target persistent token n e (rw same_time at y))
                  (has_key-erase token b.pending))
        ]
      ]
    ]

-- What a message may have done with the write filter.
abbrev pub Sanctioned : Bool → Bool → Text → ℕ → Broker → Outcome → Type 0
Sanctioned is_admin enabled identity now b o =
    (o.calls ≡ [])
    ⊎ ((is_admin ≡ true)
        × (enabled ≡ true)
        × (target : Text) × (persistent : Text) × (token : Text) × IsStageNonce identity target
            persistent token now b.pending
        × (has_key token o.broker.pending ≡ false))

handled_as-calls : (r : Result Reply × Broker) → (handled_as r).calls ≡ []
handled_as-calls (ok r, b) = refl
handled_as-calls (err e, b) = refl

module _ (identity : Text) (env : Surroundings) (lab : Lab) (b : Broker) where
  on_targets-calls :
      (is_admin : Bool) (act : Action) (m : Message) (r : Result (Dict Configured))
      → (on_targets is_admin identity act m env b r).calls ≡ []
  on_targets-calls is_admin act m (err e) = refl
  on_targets-calls is_admin act m (ok targets) =
      handled_as-calls (process is_admin identity (map flag_of targets) (request_of act m) env b)

  prepare_stage-calls :
      (target persistent : Text) (r : Result (Snapshot × Status))
      → (prepare_stage identity target persistent env b r).calls ≡ []
  prepare_stage-calls target persistent (err e) = refl
  prepare_stage-calls target persistent (ok (s, st)) = ground arith

  module _ (enabled : Bool) (confirm : Option Json) where
    uwf_checked-calls :
        (act : UwfAction) (r : Result (Text × Text))
        → needs_admin (filter act) ≡ false
        → (uwf_checked enabled identity act confirm env lab b r).calls ≡ []
    uwf_checked-calls act (err e) h = refl
    uwf_checked-calls uwf_status (ok (target, persistent)) h = refl
    uwf_checked-calls uwf_prepare (ok (target, persistent)) h = cc
    uwf_checked-calls uwf_stage (ok (target, persistent)) h = cc

    uwf_checked-Sanctioned :
        (act : UwfAction) (r : Result (Text × Text))
        → Sanctioned true enabled identity env.now b
            (uwf_checked enabled identity act confirm env lab b r)
    uwf_checked-Sanctioned act (err e) = inl refl
    uwf_checked-Sanctioned uwf_status (ok (target, persistent)) = inl refl
    uwf_checked-Sanctioned uwf_prepare (ok (target, persistent)) = elim (Bool-cases enabled) [
      | inl e ↦ rw e (
          inl (
            prepare_stage-calls target persistent
              (inspect_uwf lab.machine lab.before target persistent)))
      | inr e ↦ rw e (inl refl)
    ]
    uwf_checked-Sanctioned uwf_stage (ok (target, persistent)) =
        lift (confirm_stage enabled identity target persistent (text_of confirm) env lab b) (
          confirm_stage-Staged identity env.now b enabled env refl lab target persistent
            (text_of confirm))
      where
        lift :
            (o : Outcome)
            → Staged identity env.now b enabled target persistent o
            → Sanctioned true enabled identity env.now b o
        lift o (inl e) = inl e
        lift o (inr (on, token, n, gone)) = inr (refl, on, target, persistent, token, n, gone)

  uwf_action-Sanctioned :
      (enabled is_admin : Bool) (act : UwfAction) (m : Message)
      → (needs_admin (filter act) && not is_admin) ≡ false
      → Sanctioned is_admin enabled identity env.now b (uwf_action enabled identity act m env lab b)
  unfolding uwf_action
  uwf_action-Sanctioned enabled is_admin act m h =
      only_if lab.machine.is_windows
        (uwf_checked enabled identity act m.confirm env lab b
          (volumes_of (text_of m.target) (text_of m.operation)))
        (by_admin is_admin (volumes_of (text_of m.target) (text_of m.operation)) h)
    where
      only_if :
          (test : Bool) (o : Outcome)
          → Sanctioned is_admin enabled identity env.now b o
          → Sanctioned is_admin enabled identity env.now b
              (if test then o else unchanged (err protocol_error) b)
      only_if true o s = s
      only_if false o s = inl refl

      by_admin :
          (is_admin : Bool) (r : Result (Text × Text))
          → (needs_admin (filter act) && not is_admin) ≡ false
          → Sanctioned is_admin enabled identity env.now b
              (uwf_checked enabled identity act m.confirm env lab b r)
      by_admin true r h = uwf_checked-Sanctioned enabled m.confirm act r
      by_admin false r h = inl (uwf_checked-calls enabled m.confirm act r (ground (arith, h)))

  dispatch-Sanctioned :
      (is_admin : Bool) (set : Setting) (m : Message) (c : Command)
      → (needs_admin c && not is_admin) ≡ false
      → Sanctioned is_admin set.uwf_lab_enabled identity env.now b
          (dispatch is_admin identity set env lab m c b)
  dispatch-Sanctioned is_admin set m status h = inl refl
  dispatch-Sanctioned is_admin set m (core act) h =
      inl (on_targets-calls is_admin act m set.targets)
  dispatch-Sanctioned is_admin set m (filter act) h =
      uwf_action-Sanctioned set.uwf_lab_enabled is_admin act m h

  process_decoded-Sanctioned :
      (is_admin : Bool) (set : Setting) (r : Result Message)
      → Sanctioned is_admin set.uwf_lab_enabled identity env.now b
          (process_decoded is_admin identity set env lab b r)
  process_decoded-Sanctioned is_admin set (err e) = inl refl
  process_decoded-Sanctioned is_admin set (ok m) =
      elim (Bool-cases (needs_admin m.command && not is_admin)) [
        | inl e ↦ rw e (inl refl)
        | inr e ↦ rw e (dispatch-Sanctioned is_admin set m m.command e)
      ]

-- Whatever message is processed, uwfmgr.exe is called only if an administrator sent it, the laboratory
-- is enabled, and the broker kept a nonce of the same peer for the staging of the volumes of some
-- request, which has not expired and is gone afterwards.
pub process_raw-Sanctioned :
    (equals_one : Text → Bool) (loads : Text → Option Json) (is_admin : Bool) (identity : Text)
    (set : Setting) (env : Surroundings) (lab : Lab) (raw : Text) (b : Broker)
    → Sanctioned is_admin set.uwf_lab_enabled identity env.now b
        (process_raw equals_one loads is_admin identity set env lab raw b)
unfolding process_raw
process_raw-Sanctioned equals_one loads is_admin identity set env lab raw b =
    process_decoded-Sanctioned identity env lab b is_admin set (decode_message equals_one loads raw)
