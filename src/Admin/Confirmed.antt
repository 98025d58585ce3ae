-- ===== src/Admin/Confirmed.antt =====
-- admin_ipc.py: a discard or a commit needs a confirmation that its own peer has prepared, which is used up.
use userfreezer.Prelude.{
  ℕ, ◌<◌, ◌≡◌, refl, Bool, true, false, Option, none, some, arith, Has, inl, inr, ◌⊎◌, Option-cases,
  Bool-cases,
}
use userfreezer.Prelude.Text.{Text, codes, eq→path}
use userfreezer.Prelude.Dict.{Dict, lookup, has_key}
use userfreezer.Core.Outcome.{Result, ok, err, Error}
use userfreezer.Admin.Broker.{
  Nonce, Broker, Action, prepare, freeze_now, discard, commit, action_name, Request, Surroundings,
  Reply, live, is_live, confirm_nonce, matches, run_confirmed, target_action, on_target, configured,
  process,
}
use userfreezer.Prelude.Json.{text_of}
use userfreezer.Admin.Nonces.{has_key-erase, Has-keep_if}

-- The nonce that allows an action on a target to a peer, at a time.
pub record IsAllowed (identity action target token : Text) (now : ℕ) (pending : Dict Nonce)
    : Type 0 where
  pub nonce : Nonce
  pub kept : Has (token, nonce) pending
  pub peer : nonce.peer ≡ identity
  pub operation : nonce.operation ≡ action
  pub same_target : nonce.target ≡ target
  pub fresh : now < nonce.expires

matches-fields :
    (identity action target : Text) (n : Nonce)
    → matches identity action target (some n) ≡ true
    → (n.peer ≡ identity) × (n.operation ≡ action) × (n.target ≡ target)
matches-fields identity action target n h = (
  ground (arith, eq→path n.peer identity, h),
  ground (arith, eq→path n.operation action, h),
  ground (arith, eq→path n.target target, h),
)

-- How a check ends: it raises, or the token was an allowed nonce and is used up.
abbrev Checked :
    Text → Text → Text → Option Text → ℕ → Dict Nonce → Result (Unit {0}) × Dict Nonce → Type 0
Checked identity action target given now pending (r, rest) =
    ((e : Error) × (r ≡ err e))
    ⊎ ((token : Text) × (given ≡ some token)
        × IsAllowed identity action target token now pending
        × (has_key token rest ≡ false))

confirm_nonce-Checked :
    (identity action target : Text) (given : Option Text) (now : ℕ) (pending : Dict Nonce)
    → Checked identity action target given now pending
        (confirm_nonce identity action target given (live now pending))
unfolding confirm_nonce
confirm_nonce-Checked identity action target none now pending = inl (_, refl)
confirm_nonce-Checked identity action target (some token) now pending =
    elim (Option-cases (lookup token (live now pending))) [
      | inl e ↦ rw e (inl (_, refl))
      | inr (n, e) ↦ elim (Bool-cases (matches identity action target (some n))) [
        | inl y ↦
            (let (kept, fresh) = Has-keep_if (is_live now) token n pending e in
              let (peer, operation, same) = matches-fields identity action target n y in
              inr (
                token,
                refl,
                record {
                  nonce = n;
                  kept = kept;
                  peer = peer;
                  operation = operation;
                  same_target = same;
                  fresh = ground (arith, fresh);
                },
                has_key-erase token (live now pending),
              ))
        | inr unlike ↦ rw (e, unlike) (inl (_, refl))
      ]
    ]

-- Either no disk has changed, or the peer has used up a nonce of its own for just this.
abbrev pub Guarded :
    Text → Action → Text → Option Text → ℕ → Broker → Result Reply × Broker → Type 0
Guarded identity act target given now b (r, t) =
    (t.disk ≡ b.disk)
    ⊎ ((token : Text) × (given ≡ some token)
        × IsAllowed identity (action_name act) target token now b.pending
        × (has_key token t.pending ≡ false))

run_confirmed-Guarded :
    (identity : Text) (act : Action) (target : Text) (verify : Bool) (given : Option Text)
    (env : Surroundings) (b : Broker) (c : Result (Unit {0}) × Dict Nonce)
    → Checked identity (action_name act) target given env.now b.pending c
    → Guarded identity act target given env.now b
        (run_confirmed act target verify env (record b { pending = live env.now b.pending }) c)
run_confirmed-Guarded identity act target verify given env b (err e, rest) h = inl refl
run_confirmed-Guarded identity act target verify given env b (ok u, rest) (inl (e, p)) =
    absurd (ok-err u e p)
  where
    ok-err : (u : Unit {0}) (e : Error) → ◌≡◌ {A = Result (Unit {0})} (ok u) (err e) → ⊥
    ok-err u e p = cc
run_confirmed-Guarded identity act target verify given env b (ok u, rest) (inr h) = inr h

-- `action in ("discard", "commit")`
abbrev pub needs_nonce : Action → Bool
needs_nonce discard = true
needs_nonce commit = true
needs_nonce _ = false

false-true : false ≡ true → ⊥
false-true h = cc

target_action-Guarded :
    (identity : Text) (act : Action) (req : Request) (target : Text) (verify : Bool)
    (env : Surroundings) (b : Broker)
    → needs_nonce act ≡ true
    → Guarded identity act target (text_of req.confirm) env.now b (
        target_action identity act req target verify env
          (record b { pending = live env.now b.pending }))
unfolding target_action
target_action-Guarded identity prepare req target verify env b h = inl refl
target_action-Guarded identity freeze_now req target verify env b h = absurd (false-true h)
target_action-Guarded identity discard req target verify env b h =
    run_confirmed-Guarded identity discard target verify (text_of req.confirm) env b _ (
      confirm_nonce-Checked identity (codes "discard") target (text_of req.confirm) env.now
        b.pending)
target_action-Guarded identity commit req target verify env b h =
    run_confirmed-Guarded identity commit target verify (text_of req.confirm) env b _ (
      confirm_nonce-Checked identity (codes "commit") target (text_of req.confirm) env.now
        b.pending)

-- What a discard or a commit may have done, by whatever peer it was sent.
abbrev pub Permitted : Bool → Text → Request → ℕ → Broker → Result Reply × Broker → Type 0
Permitted is_admin identity req now b (r, t) =
    (t.disk ≡ b.disk)
    ⊎ ((is_admin ≡ true)
        × (target : Text) × (token : Text) × (text_of req.target ≡ some target)
        × (text_of req.confirm ≡ some token)
        × IsAllowed identity (action_name req.action) target token now b.pending
        × (has_key token t.pending ≡ false))

-- A discard or a commit changes a disk only if an administrator sent it, with a nonce that the same
-- peer has prepared for the same action and the same target and that has not expired. The nonce is
-- gone afterwards.
pub process-Permitted :
    (is_admin : Bool) (identity : Text) (targets : Dict Bool) (req : Request) (env : Surroundings)
    (b : Broker)
    → needs_nonce req.action ≡ true
    → Permitted is_admin identity req env.now b (process is_admin identity targets req env b)
unfolding process
process-Permitted false identity targets req env b h = inl refl
process-Permitted true identity targets req env b h = found (text_of req.target) refl
  where
    lift :
        (target : Text) (x : Result Reply × Broker)
        → text_of req.target ≡ some target
        → Guarded identity req.action target (text_of req.confirm) env.now b x
        → Permitted true identity req env.now b x
    lift target (r, t) e (inl same) = inl same
    lift target (r, t) e (inr (token, given, allowed, spent)) =
        inr (refl, target, token, e, given, allowed, spent)

    found :
        (x : Option Text)
        → text_of req.target ≡ x
        → Permitted true identity req env.now b
            (on_target identity req (configured targets x) env b)
    found none e = inl refl
    found (some target) e =
        elim (lookup target targets)
          as (λ (v : Option Bool). Permitted true identity req env.now b (
            on_target identity req (elim v [ none ↦ none | some verify ↦ some (target, verify) ])
              env b)) [
                | none ↦ inl refl
                | some verify ↦
                    lift target
                      (target_action identity req.action req target verify env
                        (record b { pending = live env.now b.pending }))
                      e (target_action-Guarded identity req.action req target verify env b h)
              ]
