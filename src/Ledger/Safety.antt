-- ===== src/Ledger/Safety.antt =====
-- What the inspector of a ledger says after a run of the executor that may have ended anywhere.
use mathlib.Core.Path.{subst}
use userfreezer.Prelude.{
  ℕ, suc, ◌≤◌, ◌≡◌, refl, Bool, true, false, ◌⊎◌, Option, none, some, List, arith,
}
use userfreezer.Prelude.Text.{Text}
use userfreezer.Prelude.Json.{Json}
use userfreezer.Core.Outcome.{Result, ok, ◌>>=◌, >>=-eq-ok}
use userfreezer.Ledger.Files.{intent, read_optional, has_file}
use userfreezer.Ledger.Inspect.{
  Intent, State, finished, uncertain, Report, Progress, inspect_steps, conclude, inspect,
  inspect_intent,
}
use userfreezer.Ledger.Execute.{Effect, World, execute}
use userfreezer.Ledger.Shape.{Counted, inspect_steps-Counted}
use userfreezer.Ledger.Reached.{fresh_store, IsReached, Reached, execute-Reached}

abbrev pub is_finished : State → Bool
is_finished finished = true
is_finished _ = false

-- What a report may say of a run.
abbrev pub Tells : Report → ℕ → ℕ → Type 0
Tells r begun total =
    (r.completed ≤ begun)
    × (begun ≤ suc r.completed)
    × ((begun ≡ r.completed) ⊎ (r.state ≡ uncertain))
    × ((begun ≡ total) ⊎ (is_finished r.state ≡ false))

module _ (dumps : Json → Text) (parse : Text → Result Intent) (digest bytes : Text) (total : ℕ)
    (man : Intent) (parsed : parse bytes ≡ ok man) (same_total : man.total ≡ total) where
  abbrev start : Progress
  start = record { completed = 0; active = none }

  start-Counted : (a d : ℕ) → Counted a d 0 start
  start-Counted a d = record { number = ground arith; current = ground arith }

  loop-Counted :
      (w : World) (digest' : Text) (n : ℕ) (p : Progress) (a d : ℕ)
      → IsReached bytes total w a d
      → inspect_steps dumps w.files digest' 0 n start ≡ ok p
      → Counted a d n p
  loop-Counted w digest' n p a d h e =
      subst (λ i. Counted a d i p) (omega arith)
        (inspect_steps-Counted dumps w.files digest' a d h.shape n 0 start p
          (omega (arith, h.confirmed, h.announced)) h.gap (start-Counted a d) e)

  -- The conclusion from a loop that counted well.
  conclude-Tells :
      (w : World) (r : Report) (m : Intent) (p : Progress) (a d : ℕ)
      → IsReached bytes total w a d
      → Counted a d m.total p
      → (a ≡ 0) ⊎ (m.total ≡ total)
      → conclude dumps w.files m p ≡ ok r
      → Tells r w.begun total
  unfolding conclude has_file
  conclude-Tells w r m p a d h c t e = (
    ground (arith, h.confirmed, h.announced, h.gap, h.bound, h.origin, c.number, c.current, t, e),
    ground (arith, h.confirmed, h.announced, h.gap, h.bound, h.origin, c.number, c.current, t, e),
    ground (arith, h.confirmed, h.announced, h.gap, h.bound, h.origin, c.number, c.current, t, e),
    ground (arith, h.confirmed, h.announced, h.gap, h.bound, h.origin, c.number, c.current, t, e),
  )

  known-total :
      (w : World) (raw : Text) (m : Intent) (a d : ℕ)
      → read_optional w.files intent ≡ some raw
      → parse raw ≡ ok m
      → IsReached bytes total w a d
      → (a ≡ 0) ⊎ (m.total ≡ total)
  known-total w raw m a d there one h = ground (arith, h.origin, there, one, parsed, same_total)

  loop-Tells :
      (w : World) (r : Report) (m : Intent) (a d : ℕ)
      → IsReached bytes total w a d
      → (a ≡ 0) ⊎ (m.total ≡ total)
      → (inspect_steps dumps w.files m.digest 0 m.total start >>= conclude dumps w.files m) ≡ ok r
      → Tells r w.begun total
  loop-Tells w r m a d h t e =
      let (p, two, three) = >>=-eq-ok (inspect_steps dumps w.files m.digest 0 m.total start) _ e in
      conclude-Tells w r m p a d h (loop-Counted w m.digest m.total p a d h two) t three

  intent-Tells :
      (w : World) (r : Report) (x : Option Text)
      → read_optional w.files intent ≡ x
      → Reached bytes total w
      → inspect_intent dumps parse w.files x ≡ ok r
      → Tells r w.begun total
  intent-Tells w r none there (a, d, h) e = (
    ground (arith, h.announced, h.origin, there, e),
    ground (arith, h.announced, h.origin, there, e),
    ground (arith, h.announced, h.origin, there, e),
    ground (arith, h.announced, h.origin, there, e),
  )
  intent-Tells w r (some raw) there (a, d, h) e =
      let (m, one, rest) = >>=-eq-ok (parse raw) _ e in
      loop-Tells w r m a d h (known-total w raw m a d there one h) rest

  -- After a run on a store without files of the root, wherever it ended and whatever a failed
  -- creation left behind, a report of the inspector counts no operation that was not begun. It
  -- leaves out at most one that was, and then it is uncertain, and it calls a plan finished only
  -- if all operations were begun. The executor's intent is parsed with the plan's length.
  pub inspect-execute :
      (es : List Effect) (r : Report)
      → let w = (execute dumps digest bytes total es fresh_store).1 in
        inspect dumps parse w.files ≡ ok r → Tells r w.begun total
  unfolding inspect
  inspect-execute es r e = intent-Tells _ r _ refl (execute-Reached dumps digest bytes total es) e
