-- ===== src/Ledger/Liveness.antt =====
-- Runs in which every effect happens until the process dies or the call returns: the inspector
-- accepts what they leave.
use mathlib.Core.Path.{subst}
use userfreezer.Prelude.{
  ℕ, zero, suc, ◌+◌, ◌*◌, ◌≤◌, ◌≡◌, refl, sym, ap, ◌∙◌, Bool, true, false, ◌&&◌, none, some, List,
  [], ◌∷◌, if◌then◌else◌, nat_eq_iff, ltb, leb, ◌/◌, arith,
}
use Prim.Native.Nat.{min}
use userfreezer.Prelude.Text.{Text, codes, eq_refl}
use userfreezer.Prelude.Json.{Json}
use userfreezer.Core.Outcome.{Result, ok, ◌>>=◌}
use userfreezer.Ledger.Files.{
  Name, intent, complete, started, done, Files, read_optional, has_file, marker, same_name,
  is_orphaned,
}
use userfreezer.Ledger.Inspect.{
  Intent, finished, uncertain, incomplete, Report, Progress, inspect_step, inspect_steps, conclude,
  inspect,
}
use userfreezer.Ledger.Execute.{Effect, happens, World, add_file, execute_steps, execute}
use userfreezer.Ledger.Reached.{fresh_store}

-- The effects of a process that dies after `n` of them.
unfoldable pub happen : ℕ → List Effect
happen zero = []
happen (suc n) = happens ∷ happen n

module _ (dumps : Json → Text) (digest bytes : Text) (total : ℕ) where
  -- `a` STARTED and `d` DONE files with the contents that the executor writes.
  pub record IsWritten (files : Files) (a d : ℕ) (c : Bool) : Type 0 where
    pub starts :
        (j : ℕ)
        → read_optional files (started j)
          ≡ (if ltb j a then some (marker dumps j (codes "started") digest) else none)
    pub ends :
        (j : ℕ)
        → read_optional files (done j)
          ≡ (if ltb j d then some (marker dumps j (codes "done") digest) else none)
    pub last :
        read_optional files complete
        ≡ (if c then some (marker dumps total (codes "complete") digest) else none)
    pub source : read_optional files intent ≡ some bytes

  read-add :
      (files : Files) (n m : Name) (x : Text)
      → read_optional ((n, x) ∷ files) m ≡ (if same_name n m then some x else read_optional files m)
  unfolding read_optional
  read-add files n m x = refl

  IsWritten-started :
      (files : Files) (i : ℕ)
      → IsWritten files i i false
      → IsWritten ((started i, marker dumps i (codes "started") digest) ∷ files) (suc i) i false
  IsWritten-started files i h = record {
    starts = λ j. rw read-add (ground (arith, h.starts j, nat_eq_iff i j));
    ends = λ j. rw read-add (h.ends j);
    last = rw read-add h.last;
    source = rw read-add h.source;
  }

  IsWritten-done :
      (files : Files) (i : ℕ)
      → IsWritten files (suc i) i false
      → IsWritten ((done i, marker dumps i (codes "done") digest) ∷ files) (suc i) (suc i) false
  IsWritten-done files i h = record {
    starts = λ j. rw read-add (h.starts j);
    ends = λ j. rw read-add (ground (arith, h.ends j, nat_eq_iff i j));
    last = rw read-add h.last;
    source = rw read-add h.source;
  }

  IsWritten-complete :
      (files : Files)
      → IsWritten files total total false
      → IsWritten
          ((complete, marker dumps total (codes "complete") digest) ∷ files)
          total
          total
          true
  IsWritten-complete files h = record {
    starts = λ j. rw read-add (h.starts j);
    ends = λ j. rw read-add (h.ends j);
    last = rw read-add refl;
    source = rw read-add h.source;
  }

  -- What a run has written after `n` effects of the loop, begun at index `i`.
  abbrev Wrote : ℕ → ℕ → ℕ → World → Type 0
  Wrote i left n w =
      (a : ℕ) × (d : ℕ) × (c : Bool) × IsWritten w.files a d c
      × (d ≡ i + min left (n / 3))
      × (a ≡ i + min left ((n + 2) / 3))
      × (c ≡ leb (3 * left + 1) n)

  absent-start :
      (files : Files) (i : ℕ) → IsWritten files i i false → has_file files (started i) ≡ false
  unfolding has_file
  absent-start files i h = ground (arith, h.starts i)

  absent-done :
      (files : Files) (i : ℕ) → IsWritten files (suc i) i false → has_file files (done i) ≡ false
  unfolding has_file
  absent-done files i h = ground (arith, h.ends i)

  absent-complete :
      (files : Files) (i : ℕ) → IsWritten files i i false → has_file files complete ≡ false
  unfolding has_file
  absent-complete files i h = rw h.last

  Wrote-next :
      (i left n : ℕ) (w : World) → Wrote (suc i) left n w → Wrote i (suc left) (suc (suc (suc n))) w
  Wrote-next i left n w (a, d, c, h, x, y, z) =
      (a, d, c, h, omega arith, omega arith, z ∙ ground arith)

  -- The world after one turn of the loop.
  abbrev done_world : World → ℕ → World
  done_world w i = record {
    files =
        (done i, marker dumps i (codes "done") digest)
        ∷ (started i, marker dumps i (codes "started") digest)
        ∷ w.files;
    begun = w.begun + 1;
  }

  steps-Wrote :
      (left i n : ℕ) (w : World)
      → i + left ≡ total
      → IsWritten w.files i i false
      → Wrote i left n (execute_steps dumps digest i left (happen n) w).1
  unfolding execute_steps happen
  steps-Wrote zero i zero w e h = (i, i, false, h, omega arith, omega arith, ground arith)
  steps-Wrote zero i (suc n) w e h = rw (absent-complete w.files i h) (
      subst
        (λ k. Wrote k zero (suc n) (add_file complete (marker dumps k (codes "complete") digest) w))
        (omega arith)
        (
          total,
          total,
          true,
          IsWritten-complete w.files (subst (λ k. IsWritten w.files k k false) (omega arith) h),
          omega arith,
          omega arith,
          ground arith,
        ))
  steps-Wrote (suc left) i zero w e h = (i, i, false, h, omega arith, omega arith, ground arith)
  steps-Wrote (suc left) i (suc zero) w e h =
      rw (absent-start w.files i h)
        (suc i, i, false, IsWritten-started w.files i h, omega arith, omega arith, ground arith)
  steps-Wrote (suc left) i (suc (suc zero)) w e h =
      rw (absent-start w.files i h)
        (suc i, i, false, IsWritten-started w.files i h, omega arith, omega arith, ground arith)
  steps-Wrote (suc left) i (suc (suc (suc n))) w e h =
      let s = IsWritten-started w.files i h in
      rw (absent-start w.files i h, absent-done _ i s)
        (Wrote-next i left n (execute_steps dumps digest (suc i) left (happen n) (done_world w i)).1
          (steps-Wrote left (suc i) n (done_world w i) (omega arith) (IsWritten-done _ i s)))

  -- What the inspector's loop holds at index `i`.
  abbrev held : ℕ → ℕ → ℕ → Progress
  held a d i = record { completed = min i d; active = if ltb d a && ltb d i then some d else none }

  module _ (files : Files) (a d : ℕ) (c : Bool) (h : IsWritten files a d c) (le : d ≤ a)
      (gap : a ≤ suc d) where
    step_held : (i : ℕ) → inspect_step dumps files digest i (held a d i) ≡ ok (held a d (suc i))
    unfolding inspect_step
    step_held i = ground (
      arith,
      h.starts i,
      h.ends i,
      eq_refl (marker dumps i (codes "started") digest),
      eq_refl (marker dumps i (codes "done") digest),
    )

    steps_held :
        (left i : ℕ)
        → inspect_steps dumps files digest i left (held a d i) ≡ ok (held a d (i + left))
    unfolding inspect_steps
    steps_held zero i = ap (λ k. ok (held a d k)) (omega arith)
    steps_held (suc left) i =
        rw (step_held i) (steps_held left (suc i) ∙ ap (λ k. ok (held a d k)) (omega arith))

    module _ (parse : Text → Result Intent)
        (parsed : parse bytes ≡ ok (record { total = total; digest = digest })) (bound : a ≤ total)
        (whole : c ≡ true → d ≡ total) where
      abbrev report : Report
      report = record {
        state = if c then finished else if ltb d a then uncertain else incomplete;
        completed = d;
        total = total;
        uncertain_index = if ltb d a then some d else none;
      }

      min_all : min total d ≡ d
      min_all = omega arith

      zero_held : ◌≡◌ {A = Progress} (record { completed = 0; active = none }) (held a d 0)
      zero_held = ground arith

      conclude-held :
          conclude dumps files (record { total = total; digest = digest }) (held a d total)
          ≡ ok report
      unfolding conclude
      conclude-held = ground (
        arith,
        h.last,
        le,
        gap,
        bound,
        whole,
        min_all,
        eq_refl (marker dumps total (codes "complete") digest),
      )

      start_held :
          inspect_steps dumps files digest 0 total (record { completed = 0; active = none })
          ≡ ok (held a d total)
      start_held =
          ap (inspect_steps dumps files digest 0 total) zero_held
          ∙ steps_held total 0
          ∙ ap (λ k. ok (held a d k)) (omega arith)

      inspect_written : inspect dumps parse files ≡ ok report
      unfolding inspect
      inspect_written =
          rw (h.source, parsed)
            (ap (λ r. r >>= conclude dumps files (record { total = total; digest = digest }))
                start_held
              ∙ conclude-held)

  -- The report on a run that died after its INTENT and `n` more effects.
  abbrev pub report_after : ℕ → Report
  report_after n =
      let confirmed = min total (n / 3) in
      let announced = min total ((n + 2) / 3) in
      record {
        state =
            if leb (3 * total + 1) n
            then finished
            else if ltb confirmed announced
            then uncertain
            else incomplete;
        completed = confirmed;
        total = total;
        uncertain_index = if ltb confirmed announced then some confirmed else none;
      }

  intent_IsWritten : IsWritten ((intent, bytes) ∷ []) 0 0 false
  unfolding read_optional
  intent_IsWritten = record {
    starts = λ j. ground arith;
    ends = λ j. ground arith;
    last = refl;
    source = refl;
  }

  written_all :
      (n d : ℕ) (c : Bool)
      → d ≡ 0 + min total (n / 3)
      → c ≡ leb (3 * total + 1) n
      → c ≡ true
      → d ≡ total
  written_all n d c x z e =
      let enough : (leb (3 * total + 1) n ≡ true) = sym z ∙ e in ground (arith, enough, x)

  same_report :
      (n a d : ℕ) (c : Bool)
      → d ≡ 0 + min total (n / 3)
      → a ≡ 0 + min total ((n + 2) / 3)
      → c ≡ leb (3 * total + 1) n
      → ◌≡◌ {A = Report}
          (record {
            state = if c then finished else if ltb d a then uncertain else incomplete;
            completed = d;
            total = total;
            uncertain_index = if ltb d a then some d else none;
          })
          (report_after n)
  same_report n a d c x y z =
      let x' : d ≡ min total (n / 3) = omega arith in
      let y' : a ≡ min total ((n + 2) / 3) = omega arith in rw (x', y', z)

  -- A run in which every effect happens until the process dies or the call returns leaves a ledger
  -- that the inspector accepts, after the intent and any number of further effects. With three
  -- effects for each operation, it reports the operations that are confirmed, one that is
  -- announced and not confirmed as uncertain, and the plan as finished after the last effect. The
  -- intent is parsed with the plan's length and digest.
  pub inspect-happen :
      (parse : Text → Result Intent) (n : ℕ)
      → parse bytes ≡ ok (record { total = total; digest = digest })
      → inspect dumps parse (execute dumps digest bytes total (happen (suc n)) fresh_store).1.files
        ≡ ok (report_after n)
  unfolding execute happen is_orphaned has_file read_optional
  inspect-happen parse n parsed =
      let w : World = record { files = (intent, bytes) ∷ []; begun = 0 } in
      let (a, d, c, h, x, y, z) = steps-Wrote total 0 n w (omega arith) intent_IsWritten in
      let whole : c ≡ true → d ≡ total = λ e. written_all n d c x (z ∙ refl) e in
      inspect_written (execute_steps dumps digest 0 total (happen n) w).1.files a d c h
        (omega arith) (omega arith) parse parsed (omega arith) whole
      ∙ ap ok (same_report n a d c x y z)
