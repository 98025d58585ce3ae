-- ===== src/Core/Journal/Replay.antt =====
-- The loader's loop over a journal that has been appended to.
use mathlib.Core.Path.{subst}
use mathlib.Core.List.{append-nil}
use userfreezer.Prelude.{
  ℕ, suc, ◌≡◌, refl, ap, true, false, Option, none, some, List, [], ◌∷◌, ◌++◌, All, arith,
}
use userfreezer.Prelude.Text.{Text, ◌==◌}
use userfreezer.Prelude.Dict.{Dict, lookup, insert}
use userfreezer.Core.Types.{Kind, Op, Ops}
use userfreezer.Core.Outcome.{ok, ◌>>=◌, >>=-eq-ok}
use userfreezer.Core.Overlay.{Source, Rec, Line, blank, broken, entry, Tail, clean}
use userfreezer.Core.Classify.Newest.{SeqBelow, SeqBelow-lookup}
use userfreezer.Core.Journal.{Loaded, source, replace_op, is_current, replay_rec, replay}

abbrev pub IsWhole : Line → Type 0
IsWhole broken = ⊥
IsWhole _ = Unit

-- A journal without broken lines is read on to whatever follows it.
pub replay-append :
    (lines more : List Line) (tail : Tail) (m n : Loaded)
    → All IsWhole lines
    → replay lines clean m ≡ ok n
    → replay (lines ++ more) tail m ≡ replay more tail n
unfolding replay
replay-append [] more tail m n h e = ap (λ r. r >>= replay more tail) e
replay-append (blank ∷ lines) more tail m n h e = replay-append lines more tail m n h.1 e
replay-append (broken ∷ lines) more tail m n h e = absurd h.0
replay-append (entry rec ∷ lines) more tail m n h e =
    let (k, r, rest) = >>=-eq-ok (replay_rec rec m) (replay lines clean) e in
    rw r (replay-append lines more tail k n h.1 rest)

pub replay-tail :
    (lines : List Line) (tail : Tail) (m n : Loaded)
    → All IsWhole lines
    → replay lines clean m ≡ ok n
    → replay lines tail m ≡ replay [] tail n
replay-tail lines tail m n h e =
    subst (λ ls. replay ls tail m ≡ replay [] tail n) (append-nil lines)
      (replay-append lines [] tail m n h e)

abbrev pub new_rec : ℕ → Kind → Text → ℕ → Source → Rec
new_rec seq kind key d src = record {
  seq = some (suc seq);
  op = some kind;
  p = some key;
  d = some d;
  src = src;
}

module _ (seq : ℕ) (ops : Ops) (ids ids' : Dict Text) (kind : Kind) (key : Text) (d : ℕ)
    (src : Source) (bound : SeqBelow seq ops) (named : (key == []) ≡ false)
    (sourced : source key kind src ids ≡ ok ids') where
  abbrev before : Loaded
  before = record { ops = ops; write_payloads = ids; best_seq = seq }

  abbrev pub after : Loaded
  after = record {
    ops = insert key (record { seq = suc seq; kind = kind; d = d }) ops;
    write_payloads = ids';
    best_seq = suc seq;
  }

  current : (o : Option Op) → lookup key ops ≡ o → is_current (new_rec seq kind key d src) o ≡ true
  current none e = refl
  current (some op) e = ground (arith, SeqBelow-lookup seq ops key op bound e)

  -- The record of the next operation is taken as it was written.
  pub replay_rec-new : replay_rec (new_rec seq kind key d src) before ≡ ok after
  unfolding replay_rec replace_op
  replay_rec-new = rw (named, current (lookup key ops) refl, sourced) (ground arith)
