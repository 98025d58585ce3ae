-- ===== src/Core/Commit/Local.antt =====
-- A commit changes nothing beside the paths of its operations and the directories above them.
use mathlib.Core.Path.{subst}
use mathlib.Core.List.{append_assoc}
use userfreezer.Prelude.{
  ℕ, ◌≡◌, refl, sym, ap, ◌∙◌, Bool, true, false, Option, none, some, List, [], ◌∷◌, ◌++◌, All, inl,
  inr, arith, not, nat_eq, leb, Bool-cases,
}
use userfreezer.Prelude.Text.{Text, eq-false}
use userfreezer.Prelude.Text.Split.{Apart}
use userfreezer.Core.Types.{Kind, written, made, deleted, unknown, Op, Ops}
use userfreezer.Core.Outcome.{Result, ok, err, ◌>>=◌}
use userfreezer.Core.RelPath.{commit_parts}
use userfreezer.Core.Commit.{
  Node, file, directory, link, Tree, same_path, is_under, put, clear, check_commit_path, Step,
  enter, open_parent, replace_file, make_directory, delete, change, is_creating, checked_change,
  with_parent, commit_posix, Prepared, prepare, then_commit, commit_one, commit_checked,
  commit_prepared, known_kind, insert_op, commit_all, by_seq, apply_commit,
}

same_path-Apart : (here rest q : List Text) → Apart (here ++ rest) q → same_path here q ≡ false
unfolding same_path
same_path-Apart [] [] q h = absurd h
same_path-Apart [] (r ∷ rest) [] h = absurd h
same_path-Apart [] (r ∷ rest) (y ∷ ys) h = refl
same_path-Apart (x ∷ xs) rest [] h = refl
same_path-Apart (x ∷ xs) rest (y ∷ ys) (inl ne) = rw (eq-false x y ne)
same_path-Apart (x ∷ xs) rest (y ∷ ys) (inr h) = ground (arith, same_path-Apart xs rest ys h)

is_under-Apart : (parts q : List Text) → Apart parts q → is_under parts q ≡ false
unfolding is_under
is_under-Apart [] q h = absurd h
is_under-Apart (x ∷ xs) [] h = refl
is_under-Apart (x ∷ xs) (y ∷ ys) (inl ne) = rw (eq-false x y ne)
is_under-Apart (x ∷ xs) (y ∷ ys) (inr h) = ground (arith, is_under-Apart xs ys h)

-- A step that leaves the node at one path as it was.
abbrev pub Spares : List Text → Step → Type 0
Spares q step = (t : Tree) → (step t).1 q ≡ t q

module _ (q : List Text) where
  put-Spares :
      (here rest : List Text) (n : Node) (t : Tree) → Apart (here ++ rest) q → put here n t q ≡ t q
  put-Spares here rest n t h = rw (same_path-Apart here rest q h)

  enter-Spares :
      (create : Bool) (here rest : List Text) (next : Step) (n : Option Node)
      → Apart (here ++ rest) q
      → Spares q next
      → Spares q (enter create here next n)
  enter-Spares create here rest next (some directory) h k t = k t
  enter-Spares true here rest next none h k t =
      k (put here directory t) ∙ put-Spares here rest directory t h
  enter-Spares false here rest next none h k t = refl
  enter-Spares create here rest next (some (file b)) h k t = refl
  enter-Spares create here rest next (some link) h k t = refl

  open_parent-Spares :
      (create : Bool) (at parts : List Text)
      → Apart (at ++ parts) q
      → Spares q (open_parent create at parts)
  unfolding open_parent
  open_parent-Spares create at [] h t = refl
  open_parent-Spares create at (p ∷ []) h t = refl
  open_parent-Spares create at (p ∷ (r ∷ rest)) h t =
      let here = at ++ (p ∷ []) in
      let apart : Apart (here ++ (r ∷ rest)) q =
        subst (λ l. Apart l q) (sym (append_assoc at (p ∷ []) (r ∷ rest))) h in
      enter-Spares create here (r ∷ rest) (open_parent create here (r ∷ rest)) (t here) apart
        (open_parent-Spares create here (r ∷ rest) apart) t

  module _ (parts : List Text) (apart : Apart parts q) where
    put_here : (n : Node) (t : Tree) → put parts n t q ≡ t q
    put_here n t = put-Spares parts [] n t (subst (λ l. Apart l q) (sym (append-nil parts)) apart)
      where
        append-nil : (xs : List Text) → xs ++ [] ≡ xs
        append-nil [] = refl
        append-nil (x ∷ xs) = ap (λ l. x ∷ l) (append-nil xs)

    clear_here : (t : Tree) → clear parts t q ≡ t q
    clear_here t = rw (is_under-Apart parts q apart)

    replace_file-Spares : (bytes : Text) (n : Option Node) → Spares q (replace_file parts bytes n)
    replace_file-Spares bytes none t = put_here (file bytes) t
    replace_file-Spares bytes (some directory) t = refl
    replace_file-Spares bytes (some (file b)) t = put_here (file bytes) t
    replace_file-Spares bytes (some link) t = put_here (file bytes) t

    make_directory-Spares : (n : Option Node) → Spares q (make_directory parts n)
    make_directory-Spares none t = put_here directory t
    make_directory-Spares (some directory) t = refl
    make_directory-Spares (some (file b)) t = refl
    make_directory-Spares (some link) t = refl

    delete-Spares : (is_dir : Bool) (n : Option Node) → Spares q (delete parts is_dir n)
    delete-Spares is_dir none t = refl
    delete-Spares true (some directory) t = clear_here t
    delete-Spares true (some (file b)) t = refl
    delete-Spares true (some link) t = refl
    delete-Spares false (some directory) t = refl
    delete-Spares false (some (file b)) t = clear_here t
    delete-Spares false (some link) t = clear_here t

    change-Spares :
        (kind : Kind) (d : ℕ) (bytes : Option Text) → Spares q (change parts kind d bytes)
    change-Spares written d none t = refl
    change-Spares written d (some bytes) t = replace_file-Spares bytes (t parts) t
    change-Spares made d bytes t = make_directory-Spares (t parts) t
    change-Spares deleted d bytes t = delete-Spares (not (nat_eq d 0)) (t parts) t
    change-Spares (unknown k) d bytes t = refl

    checked-Spares :
        (kind : Kind) (d : ℕ) (bytes : Option Text) (r : Result (Unit {0}))
        → Spares q (checked_change parts kind d bytes r)
    checked-Spares kind d bytes (err e) t = refl
    checked-Spares kind d bytes (ok u) t = change-Spares kind d bytes t

    with_parent-Spares :
        (kind : Kind) (d : ℕ) (bytes : Option Text) (x : Result (Unit {0}) × Tree)
        → (with_parent parts kind d bytes x).1 q ≡ x.1 q
    with_parent-Spares kind d bytes (err e, t) = ground arith
    with_parent-Spares kind d bytes (ok u, t) =
        checked-Spares kind d bytes (check_commit_path t parts) t

    commit_posix-Spares :
        (kind : Kind) (d : ℕ) (bytes : Option Text) → Spares q (commit_posix parts kind d bytes)
    unfolding commit_posix
    commit_posix-Spares kind d bytes t =
        with_parent-Spares kind d bytes (open_parent (is_creating kind) [] parts t)
        ∙ open_parent-Spares (is_creating kind) [] parts apart t

    commit_checked-Spares :
        (kind : Kind) (d : ℕ) (bytes : Option Text) (r : Result (Unit {0}))
        → Spares q (commit_checked (record { parts = parts; kind = kind; d = d; bytes = bytes }) r)
    commit_checked-Spares kind d bytes (err e) t = refl
    commit_checked-Spares kind d bytes (ok u) t = commit_posix-Spares kind d bytes t

  then_commit-Spares :
      (x : Result (Unit {0}) × Tree) (next : Step)
      → Spares q next
      → (then_commit x next).1 q ≡ x.1 q
  then_commit-Spares (err e, t) next h = refl
  then_commit-Spares (ok u, t) next h = h t

  commit_all-Spares :
      (ps : List Prepared) → All (λ p. Apart p.parts q) ps → Spares q (commit_all ps)
  unfolding commit_all
  commit_all-Spares [] h t = refl
  commit_all-Spares (p ∷ ps) h t =
      then_commit-Spares (commit_one p t) (commit_all ps) (commit_all-Spares ps h.1)
      ∙ commit_checked-Spares p.parts h.0 p.kind p.d p.bytes (check_commit_path t p.parts) t

  abbrev pub PartsApart : Result (List Text) → Type 0
  PartsApart (ok parts) = Apart parts q
  PartsApart (err e) = Unit

  -- The operations of an overlay whose paths all part from `q`.
  abbrev pub AllApart : Ops → Type 0
  AllApart ops = All (λ e. PartsApart (commit_parts e.0)) ops

  insert_op-AllApart :
      (e : Text × Op) (ops : Ops)
      → PartsApart (commit_parts e.0)
      → AllApart ops
      → AllApart (insert_op e ops)
  unfolding insert_op
  insert_op-AllApart e [] h k = (h, tt)
  insert_op-AllApart e (f ∷ ops) h k = elim (Bool-cases (leb e.1.seq f.1.seq)) [
    | inl y ↦ rw y (h, k)
    | inr n ↦ rw n (k.0, insert_op-AllApart e ops h k.1)
  ]

  by_seq-AllApart : (ops : Ops) → AllApart ops → AllApart (by_seq ops)
  unfolding by_seq
  by_seq-AllApart [] h = tt
  by_seq-AllApart (e ∷ ops) h = insert_op-AllApart e (by_seq ops) h.0 (by_seq-AllApart ops h.1)

  -- The outcome of the first loop keeps apart.
  abbrev PreparedApart : Result (List Prepared) → Type 0
  PreparedApart (err e) = Unit
  PreparedApart (ok ps) = All (λ p. Apart p.parts q) ps

  module _ (payload : Text → Option Text) (t : Tree) where
    one-Apart :
        (rel : Text) (op : Op) (known : Result (Unit {0})) (parts : Result (List Text))
        (free : List Text → Result (Unit {0})) (rest : Result (List Prepared))
        → PartsApart parts
        → PreparedApart rest
        → PreparedApart (
            known >>= λ k. parts >>= λ ps. free ps >>= λ f. rest >>= λ l.
            ok (record { parts = ps; kind = op.kind; d = op.d; bytes = payload rel } ∷ l))
    one-Apart rel op (err e) parts free rest h k = tt
    one-Apart rel op (ok u) (err e) free rest h k = tt
    one-Apart rel op (ok u) (ok ps) free rest h k =
        elim (free ps)
          as (λ (f : Result (Unit {0})). PreparedApart (
            f >>= λ f. rest >>= λ l.
            ok (record { parts = ps; kind = op.kind; d = op.d; bytes = payload rel } ∷ l))) [
              | err e ↦ tt
              | ok v ↦ joined rest k
            ]
      where
        joined :
            (rest : Result (List Prepared))
            → PreparedApart rest
            → PreparedApart (
                rest >>= λ l.
                ok (record { parts = ps; kind = op.kind; d = op.d; bytes = payload rel } ∷ l))
        joined (err e) k = tt
        joined (ok l) k = (h, k)

    prepare-Apart : (ops : Ops) → AllApart ops → PreparedApart (prepare payload t ops)
    unfolding prepare
    prepare-Apart [] h = tt
    prepare-Apart ((rel, op) ∷ ops) h =
        one-Apart rel op (known_kind op.kind) (commit_parts rel) (check_commit_path t)
          (prepare payload t ops) h.0 (prepare-Apart ops h.1)

  commit_prepared-Spares :
      (ps : Result (List Prepared)) → PreparedApart ps → Spares q (commit_prepared ps)
  commit_prepared-Spares (err e) h t = refl
  commit_prepared-Spares (ok ps) h t = commit_all-Spares ps h t

  -- A commit leaves every node as it was whose path parts from the paths of all operations, whether
  -- it ends well or not.
  pub apply_commit-spares :
      (payload : Text → Option Text) (ops : Ops) (t : Tree)
      → AllApart ops
      → (apply_commit payload ops t).1 q ≡ t q
  unfolding apply_commit
  apply_commit-spares payload ops t h =
      commit_prepared-Spares (prepare payload t (by_seq ops))
        (prepare-Apart payload t (by_seq ops) (by_seq-AllApart ops h)) t
