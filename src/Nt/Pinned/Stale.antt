-- ===== src/Nt/Pinned/Stale.antt =====
-- Payload IDs of paths whose current operation is no write.
use userfreezer.Prelude.{
  ℕ, ◌≡◌, refl, Bool, true, false, Option, none, some, List, [], ◌∷◌, arith, and-eq-true,
  Bool-cases, inl, inr, Option-cases, if◌then◌else◌,
}
use userfreezer.Prelude.Text.{Text, codes, ◌==◌, eq_iff, eq→path, join, slash}
use userfreezer.Prelude.Dict.{Dict, lookup, insert, lookup-insert, lookup-erase}
use userfreezer.Prelude.Json.{Json, Fields, get_field, str}
use userfreezer.Core.Types.{Kind, written, made, deleted, unknown, Op, Ops}
use userfreezer.Core.Outcome.{ok, >>=-eq-ok, ok-injective}
use userfreezer.Core.Journal.{Loaded, start}
use userfreezer.Nt.Bridge.{Entry}
use userfreezer.Core.RelPath.{norm}
use userfreezer.Core.Overlay.{Overlay, put_marker}
use userfreezer.Core.Instance.{DeepFreezer, directory}
use userfreezer.Core.Api.{Target, is_dir_as}
use userfreezer.Core.Classify.{classify}
use mathlib.Core.Path.{subst}
use userfreezer.Core.Invariant.{IsReady}
use userfreezer.Core.Invariant.Marking.{marked_state, removed_overlay}
use userfreezer.Nt.Pinned.{
  take_source, take_value, take_lines, kind_name, included, same_op, parse_pinned_metadata,
}
use userfreezer.Nt.Pinned.Loop.{IsTaken, take_value-cases}
use userfreezer.Nt.Pinned.Agreed.{parse-computed, computed-lines}

abbrev pub is_write : Option Op → Bool
is_write none = false
is_write (some op) = kind_name op.kind == codes "W"

-- Every payload ID belongs to a path whose newest operation is a write.
abbrev IsOwned : Loaded → Type 0
IsOwned m = (k id : Text) → lookup k m.write_payloads ≡ some id → is_write (lookup k m.ops) ≡ true

owned_source :
    (kind : Kind) (rel : Text) (d : ℕ) (o : Option Json) (ids ids' : Dict Text) (ops : Ops)
    (op : Op)
    → op.kind ≡ kind
    → ((k id : Text) → lookup k ids ≡ some id → is_write (lookup k ops) ≡ true)
    → take_source kind rel d o ids ≡ ok ids'
    → (k id : Text) → lookup k ids' ≡ some id
    → is_write (lookup k (insert rel op ops)) ≡ true
unfolding take_source ◌==◌
owned_source written rel d (some (str src)) ids ids' ops op s own h k id e =
    ground (arith, own k id, lookup-insert rel k src ids, lookup-insert rel k op ops, s)
owned_source written rel d o ids ids' ops op s own h k id e = cc
owned_source made rel d none ids ids' ops op s own h k id e =
    ground (arith, own k id, lookup-erase rel k ids, lookup-insert rel k op ops, s)
owned_source made rel d (some j) ids ids' ops op s own h k id e = cc
owned_source deleted rel d none ids ids' ops op s own h k id e =
    ground (arith, own k id, lookup-erase rel k ids, lookup-insert rel k op ops, s)
owned_source deleted rel d (some j) ids ids' ops op s own h k id e = cc
owned_source (unknown t) rel d o ids ids' ops op s own h k id e = cc

take_lines-IsOwned :
    (loads : Text → Option Json) (raws : List Text) (m n : Loaded)
    → IsOwned m
    → take_lines loads raws m ≡ ok n
    → IsOwned n
unfolding take_lines
take_lines-IsOwned loads [] m n own h = rw (← ok-injective m n h) own
take_lines-IsOwned loads (raw ∷ raws) m n own h =
    let (k, one, rest) = >>=-eq-ok (take_value (loads raw) m) _ h in
    let (fs, e, t) = take_value-cases (loads raw) m k one in
    take_lines-IsOwned loads raws k n (IsOwned-taken fs m k own t) rest
  where
    IsOwned-taken : (fs : Fields) (m n : Loaded) → IsOwned m → IsTaken fs m n → IsOwned n
    IsOwned-taken fs m n own t = rw t.ends (
        owned_source t.kind t.rel t.d (get_field (codes "src") fs) m.write_payloads t.ids m.ops
          (record { seq = t.seq; kind = t.kind; d = t.d }) refl own t.sourced)

module _ {V : Type 0} (same : V → V → Bool) where
  abbrev agrees : V → Option V → Bool
  agrees v none = false
  agrees v (some w) = same v w

  included-lookup :
      (a b : Dict V) (k : Text) (v : V)
      → included same a b ≡ true
      → lookup k a ≡ some v
      → (w : V) × (lookup k b ≡ some w) × (same v w ≡ true)
  unfolding included lookup
  included-lookup [] b k v h e = cc
  included-lookup ((j, u) ∷ a) b k v h e =
      let (here, rest) = and-eq-true (agrees u (lookup j b)) _ h in
      elim (Bool-cases (j == k)) [
        | inl q ↦
            found (lookup k b) u v (subst (λ i. agrees u (lookup i b) ≡ true) (eq→path j k q) here)
              (ground (arith, rw q at e))
        | inr q ↦ included-lookup a b k v rest (rw q at e)
      ]
    where
      found :
          (o : Option V) (u v : V)
          → agrees u o ≡ true
          → u ≡ v
          → (w : V) × (o ≡ some w) × (same v w ≡ true)
      found none u v h e = cc
      found (some w) u v h e = (w, refl, rw (← e) h)

same_kind : (a b : Op) → same_op a b ≡ true → is_write (some a) ≡ true → is_write (some b) ≡ true
same_kind a b h w = ground (arith, eq_iff (kind_name a.kind) (kind_name b.kind))

included_write :
    (a b : Ops) (k : Text)
    → included same_op a b ≡ true
    → is_write (lookup k a) ≡ true
    → is_write (lookup k b) ≡ true
included_write a b k h w = elim (Option-cases (lookup k a)) [
  | inl e ↦ let no_op = rw e at w in cc
  | inr (op, e) ↦
      let (other, f, same) = included-lookup same_op a b k op h e in
      rw f (same_kind op other same (rw e at w))
]

module _ (loads : Text → Option Json) (normcase : Text → Text) (manifest journal root : Text) where
  -- Where the reconciliation accepts the state of the core, every path with a payload ID has a write
  -- as its current operation.
  pub parse_pinned_metadata-owned :
      (ops : Ops) (ids : Dict Text) (seq : ℕ) (entries : List Entry) (k id : Text)
      → parse_pinned_metadata loads normcase manifest journal root ops ids seq ≡ ok entries
      → lookup k ids ≡ some id
      → is_write (lookup k ops) ≡ true
  unfolding lookup
  parse_pinned_metadata-owned ops ids seq entries k id h e =
      let (m, c, n, so, si, listed) =
        parse-computed loads normcase manifest journal root ops ids seq entries h in
      let (raws, short, lines) = computed-lines loads normcase manifest journal root m c in
      let own = take_lines-IsOwned loads raws start m (start-IsOwned) lines in
      let (there, back) = and-eq-true (included same_op m.ops ops) _ so in
      let (mine, known) = and-eq-true (included ◌==◌ m.write_payloads ids) _ si in
      let (id', f, same) = included-lookup ◌==◌ ids m.write_payloads k id known e in
      included_write m.ops ops k there (own k id' f)
    where
      start-IsOwned : IsOwned start
      start-IsOwned k id e = cc

module _ (T : Target) (s : DeepFreezer) (o : Overlay) (rel p id : Text) (ps ks : List Text)
    (ready : IsReady s) (disk : s.disk.overlay ≡ directory o) (normed : norm rel ≡ ok (p ∷ ps))
    (free : put_marker (join slash (p ∷ ps)) o.del ≡ ok ks)
    (kept : lookup (join slash (p ∷ ps)) s.write_payloads ≡ some id) where
  abbrev d : ℕ
  d = if is_dir_as T (p ∷ ps) (classify s.ops (p ∷ ps)) then 1 else 0

  abbrev after : DeepFreezer
  after = marked_state s o [] p ps d ks (removed_overlay s o [] p ps d ks) Kind.deleted
