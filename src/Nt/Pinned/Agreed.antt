-- ===== src/Nt/Pinned/Agreed.antt =====
-- The entries that the reconciliation returns pass the checks of the plan that is made of them.
use userfreezer.Prelude.{
  ℕ, ◌≤◌, ◌≡◌, true, ◌&&◌, Option, List, leb, nat_eq, nat_eq_iff, length, arith, and-eq-true,
}
use userfreezer.Prelude.Text.{Text, ◌==◌}
use userfreezer.Prelude.Dict.{Dict}
use userfreezer.Prelude.Json.{Json}
use userfreezer.Core.Types.{Ops}
use userfreezer.Core.Outcome.{ok, >>=-eq-ok}
use userfreezer.Core.Journal.{Loaded, start}
use userfreezer.Core.Commit.{by_seq}
use userfreezer.Nt.Bridge.{Entry}
use userfreezer.Nt.Root.{canonical_root}
use userfreezer.Nt.Pinned.{
  owned_by, ends_line, splitlines, same_dict, same_op, take_lines, require, entries_of, computed,
  parse_pinned_metadata,
}
use userfreezer.Nt.Pinned.Loop.{require-ok}

module _ (loads : Text → Option Json) (normcase : Text → Text) (manifest journal root : Text) where
  -- The loop that gave what was computed.
  pub computed-lines :
      (m : Loaded)
      → computed loads normcase manifest journal root ≡ ok m
      → (raws : List Text) × (length raws ≤ 10000) × (take_lines loads raws start ≡ ok m)
  unfolding computed
  computed-lines m h =
      let (canonical, c0, h1) = >>=-eq-ok (canonical_root normcase root) _ h in
      let (owned, o0, h2) = >>=-eq-ok (owned_by loads normcase canonical (loads manifest)) _ h1 in
      let (whole, w0, h3) = >>=-eq-ok (require (ends_line journal)) _ h2 in
      let (short, s0, h4) = >>=-eq-ok (require (leb (length (splitlines journal)) 10000)) _ h3 in
      (splitlines journal, ground (arith, require-ok _ short s0), h4)

  -- What is returned was computed, and equals the state of the core.
  pub parse-computed :
      (ops : Ops) (ids : Dict Text) (seq : ℕ) (entries : List Entry)
      → parse_pinned_metadata loads normcase manifest journal root ops ids seq ≡ ok entries
      → (m : Loaded) × (computed loads normcase manifest journal root ≡ ok m)
        × (m.best_seq ≡ seq)
        × (same_dict same_op m.ops ops ≡ true)
        × (same_dict ◌==◌ m.write_payloads ids ≡ true)
        × (entries_of m.write_payloads (by_seq m.ops) ≡ ok entries)
  unfolding parse_pinned_metadata
  parse-computed ops ids seq entries h =
      let (m, c, h1) = >>=-eq-ok (computed loads normcase manifest journal root) _ h in
      let (same, s, h2) =
        >>=-eq-ok
          (require (
            nat_eq m.best_seq seq
            && same_dict same_op m.ops ops
            && same_dict ◌==◌ m.write_payloads ids))
          _ h1 in
      let equal = require-ok _ same s in
      let (more, third) =
        and-eq-true (nat_eq m.best_seq seq && same_dict same_op m.ops ops) _ equal in
      let (first, second) = and-eq-true (nat_eq m.best_seq seq) _ more in
      (m, c, (nat_eq_iff m.best_seq seq).0 first, second, third, h2)
