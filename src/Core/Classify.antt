-- ===== src/Core/Classify.antt =====
-- deepfreezer.py: `_classify`, which decides where a path of the frozen view comes from.
pub mod Newest
pub mod Keys
pub mod Writes
pub mod Above
pub mod Elsewhere
use userfreezer.Prelude.{
  ℕ, Bool, true, false, not, ◌&&◌, ◌||◌, Option, none, some, List, [], ◌∷◌, map, foldl, ltb, any_of,
  drop_last, ◌++◌, if◌then◌else◌,
}
use userfreezer.Prelude.Text.{Text, ◌==◌, starts_with, split, join, slash}
use userfreezer.Prelude.Dict.{lookup}
use userfreezer.Core.Types.{
  Kind, made, Op, Ops, is_deleted, View, base, implicit_dir, m_dir, new, gone,
}

-- `parts[:i]` for i from 1 to len(parts)
unfoldable pub prefixes : List Text → List (List Text)
prefixes [] = []
prefixes (p ∷ ps) = (p ∷ []) ∷ map (λ q. p ∷ q) (prefixes ps)

-- `"/".join(parts[:i])` for the same i
unfoldable pub prefix_keys : List Text → List Text
unfolding prefixes
prefix_keys parts = map (join slash) (prefixes parts)

-- The covering operation with its path.
abbrev pub Covering : Type 0
Covering = Option (Op × Text)

-- The body of the loop: a strictly newer operation replaces the one held.
abbrev pub keep_newer : Option Op → Covering → Text → Covering
keep_newer none covering key = covering
keep_newer (some rec) none key = some (rec, key)
keep_newer (some rec) (some (held, path)) key =
    if ltb held.seq rec.seq then some (rec, key) else some (held, path)

unfoldable pub cover_step : Ops → Covering → Text → Covering
cover_step ops covering key = keep_newer (lookup key ops) covering key

unfoldable pub cover : Ops → List Text → Covering
unfolding cover_step prefix_keys
cover ops parts = foldl (cover_step ops) none (prefix_keys parts)

abbrev pub anchor_seq : Covering → ℕ
anchor_seq none = 0
anchor_seq (some (op, path)) = op.seq

-- Some proper ancestor of the child has a newer operation.
abbrev pub newer_than : ℕ → Option Op → Bool
newer_than seq none = false
newer_than seq (some parent) = ltb seq parent.seq

unfoldable pub shadowed : Ops → Text → ℕ → Bool
shadowed ops child seq =
    any_of (λ key. newer_than seq (lookup key ops)) (drop_last (prefix_keys (split slash child)))

unfoldable pub live_child : Ops → Text → ℕ → Text × Op → Bool
live_child ops prefix anchor (child, op) =
    starts_with child prefix
    && not (is_deleted op.kind)
    && ltb anchor op.seq
    && not (shadowed ops child op.seq)

unfoldable pub has_live_child : Ops → Text → ℕ → Bool
unfolding live_child
has_live_child ops full anchor = any_of (live_child ops (full ++ (slash ∷ [])) anchor) ops

abbrev pub own : Kind → Bool → View
own Kind.deleted live = if live then implicit_dir else View.deleted
own made live = m_dir
own _ live = if live then implicit_dir else new

-- The returns at the end of `_classify`.
abbrev pub verdict : Covering → Text → Bool → View
verdict none full live = if live then implicit_dir else base
verdict (some (op, path)) full live =
    if path == full then own op.kind live else if live then implicit_dir else gone

unfoldable pub classify : Ops → List Text → View
classify ops [] = base
classify ops (p ∷ ps) =
    let parts = p ∷ ps in
    let full = join slash parts in
    let covering = cover ops parts in
    verdict covering full (has_live_child ops full (anchor_seq covering))
