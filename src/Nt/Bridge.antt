-- ===== src/Nt/Bridge.antt =====
-- nt_commit_bridge_experimental.py: `prepare_native_plan`, from entries of the core's journal to a
-- plan with its payloads. The reader of payloads is a parameter: it is given the source of an entry
-- and how many bytes it may return. The tests of the types of the arguments are not modelled.
pub mod Bounds
pub mod Total
use Prim.Native.Nat.{min}
use userfreezer.Prelude.{
  ℕ, ◌+◌, ◌-◌, ◌*◌, Bool, true, false, not, ◌&&◌, ◌||◌, Option, none, some, List, [], ◌∷◌, map,
  if◌then◌else◌, ltb, leb, nat_eq, length,
}
use userfreezer.Prelude.Text.{Text, codes, ◌==◌, join, slash}
use userfreezer.Core.Outcome.{Result, ok, err, ◌>>=◌}
use userfreezer.Plan.{invalid, Item, validate_plan}

-- (parts, kind, is_dir, source)
pub record Entry : Type 0 where
  pub parts : List Text
  pub kind : Text
  pub is_dir : ℕ
  pub source : Option Text

-- (native_kind, relative, source)
pub record Meta : Type 0 where
  pub kind : Text
  pub path : Text
  pub source : Option Text

abbrev pub is_given : Option Text → Bool
is_given none = false
is_given (some source) = not (source == [])

abbrev pub is_none : Option Text → Bool
is_none none = true
is_none (some source) = false

-- The kind of an entry in a native plan.
unfoldable pub native_kind : Text → ℕ → Option Text → Result Text
native_kind kind is_dir source =
    if kind == codes "W"
    then (if nat_eq is_dir 0 && is_given source then ok (codes "W") else invalid)
    else if kind == codes "M"
    then (if nat_eq is_dir 1 && is_none source then ok (codes "M") else invalid)
    else if kind == codes "D"
    then (if is_none source then ok (if nat_eq is_dir 0 then codes "F" else codes "D") else invalid)
    else invalid

abbrev pub is_empty : List Text → Bool
is_empty [] = true
is_empty (p ∷ ps) = false

unfoldable pub read_entry : Entry → Result Meta
read_entry e =
    if is_empty e.parts || ltb 1 e.is_dir
    then invalid
    else native_kind e.kind e.is_dir e.source >>= λ kind.
        ok (record { kind = kind; path = join slash e.parts; source = e.source })

-- The first loop.
unfoldable pub read_entries : List Entry → Result (List Meta)
read_entries [] = ok []
read_entries (e ∷ es) = do meta ← read_entry e; rest ← read_entries es; ok (meta ∷ rest)

-- `b"" if kind == "W" else None`
abbrev pub blank_payload : Text → Option Text
blank_payload kind = if kind == codes "W" then some [] else none

abbrev pub blank_item : Meta → Item
blank_item meta = record { kind = meta.kind; path = meta.path; payload = blank_payload meta.kind }

-- All entries, checked before the first payload is read.
unfoldable pub preflight : List Entry → Result (List Meta)
preflight entries =
    if ltb 10000 (length entries)
    then invalid
    else read_entries entries >>= λ metadata.
        validate_plan (map blank_item metadata) >>= λ checked. ok metadata

abbrev pub mebi : ℕ
mebi = 1024 * 1024

abbrev pub within_limits : ℕ → ℕ → Bool
within_limits max_payload max_total =
    leb 1 max_payload && leb max_payload (16 * mebi) && leb 1 max_total && leb max_total (64 * mebi)

module _ (payload_loader : Option Text → ℕ → Result Text) (max_payload max_total : ℕ) where
  -- One payload, after `total` bytes.
  unfoldable pub load_one : ℕ → Option Text → Result Text
  load_one total source = payload_loader source (min max_payload (max_total - total)) >>= λ payload.
      if ltb max_payload (length payload) || ltb max_total (total + length payload)
      then invalid
      else ok payload

  -- The second loop.
  unfoldable pub load_all : ℕ → List Meta → Result (List Item)
  load_all total [] = ok []
  load_all total (meta ∷ metadata) =
      if meta.kind == codes "W"
      then (load_one total meta.source >>= λ payload.
          load_all (total + length payload) metadata >>= λ rest.
          ok (record { kind = meta.kind; path = meta.path; payload = some payload } ∷ rest))
      else (load_all total metadata >>= λ rest.
          ok (record { kind = meta.kind; path = meta.path; payload = none } ∷ rest))

  unfoldable pub prepare_native_plan : List Entry → Result (List Item)
  prepare_native_plan entries =
      if within_limits max_payload max_total
      then (preflight entries >>= λ metadata.
          load_all 0 metadata >>= λ plan. validate_plan plan >>= λ checked. ok plan)
      else invalid
