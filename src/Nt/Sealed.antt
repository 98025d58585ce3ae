-- ===== src/Nt/Sealed.antt =====
-- nt_enrollment_experimental.py: `seal_root_identity` and `unseal_root_identity`, the record that binds a
-- root to the identity of its directory. DPAPI's `CryptProtectData` and `CryptUnprotectData` (an
-- exception as `none`), `json.dumps`, `json.loads` with distinct keys and an error as `none`, and
-- `ntpath.normcase` are parameters.
pub mod Bound
mod Examples
use userfreezer.Prelude.{
  ℕ, Bool, true, not, ◌&&◌, ◌||◌, Option, none, some, List, [], ◌∷◌, all_of, if◌then◌else◌, leb,
  ltb, nat_eq, length,
}
use userfreezer.Prelude.Text.{Text, codes, ◌==◌}
use userfreezer.Prelude.Json.{
  Json, num, str, arr, obj, Fields, field, end, mem_field, get_field, only_fields,
}
use userfreezer.Core.Outcome.{Result, ok, err, os_error, type_error, ◌>>=◌}
use userfreezer.Plan.{invalid}
use userfreezer.Nt.Root.{canonical_root}
use userfreezer.Nt.Pinned.{as_text, as_nat, require}
use userfreezer.Nt.Identity.{checked_identity, numbers, as_numbers}

abbrev pub max_blob : ℕ
max_blob = 16384

abbrev pub max_record : ℕ
max_record = 4096

abbrev pub is_ascii : ℕ → Bool
is_ascii c = ltb c 128

-- `hmac.compare_digest` of two texts, which takes ASCII only
unfoldable pub compare_digest : Text → Text → Result Bool
compare_digest a b = if all_of is_ascii a && all_of is_ascii b then ok (a == b) else err type_error

abbrev pub is_field : Text → Bool
is_field k = k == codes "v" || k == codes "root" || k == codes "identity"

abbrev pub has_fields : Fields → Bool
has_fields fs =
    mem_field (codes "v") fs
    && mem_field (codes "root") fs
    && mem_field (codes "identity") fs
    && only_fields is_field fs

-- The record, with its keys sorted.
abbrev pub record_of : Text → List ℕ → Json
record_of root identity = obj (
    field (codes "identity") (arr (numbers identity))
      (field (codes "root") (str root) (field (codes "v") (num 1) end)))

-- The checks on the record that DPAPI gives back.
unfoldable pub check_record : Text → Option Json → Result (List ℕ)
check_record canonical (some (obj fs)) = do
  keys ← require (has_fields fs)
  v ← as_nat (get_field (codes "v") fs)
  one ← require (nat_eq v 1)
  root ← as_text (get_field (codes "root") fs)
  same ← compare_digest root canonical
  own ← require same
  identity ← as_numbers (get_field (codes "identity") fs)
  checked_identity identity
check_record canonical _ = invalid

abbrev pub opened : Option Text → Result Text
opened (some raw) = ok raw
opened none = err os_error

module _ (dumps : Json → Text) (normcase : Text → Text) where
  unfoldable pub seal_root_identity : (protect : Text → Result Text) → Text → List ℕ → Result Text
  seal_root_identity protect root identity = do
    canonical ← canonical_root normcase root
    checked ← checked_identity identity
    let raw = dumps (record_of canonical checked)
    small ← require (leb (length raw) max_record)
    protect raw

module _ (loads : Text → Option Json) (normcase : Text → Text) where
  unfoldable pub unseal_root_identity :
      (unprotect : Text → Option Text) → Text → Text → Result (List ℕ)
  unseal_root_identity unprotect root blob = do
    canonical ← canonical_root normcase root
    whole ← require (leb 1 (length blob) && leb (length blob) max_blob)
    raw ← opened (unprotect blob)
    small ← require (leb (length raw) max_record)
    check_record canonical (loads raw)
