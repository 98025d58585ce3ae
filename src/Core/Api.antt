-- ===== src/Core/Api.antt =====
-- deepfreezer.py: the operations on the frozen view, from `write` to `verify`. The target is the tree
-- on disk as the system shows it; no operation here writes to it.
use userfreezer.Prelude.{
  ℕ, ◌+◌, Bool, true, false, Option, none, some, List, [], ◌∷◌, if◌then◌else◌, length,
}
use userfreezer.Prelude.Text.{Text, join, slash}
use userfreezer.Prelude.Dict.{Dict, lookup, insert}
use userfreezer.Core.Types.{Kind, written, made, View, base, implicit_dir, m_dir, new, gone}
use userfreezer.Core.Outcome.{Result, ok, err, deep_freeze, file_not_found, is_a_directory, ◌>>=◌}
use userfreezer.Core.RelPath.{norm}
use userfreezer.Core.PayloadId.{payload_id}
use userfreezer.Core.Overlay.{absent, ident, Overlay}
use userfreezer.Core.Classify.{classify}
use userfreezer.Core.Instance.{
  DeepFreezer, Method, raised, require_frozen, with_overlay, put_payload, put_md, put_del, journal,
  set_op, Storing, stored, placed, after_journal, after_marker, temp_left, md_of, del_of,
}

-- The target as `os.path` and `open` show it, by the components below the target.
pub record Target : Type 0 where
  pub is_file : List Text → Bool
  pub is_dir : List Text → Bool
  pub exists : List Text → Bool
  pub contents : List Text → Text
  pub stat_size : List Text → Option ℕ
  pub scan : List Text → List Text
  pub sha256 : List Text → Text

-- A raise of a computation without effects.
abbrev pub run : {A B : Type 0} → Result A → (A → Method B) → Method B
run (ok a) f s = f a s
run (err e) f s = (err e, s)

abbrev pub key_of : List Text → Text
key_of parts = join slash parts

-- The body of `write`, for a path that is not the root.
unfoldable pub write_at_with : Storing → List Text → Text → Method (Unit {0})
write_at_with io parts bytes s =
    let key = key_of parts in
    let id = payload_id (s.seq + 1) in
    run (placed io (with_overlay s.disk.overlay (λ o. ok (put_payload id bytes o))))
      (λ o t. after_journal (journal io written key 0 (ident id) o t) (λ t₁.
        let t₂ = set_op key written 0 t₁ in
        record t₂ { write_payloads = insert key id t₂.write_payloads }))
      s

abbrev pub write_parts_with : Storing → List Text → Text → Method (Unit {0})
write_parts_with io [] bytes = raised (deep_freeze "caminho relativo invalido")
write_parts_with io (p ∷ ps) bytes = write_at_with io (p ∷ ps) bytes

unfoldable pub write_with : Storing → Text → Text → Method (Unit {0})
write_with io rel bytes s =
    run (do ready ← require_frozen s; norm rel) (λ parts. write_parts_with io parts bytes) s

-- The operations where all that they write is stored.
abbrev pub write_at : List Text → Text → Method (Unit {0})
write_at parts bytes = write_at_with stored parts bytes

abbrev pub write_parts : List Text → Text → Method (Unit {0})
write_parts parts bytes = write_parts_with stored parts bytes

abbrev pub write : Text → Text → Method (Unit {0})
write rel bytes = write_with stored rel bytes

-- `open(...).read()` of a file that should be there
abbrev pub content_of : Option Text → Result Text
content_of none = err file_not_found
content_of (some bytes) = ok bytes

-- `_payload_path`, which is below payloads/ with an ID and below files/ without, and its content
abbrev pub payload_at : Option Text → Overlay → Text → Result Text
payload_at none o rel = content_of (lookup rel o.files)
payload_at (some id) o rel = content_of (lookup id o.payloads)

unfoldable pub read_payload : Dict Text → Overlay → Text → Result Text
read_payload ids o rel = payload_at (lookup rel ids) o rel

module _ (T : Target) where
  abbrev pub read_as : DeepFreezer → List Text → View → Result Text
  read_as s parts new =
      with_overlay s.disk.overlay (λ o. read_payload s.write_payloads o (key_of parts))
  read_as s parts base = if T.is_file parts then ok (T.contents parts) else err file_not_found
  read_as s parts _ = err file_not_found

  unfoldable pub read : Text → DeepFreezer → Result Text
  read rel s = do ready ← require_frozen s; parts ← norm rel; read_as s parts (classify s.ops parts)

  -- What `mkdirs` finds already there.
  abbrev pub is_made : List Text → View → Bool
  is_made parts m_dir = true
  is_made parts implicit_dir = true
  is_made parts base = T.is_dir parts
  is_made parts _ = false

  unfoldable pub make_at_with : Storing → List Text → Method (Unit {0})
  make_at_with io parts s =
      let key = key_of parts in
      after_marker (placed io (with_overlay s.disk.overlay (put_md key))) (temp_left io key md_of s)
        (λ o. after_journal (journal io made key 1 absent o s) (set_op key made 1))

  abbrev pub make_parts_with : Storing → List Text → Method (Unit {0})
  make_parts_with io parts s =
      if is_made parts (classify s.ops parts) then (ok tt, s) else make_at_with io parts s

  unfoldable pub mkdirs_with : Storing → Text → Method (Unit {0})
  mkdirs_with io rel s = run (do ready ← require_frozen s; norm rel) (make_parts_with io) s

  abbrev pub make_at : List Text → Method (Unit {0})
  make_at parts = make_at_with stored parts

  abbrev pub mkdirs : Text → Method (Unit {0})
  mkdirs rel = mkdirs_with stored rel

  abbrev pub exists_as : List Text → View → Bool
  exists_as parts base = T.exists parts
  exists_as parts View.deleted = false
  exists_as parts gone = false
  exists_as parts _ = true

  unfoldable pub exists : Text → DeepFreezer → Result Bool
  exists rel s = do
    ready ← require_frozen s
    parts ← norm rel
    ok (exists_as parts (classify s.ops parts))

  abbrev pub is_dir_as : List Text → View → Bool
  is_dir_as parts base = T.is_dir parts
  is_dir_as parts m_dir = true
  is_dir_as parts implicit_dir = true
  is_dir_as parts _ = false

  unfoldable pub is_dir : Text → DeepFreezer → Result Bool
  is_dir rel s = do
    ready ← require_frozen s
    parts ← norm rel
    ok (is_dir_as parts (classify s.ops parts))

  unfoldable pub remove_at_with : Storing → List Text → ℕ → Method (Unit {0})
  remove_at_with io parts d s =
      let key = key_of parts in
      after_marker (placed io (with_overlay s.disk.overlay (put_del key)))
        (temp_left io key del_of s)
        (λ o. after_journal (journal io Kind.deleted key d absent o s) (set_op key Kind.deleted d))

  abbrev pub remove_parts_with : Storing → Text → List Text → Method (Unit {0})
  remove_parts_with io rel [] s = raised (deep_freeze "nao se remove a raiz") s
  remove_parts_with io rel (p ∷ ps) s =
      run (is_dir rel s) (λ d. remove_at_with io (p ∷ ps) (if d then 1 else 0)) s

  unfoldable pub remove_with : Storing → Text → Method (Unit {0})
  remove_with io rel s = run (do ready ← require_frozen s; norm rel) (remove_parts_with io rel) s

  abbrev pub remove_at : List Text → ℕ → Method (Unit {0})
  remove_at parts d = remove_at_with stored parts d

  abbrev pub remove : Text → Method (Unit {0})
  remove rel = remove_with stored rel

  abbrev pub size_as : DeepFreezer → List Text → View → Result ℕ
  size_as s parts new = do
    bytes ← with_overlay s.disk.overlay (λ o. read_payload s.write_payloads o (key_of parts))
    ok (length bytes)
  size_as s parts base = elim (T.stat_size parts) [ none ↦ err file_not_found | some n ↦ ok n ]
  size_as s parts m_dir = err is_a_directory
  size_as s parts implicit_dir = err is_a_directory
  size_as s parts _ = err file_not_found

  unfoldable pub size : Text → DeepFreezer → Result ℕ
  size rel s = do ready ← require_frozen s; parts ← norm rel; size_as s parts (classify s.ops parts)
