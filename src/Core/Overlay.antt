-- ===== src/Core/Overlay.antt =====
-- deepfreezer.py: what lies on disk beside the target, `<T>.dfreezer`, and the writes to it. A file
-- appears under its name by `os.replace`, whole.
use userfreezer.Prelude.{ℕ, Bool, ◌||◌, Option, List, [], ◌∷◌, ◌++◌, any_of, if◌then◌else◌}
use userfreezer.Prelude.Text.{Text, ◌==◌, starts_with, slash}
use userfreezer.Prelude.Dict.{Dict}
use userfreezer.Core.Types.{Kind}
use userfreezer.Core.Outcome.{Result, ok, err, os_error}

-- The field "src" of a journal record.
pub data Source : Type 0 where
  absent : Source
  ident : Text → Source
  no_text : Source

-- A record as `json.loads` returns it, with the keys that the loader reads.
pub record Rec : Type 0 where
  pub seq : Option ℕ
  pub op : Option Kind
  pub p : Option Text
  pub d : Option ℕ
  pub src : Source

-- A line of journal.log, read by `line.strip()` and `json.loads`.
pub data Line : Type 0 where
  blank broken : Line
  entry : Rec → Line

-- What follows the last line end: nothing, part of a record, or a whole record whose line end is
-- missing.
pub data Tail : Type 0 where
  clean torn : Tail
  unended : Rec → Tail

pub record Journal : Type 0 where
  pub lines : List Line
  pub tail : Tail

-- An entry of the manifest, with its type 'd', 'f' or 'l'.
pub data EntryType : Type 0 where
  dir file link : EntryType

pub record Entry : Type 0 where
  pub t : EntryType
  pub size : ℕ
  pub mtime : ℕ
  pub sha256 : Option Text

pub record Manifest : Type 0 where
  pub v : ℕ
  pub root : Text
  pub frozen_at : Text
  pub entries : Dict Entry
  pub hashes : Dict Text

-- The overlay directory. `md` and `del` are the keys of their marker files, `files` the payloads of
-- journals without "src", `temps` the keys of markers that have left a temporary file beside their
-- name. `manifest` is none where the file is missing or unreadable.
pub record Overlay : Type 0 where
  pub manifest : Option Manifest
  pub journal : Journal
  pub payloads : Dict Text
  pub files : Dict Text
  pub md : List Text
  pub del : List Text
  pub temps : List Text

abbrev pub mem : Text → List Text → Bool
mem k ks = any_of (λ j. j == k) ks

-- `_put_payload` of a marker: `os.makedirs` fails where an ancestor is a file, and `os.replace`
-- where the name is a directory.
abbrev pub blocked_above : Text → List Text → Bool
blocked_above rel ks = any_of (λ k. starts_with rel (k ++ (slash ∷ []))) ks

abbrev pub marker_conflict : Text → List Text → Bool
marker_conflict rel ks =
    blocked_above rel ks || any_of (λ k. starts_with k (rel ++ (slash ∷ []))) ks

unfoldable pub put_marker : Text → List Text → Result (List Text)
put_marker rel ks =
    if marker_conflict rel ks then err os_error else if mem rel ks then ok ks else ok (rel ∷ ks)

-- A line appended to journal.log. After the rest of a torn write it makes one line that is no JSON.
unfoldable pub append : Journal → Rec → Journal
append j rec = elim j.tail [
  | clean ↦ record { lines = j.lines ++ (entry rec ∷ []); tail = clean }
  | torn ↦ record { lines = j.lines ++ (broken ∷ []); tail = clean }
  | unended r ↦ record { lines = j.lines ++ (broken ∷ []); tail = clean }
]
