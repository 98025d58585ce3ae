-- ===== src/Release/Gate.antt =====
-- packaging/release_acceptance_gate.py: `validate_v020_acceptance` and the exit code of `main`. The record
-- is a decoded JSON value whose objects repeat no key.
pub mod Accepted
use userfreezer.Prelude.{
  ℕ, Bool, true, false, not, ◌&&◌, ◌||◌, Option, none, some, List, [], ◌∷◌, ◌++◌, map, all_of,
  any_of, if◌then◌else◌, leb, length, String, nat_eq,
}
use userfreezer.Prelude.Text.{Text, codes, ◌==◌, starts_with, is_digit}
use userfreezer.Prelude.Json.{
  Json, null, bool, num, str, arr, obj, Items, nil, item, Fields, mem_field, get_field, only_fields,
  is_unique,
}
use userfreezer.Core.Outcome.{Result, ok, err, value_error, ◌>>=◌}

abbrev pub refused : {A : Type 0} → Result A
refused = err value_error

abbrev pub require : Bool → Result (Unit {0})
require true = ok tt
require false = refused

-- `set(obj) == names`
abbrev pub has_all : List Text → Fields → Bool
has_all names fs = all_of (λ n. mem_field n fs) names

abbrev pub has_just : List String → Fields → Bool
has_just names fs =
    has_all (map codes names) fs && only_fields (λ k. any_of (λ n. n == k) (map codes names)) fs

abbrev pub as_object : Option Json → Result Fields
as_object (some (obj fs)) = ok fs
as_object _ = refused

abbrev pub as_text : Option Json → Result Text
as_text (some (str s)) = ok s
as_text _ = refused

abbrev pub as_flag : Option Json → Result Bool
as_flag (some (bool b)) = ok b
as_flag _ = refused

abbrev pub is_null : Option Json → Bool
is_null (some null) = true
is_null _ = false

-- A list of texts.
unfoldable pub texts : Items → Result (List Text)
texts nil = ok []
texts (item (str s) js) = do rest ← texts js; ok (s ∷ rest)
texts (item _ js) = refused

abbrev pub as_texts : Option Json → Result (List Text)
as_texts (some (arr js)) = texts js
as_texts _ = refused

-- What follows a prefix.
unfoldable pub drop_prefix : Text → Text → Option Text
drop_prefix [] s = some s
drop_prefix (p ∷ ps) [] = none
drop_prefix (p ∷ ps) (c ∷ s) = let rest = drop_prefix ps s in if nat_eq p c then rest else none

-- `[1-9][0-9]*`
abbrev pub is_number : Option Text → Bool
is_number none = false
is_number (some []) = false
is_number (some (c ∷ s)) = leb 49 c && leb c 57 && all_of is_digit s

-- `_comment_url`
unfoldable pub comment_url : Text → Text → Bool
comment_url value issue = is_number (
    drop_prefix
      (codes "https://github.com/c1c3ru/userfreezer/issues/" ++ (issue ++ codes "#issuecomment-"))
      value)

abbrev pub required : List String
required = "63" ∷ "49" ∷ "54" ∷ "56" ∷ []

unfoldable pub distinct : List Text → Bool
distinct [] = true
distinct (v ∷ vs) = not (any_of (λ w. w == v) vs) && distinct vs

abbrev pub is_state : Text → Bool
is_state state = state == codes "pending" || state == codes "verified"

abbrev pub is_blank : List Text → Bool
is_blank [] = true
is_blank (v ∷ vs) = false

-- One turn of the loop: whether the issue is blocked.
unfoldable pub check_issue : Fields → Text → Result Bool
check_issue issues issue = do
  value ← as_object (get_field issue issues)
  keys ← require (has_just ("state" ∷ "evidence" ∷ []) value)
  state ← as_text (get_field (codes "state") value)
  known ← require (is_state state)
  evidence ← as_texts (get_field (codes "evidence") value)
  sound ← require (leb (length evidence) 12 && distinct evidence)
  urls ← require (all_of (λ v. comment_url v issue) evidence)
  ok (not (state == codes "verified") || is_blank evidence)

abbrev pub keep_blocked : Bool → Text → List Text → List Text
keep_blocked blocked issue rest = if blocked then issue ∷ rest else rest

unfoldable pub check_issues : Fields → List Text → Result (List Text)
check_issues issues [] = ok []
check_issues issues (issue ∷ more) = do
  blocked ← check_issue issues issue
  rest ← check_issues issues more
  ok (keep_blocked blocked issue rest)

-- `_REVIEWER.fullmatch`
abbrev pub is_handle : ℕ → Bool
is_handle c = (leb 65 c && leb c 90) || (leb 97 c && leb c 122) || is_digit c || nat_eq c 45

abbrev pub is_reviewer : Text → Bool
is_reviewer s = leb 1 (length s) && leb (length s) 39 && all_of is_handle s

abbrev pub check_approval : Bool → Fields → Result (Unit {0})
check_approval true review = do
  reviewer ← as_text (get_field (codes "reviewer") review)
  url ← as_text (get_field (codes "approval_url") review)
  require (is_reviewer reviewer && any_of (λ issue. comment_url url issue) (map codes required))
check_approval false review = require (
    is_null (get_field (codes "reviewer") review)
    && is_null (get_field (codes "approval_url") review))

-- Whether the review approves.
unfoldable pub check_review : Fields → Result Bool
check_review review = do
  keys ← require (has_just ("approved" ∷ "reviewer" ∷ "approval_url" ∷ []) review)
  approved ← as_flag (get_field (codes "approved") review)
  sound ← check_approval approved review
  ok approved

abbrev pub is_one : Option Json → Bool
is_one (some (num n)) = nat_eq n 1
is_one _ = false

unfoldable pub validate_v020_acceptance : Json → Result (List Text)
validate_v020_acceptance record_ = do
  fs ← as_object (some record_)
  keys ← require (has_just ("schema" ∷ "version" ∷ "issues" ∷ "review" ∷ []) fs)
  schema ← require (is_one (get_field (codes "schema") fs))
  version ← as_text (get_field (codes "version") fs)
  same ← require (version == codes "0.2.0")
  issues ← as_object (get_field (codes "issues") fs)
  all ← require (has_just required issues)
  blocked ← check_issues issues (map codes required)
  review ← as_object (get_field (codes "review") fs)
  approved ← check_review review
  ok (blocked ++ (if approved then [] else codes "review" ∷ []))

abbrev pub exit_code : Result (List Text) → ℕ
exit_code (err e) = 2
exit_code (ok []) = 0
exit_code (ok (b ∷ bs)) = 2

-- `read_manifest` of the file's bytes: `loads` is `json.loads`, with `none` for an error
abbrev pub read_manifest : (Text → Option Json) → Text → Result Json
read_manifest loads raw =
    if leb 1 (length raw) && leb (length raw) 32768
    then elim (loads raw) [ none ↦ refused | some j ↦ (if is_unique j then ok j else refused) ]
    else refused

-- `main`, for a file that can be read
unfoldable pub main : (Text → Option Json) → Text → Text → ℕ
main loads version raw =
    if version == codes "0.2.0"
    then exit_code (read_manifest loads raw >>= validate_v020_acceptance)
    else 0
