-- ===== src/Release/Gate/Accepted.antt =====
-- What a record that is accepted holds.
use userfreezer.Prelude.{
  ◌≡◌, refl, ap, ◌∙◌, Bool, true, false, not, ◌&&◌, ◌||◌, Option, List, [], ◌∷◌, ◌++◌, map, all_of,
  if◌then◌else◌, leb, length, arith, and-eq-true, All, any_of,
}
use userfreezer.Prelude.Text.{Text, codes, ◌==◌, eq→path}
use userfreezer.Prelude.Json.{Json, obj, Fields, get_field}
use userfreezer.Core.Outcome.{Result, ok, err, >>=-eq-ok, ok-injective}
use userfreezer.Release.Gate.{
  require, has_just, as_object, as_text, as_texts, is_state, distinct, comment_url, required,
  is_blank, check_issue, keep_blocked, check_issues, check_review, is_one, validate_v020_acceptance,
  exit_code, read_manifest, main, as_flag, is_reviewer, check_approval,
}

require-ok : (b : Bool) (u : Unit {0}) → require b ≡ ok u → b ≡ true
require-ok true u h = refl
require-ok false u h = cc

-- An issue with evidence that is verified.
pub record IsVerified (issues : Fields) (issue : Text) : Type 0 where
  pub value : Fields
  pub there : as_object (get_field issue issues) ≡ ok value
  pub verified : as_text (get_field (codes "state") value) ≡ ok (codes "verified")
  pub evidence : List Text
  pub listed : as_texts (get_field (codes "evidence") value) ≡ ok evidence
  pub filled : is_blank evidence ≡ false
  pub urls : all_of (λ v. comment_url v issue) evidence ≡ true
  pub several : distinct evidence ≡ true

check_issue-IsVerified :
    (issues : Fields) (issue : Text) → check_issue issues issue ≡ ok false → IsVerified issues issue
unfolding check_issue
check_issue-IsVerified issues issue h =
    let (value, a0, h1) = >>=-eq-ok (as_object (get_field issue issues)) _ h in
    let (k, k0, h2) = >>=-eq-ok (require (has_just ("state" ∷ "evidence" ∷ []) value)) _ h1 in
    let (state, s0, h3) = >>=-eq-ok (as_text (get_field (codes "state") value)) _ h2 in
    let (n, n0, h4) = >>=-eq-ok (require (is_state state)) _ h3 in
    let (evidence, e0, h5) = >>=-eq-ok (as_texts (get_field (codes "evidence") value)) _ h4 in
    let (d, d0, h6) = >>=-eq-ok (require (leb (length evidence) 12 && distinct evidence)) _ h5 in
    let (u, u0, h7) = >>=-eq-ok (require (all_of (λ v. comment_url v issue) evidence)) _ h6 in
    let free = ok-injective (not (state == codes "verified") || is_blank evidence) false h7 in
    let (few, apart) = and-eq-true (leb (length evidence) 12) _ (require-ok _ d d0) in
    let same : (state == codes "verified") ≡ true = ground (arith, free) in
    record {
      value = value;
      there = a0;
      verified = s0 ∙ ap (λ (t : Text). ok t) (eq→path state (codes "verified") same);
      evidence = evidence;
      listed = e0;
      filled = ground (arith, free);
      urls = require-ok _ u u0;
      several = apart;
    }

blocked-none :
    (b : Bool) (issue : Text) (rest : List Text)
    → keep_blocked b issue rest ≡ []
    → (b ≡ false) × (rest ≡ [])
blocked-none true issue rest h = cc
blocked-none false issue rest h = (refl, h)

check_issues-IsVerified :
    (issues : Fields) (names : List Text)
    → check_issues issues names ≡ ok []
    → All (IsVerified issues) names
unfolding check_issues
check_issues-IsVerified issues [] h = tt
check_issues-IsVerified issues (issue ∷ names) h =
    let (blocked, b0, h1) = >>=-eq-ok (check_issue issues issue) _ h in
    let (rest, r0, h2) = >>=-eq-ok (check_issues issues names) _ h1 in
    let (free, empty) = blocked-none blocked issue rest (ok-injective _ [] h2) in
    (
      check_issue-IsVerified issues issue (rw free at b0),
      check_issues-IsVerified issues names (rw empty at r0),
    )

-- A review that approves, signed, with a link to a comment of a required issue.
pub record IsApproved (review : Fields) : Type 0 where
  pub approved : as_flag (get_field (codes "approved") review) ≡ ok true
  pub reviewer : Text
  pub signed : as_text (get_field (codes "reviewer") review) ≡ ok reviewer
  pub handle : is_reviewer reviewer ≡ true
  pub url : Text
  pub linked : as_text (get_field (codes "approval_url") review) ≡ ok url
  pub issue_link : any_of (λ issue. comment_url url issue) (map codes required) ≡ true

check_approval-IsApproved :
    (b : Bool) (review : Fields) (u : Unit {0})
    → as_flag (get_field (codes "approved") review) ≡ ok b
    → b ≡ true
    → check_approval b review ≡ ok u
    → IsApproved review
check_approval-IsApproved false review u f t h = cc
check_approval-IsApproved true review u f t h =
    let (reviewer, r0, h1) = >>=-eq-ok (as_text (get_field (codes "reviewer") review)) _ h in
    let (url, u0, h2) = >>=-eq-ok (as_text (get_field (codes "approval_url") review)) _ h1 in
    let (handle, link) = and-eq-true (is_reviewer reviewer) _ (require-ok _ u h2) in
    record {
      approved = f;
      reviewer = reviewer;
      signed = r0;
      handle = handle;
      url = url;
      linked = u0;
      issue_link = link;
    }

check_review-IsApproved : (review : Fields) → check_review review ≡ ok true → IsApproved review
unfolding check_review
check_review-IsApproved review h =
    let (k, k0, h1) =
      >>=-eq-ok (require (has_just ("approved" ∷ "reviewer" ∷ "approval_url" ∷ []) review)) _ h in
    let (b, b0, h2) = >>=-eq-ok (as_flag (get_field (codes "approved") review)) _ h1 in
    let (u, u0, h3) = >>=-eq-ok (check_approval b review) _ h2 in
    check_approval-IsApproved b review u b0 (ok-injective b true h3) u0

-- A record that lets 0.2.0 be released.
pub record IsAccepted (record_ : Json) : Type 0 where
  pub fields : Fields
  pub whole : record_ ≡ obj fields
  pub issues : Fields
  pub there : as_object (get_field (codes "issues") fields) ≡ ok issues
  pub each : All (IsVerified issues) (map codes required)
  pub review : Fields
  pub reviewed : as_object (get_field (codes "review") fields) ≡ ok review
  pub approved : IsApproved review

append-none : (xs ys : List Text) → xs ++ ys ≡ [] → (xs ≡ []) × (ys ≡ [])
append-none [] ys h = (refl, h)
append-none (x ∷ xs) ys h = cc

approved-none :
    (b : Bool) → ◌≡◌ {A = List Text} (if b then [] else codes "review" ∷ []) [] → b ≡ true
approved-none true h = refl
approved-none false h = cc

validate-IsAccepted :
    (record_ : Json) → validate_v020_acceptance record_ ≡ ok [] → IsAccepted record_
unfolding validate_v020_acceptance
validate-IsAccepted (obj fs) h =
    let (k, k0, h1) =
      >>=-eq-ok (require (has_just ("schema" ∷ "version" ∷ "issues" ∷ "review" ∷ []) fs)) _ h in
    let (s, s0, h2) = >>=-eq-ok (require (is_one (get_field (codes "schema") fs))) _ h1 in
    let (v, v0, h3) = >>=-eq-ok (as_text (get_field (codes "version") fs)) _ h2 in
    let (w, w0, h4) = >>=-eq-ok (require (v == codes "0.2.0")) _ h3 in
    let (issues, i0, h5) = >>=-eq-ok (as_object (get_field (codes "issues") fs)) _ h4 in
    let (a, a0, h6) = >>=-eq-ok (require (has_just required issues)) _ h5 in
    let (blocked, b0, h7) = >>=-eq-ok (check_issues issues (map codes required)) _ h6 in
    let (review, r0, h8) = >>=-eq-ok (as_object (get_field (codes "review") fs)) _ h7 in
    let (approved, p0, h9) = >>=-eq-ok (check_review review) _ h8 in
    let (free, last) = append-none blocked _ (ok-injective _ [] h9) in
    record {
      fields = fs;
      whole = refl;
      issues = issues;
      there = i0;
      each = check_issues-IsVerified issues (map codes required) (rw free at b0);
      review = review;
      reviewed = r0;
      approved = check_review-IsApproved review (rw (approved-none approved last) at p0);
    }
validate-IsAccepted j h = cc

accepted-code : (r : Result (List Text)) → exit_code r ≡ 0 → r ≡ ok []
accepted-code (err e) h = absurd (omega (arith, h))
accepted-code (ok []) h = refl
accepted-code (ok (b ∷ bs)) h = absurd (omega (arith, h))

-- For version 0.2.0 the gate exits with 0 only for a file that decodes to a record in which each of the
-- required issues is verified, with distinct links to comments of that issue and at least one, and in
-- which the review approves, with a reviewer and a link to a comment of a required issue.
pub main-IsAccepted :
    (loads : Text → Option Json) (raw : Text)
    → main loads (codes "0.2.0") raw ≡ 0
    → (record_ : Json) × (read_manifest loads raw ≡ ok record_) × IsAccepted record_
unfolding main ◌==◌
main-IsAccepted loads raw h =
    let (j, one, rest) = >>=-eq-ok (read_manifest loads raw) _ (accepted-code _ h) in
    (j, one, validate-IsAccepted j rest)
