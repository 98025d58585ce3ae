-- ===== src/Release/Examples.antt =====
-- A record that is accepted.
use userfreezer.Prelude.{◌≡◌, refl, true, Option, some, ◌++◌, String}
use userfreezer.Prelude.Text.{Text, codes, ◌==◌}
use userfreezer.Prelude.Json.{
  Json, bool, num, str, arr, obj, item, nil, field, end, mem_field, get_field, only_fields,
  is_unique,
}
use userfreezer.Core.Outcome.{ok}
use userfreezer.Release.Gate.{
  texts, drop_prefix, comment_url, distinct, check_issue, check_issues, check_review,
  validate_v020_acceptance, main, read_manifest,
}
use userfreezer.Release.Gate.Accepted.{IsAccepted, main-IsAccepted}

abbrev link : String → Json
link issue = str (
    codes "https://github.com/c1c3ru/userfreezer/issues/"
    ++ (codes issue ++ codes "#issuecomment-7"))

abbrev verified : String → Json
verified issue = obj (
    field (codes "state") (str (codes "verified"))
      (field (codes "evidence") (arr (item (link issue) nil)) end))

abbrev accepted : Json
accepted = obj (
    field (codes "schema") (num 1) (
      field (codes "version") (str (codes "0.2.0")) (
        field (codes "issues")
          (obj (
            field (codes "63") (verified "63") (
              field (codes "49") (verified "49")
                (field (codes "54") (verified "54") (field (codes "56") (verified "56") end)))))
          (field (codes "review")
            (obj (
              field (codes "approved") (bool true) (
                field (codes "reviewer") (str (codes "ana"))
                  (field (codes "approval_url") (link "63") end))))
            end))))

abbrev loads : Text → Option Json
loads raw = some accepted

passes : main loads (codes "0.2.0") (codes "x") ≡ 0
unfolding main validate_v020_acceptance check_issues check_issue check_review texts drop_prefix
    comment_url distinct mem_field get_field only_fields is_unique ◌==◌
passes = refl

main-IsAccepted_example :
    (record_ : Json) × (read_manifest loads (codes "x") ≡ ok record_) × IsAccepted record_
main-IsAccepted_example = main-IsAccepted loads (codes "x") passes
