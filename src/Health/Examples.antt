-- ===== src/Health/Examples.antt =====
-- A summary of two targets, one of them healthy.
use userfreezer.Prelude.{◌≡◌, not, ◌&&◌, ◌||◌, Option, none, some, List, [], ◌∷◌, any_of, all_of}
use userfreezer.Prelude.Text.{Text, codes}
use userfreezer.Health.{health_summary, health_summary-state, is_healthy, is_error, is_good, is_set}

abbrev two : List (Option Text)
two = some (codes "healthy") ∷ (none ∷ [])

health_summary-state_example :
    let s = (health_summary two none).state in
    (is_healthy s ≡ (not (is_set none) && any_of is_good two && all_of is_good two))
    × (is_error s ≡ (is_set none || not (any_of is_good two)))
health_summary-state_example = health_summary-state two none
