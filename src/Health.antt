-- ===== src/Health.antt =====
-- enforcement_health.py: the summary of an enforcement over the targets.
mod Examples
use userfreezer.Prelude.{
  ℕ, suc, ◌+◌, ◌≤◌, ◌≡◌, refl, Bool, true, false, not, ◌&&◌, ◌||◌, Option, none, some, List, [],
  ◌∷◌, any_of, all_of, if◌then◌else◌, length, nat_eq, arith,
}
use userfreezer.Prelude.Text.{Text, codes, ◌==◌}

pub data State : Type 0 where
  error degraded healthy : State

-- An item, by `item.get("state")`.
abbrev pub is_good : Option Text → Bool
is_good none = false
is_good (some state) = state == codes "healthy"

unfoldable pub count_good : List (Option Text) → ℕ
count_good [] = 0
count_good (t ∷ ts) = let rest = count_good ts in if is_good t then suc rest else rest

-- `if config_error`
abbrev pub is_set : Option Text → Bool
is_set none = false
is_set (some message) = not (message == [])

pub record Summary : Type 0 where
  pub state : State
  pub successful_targets : ℕ
  pub total_targets : ℕ

unfoldable pub health_summary : List (Option Text) → Option Text → Summary
health_summary targets config_error =
    let good = count_good targets in
    record {
      state =
          if is_set config_error || nat_eq (length targets) 0 || nat_eq good 0
          then error
          else if nat_eq good (length targets)
          then healthy
          else degraded;
      successful_targets = good;
      total_targets = length targets;
    }

count_good-bound : (ts : List (Option Text)) → count_good ts ≤ length ts
unfolding count_good
count_good-bound [] = omega arith
count_good-bound (t ∷ ts) = ground (arith, count_good-bound ts)

count_good-all : (ts : List (Option Text)) → nat_eq (count_good ts) (length ts) ≡ all_of is_good ts
unfolding count_good
count_good-all [] = refl
count_good-all (t ∷ ts) = ground (arith, count_good-all ts, count_good-bound ts)

count_good-any : (ts : List (Option Text)) → nat_eq (count_good ts) 0 ≡ not (any_of is_good ts)
unfolding count_good
count_good-any [] = refl
count_good-any (t ∷ ts) = ground (arith, count_good-any ts)

abbrev pub is_healthy : State → Bool
is_healthy healthy = true
is_healthy _ = false

abbrev pub is_error : State → Bool
is_error error = true
is_error _ = false

-- A summary is healthy exactly if there is no configuration error and there are targets, all of them
-- healthy. It is an error exactly if there is a configuration error or no target is healthy.
pub health_summary-state :
    (targets : List (Option Text)) (config_error : Option Text)
    → let s = (health_summary targets config_error).state in
      (is_healthy s
        ≡ (not (is_set config_error) && any_of is_good targets && all_of is_good targets))
      × (is_error s ≡ (is_set config_error || not (any_of is_good targets)))
unfolding health_summary
health_summary-state targets config_error = (
  ground (arith, count_good-all targets, count_good-any targets, count_good-bound targets),
  ground (arith, count_good-all targets, count_good-any targets, count_good-bound targets),
)
