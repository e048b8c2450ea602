-- ===== src/Engine/Policy.antt =====
-- crates/engine/src/checkpoint_policy.rs; durations are numbers of nanoseconds.
use potatodb.Prelude.{
  ℕ, ◌≤◌, ◌<◌, ◌≡◌, ◌⊎◌, Bool, true, ◌&&◌, ◌||◌, not, arith, leb, ltb, ◌==◌, ◌↔◌, if◌then◌else◌,
}

unfoldable pub should_checkpoint_autocommit : Bool → ℕ → ℕ → ℕ → ℕ → Bool
should_checkpoint_autocommit force commits every elapsed interval =
    if force
    then true
    else let interval_hit = not (interval == 0) && leb interval elapsed in
      let commit_count_hit = ltb 0 every && leb every commits in interval_hit || commit_count_hit

-- A checkpoint is due exactly if it is forced, or a nonzero interval has passed, or a nonzero number
-- of commits has been reached.
should_checkpoint_autocommit_iff :
    (force : Bool) (commits every elapsed interval : ℕ)
    → (should_checkpoint_autocommit force commits every elapsed interval ≡ true) ↔ (
        (force ≡ true)
        ⊎ (((0 < interval) × (interval ≤ elapsed)) ⊎ ((0 < every) × (every ≤ commits))))
unfolding should_checkpoint_autocommit
should_checkpoint_autocommit_iff force commits every elapsed interval =
    (λ h. ground arith, λ h. ground arith)
