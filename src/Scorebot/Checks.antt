-- ===== src/Scorebot/Checks.antt =====
-- When the scorebot counts as healthy.
use tinyrange_ad.Common.{
  suc, List, [], ◌∷◌, ◌++◌, Option, none, some, ◌≡◌, ◌≢◌, refl, ap, length, All,
}
use tinyrange_ad.Common.Text.{Bytes, codes, eqb, eqb_ne}
use tinyrange_ad.Scorebot.{wait}

-- Wait ends with the first answer that is `healthy`, after one try for each answer before it.
pub wait-healthy :
    (before : List (Option Bytes)) (after : List (Option Bytes))
    → All (λ r. r ≢ some (codes "healthy")) before
    → wait (before ++ some (codes "healthy") ∷ after) ≡ some (suc (length before))
unfolding wait eqb
wait-healthy [] after h = refl
wait-healthy (none ∷ before) after h = rw (wait-healthy before after h.1) refl
wait-healthy (some r ∷ before) after h =
    rw (eqb_ne r (codes "healthy") (λ e. h.0 (ap some e)), wait-healthy before after h.1) refl
