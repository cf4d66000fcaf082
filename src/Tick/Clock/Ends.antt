-- ===== src/Tick/Clock/Ends.antt =====
-- The clock of a game comes to its end.
use tinyrange_ad.Common.{◌++◌, List, [], ◌∷◌, ◌≡◌, ◌≢◌, ◌⊎◌}
use tinyrange_ad.Common.Outcome.{Outcome, ok, panic, ◌>>=◌}
use tinyrange_ad.Flag.{Crypto}
use tinyrange_ad.Score.{Float, SortFunc}
use tinyrange_ad.Game.{Game}
use tinyrange_ad.Tick.Playable.{Playable}
use tinyrange_ad.Tick.Clock.{Moment, ticker_fired, happen}

module _ (fl : Float) (sorter : SortFunc) (c : Crypto) where
  open fl use {F}

  -- What the game has come to when the moments are over, while its clock runs.
  unfoldable pub happened : List Moment → Game F c.PrivateKey → Outcome (Game F c.PrivateKey)
  happened [] game = ok game
  happened (m ∷ moments) game = happen fl sorter c m game >>= λ mid. happened moments mid

  -- One of the moments is a submission, or answers of the scorebot, that panics where the game has
  -- come to by then.
  unfoldable pub Panics : List Moment → Game F c.PrivateKey → Type 0
  Panics moments game =
      (before : List Moment) × (m : Moment) × (later : List Moment) × (mid : Game F c.PrivateKey)
      × (moments ≡ before ++ m ∷ later)
      × (m ≢ ticker_fired)
      × (happened before game ≡ ok mid)
      × (happen fl sorter c m mid ≡ panic)

  -- A result, or one of the moments panics.
  unfoldable pub Ends : List Moment → Game F c.PrivateKey → Outcome (Game F c.PrivateKey) → Type 0
  Ends moments game result =
      ((over : Game F c.PrivateKey) × (result ≡ ok over)) ⊎ Panics moments game
