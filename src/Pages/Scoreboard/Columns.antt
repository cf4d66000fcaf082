-- ===== src/Pages/Scoreboard/Columns.antt =====
-- The columns of the scoreboard's table.
use tinyrange_ad.Common.{
  ℕ, ◌+◌, List, [], ◌∷◌, Option, none, some, ℤ, map, length, All, ◌≡◌, refl, arith, length-append,
}
use tinyrange_ad.Common.Text.{Bytes}
use tinyrange_ad.Common.Dict.{lookup, int_eq}
use tinyrange_ad.Config.{ServiceConfig}
use tinyrange_ad.Score.{Float, SortFunc, ServiceState, TeamState, ScoreboardState}
use tinyrange_ad.Htm.{text}
use tinyrange_ad.Pages.Scoreboard.{
  header_row, header_spans, subheader_row, service_columns, score_row, score_rows, team_cells,
  service_cells, values, position_order,
}

unfoldable pub sum : List ℕ → ℕ
sum [] = 0
sum (n ∷ ns) = n + sum ns

sum-map :
    (services : List ServiceConfig)
    → sum (map (λ s. 5) services) ≡ length (service_columns services)
unfolding sum service_columns
sum-map [] = refl
sum-map (s ∷ services) = omega (arith, sum-map services)

length-map :
    {A B C : Type 0} (f : A → B) (g : A → C) (l : List A) → length (map f l) ≡ length (map g l)
length-map f g [] = refl
length-map f g (a ∷ l) = omega (arith, length-map f g l)

module _ (fl : Float) (show : fl.F → Bytes) where
  open fl use {F}

  length-service_cells : (s : Option (ServiceState F)) → length (service_cells fl show s) ≡ 5
  unfolding service_cells
  length-service_cells none = refl
  length-service_cells (some s) = refl

  length-team_cells :
      (states : List (ℤ × ServiceState F)) (services : List ServiceConfig)
      → length (team_cells fl show states services) ≡ length (service_columns services)
  unfolding team_cells service_columns
  length-team_cells states [] = refl
  length-team_cells states (s ∷ services) = omega (
    arith,
    length-append (service_cells fl show (lookup s.id states)) (team_cells fl show states services),
    length-service_cells (lookup s.id states),
    length-team_cells states services,
  )

  length-score_rows :
      (services : List ServiceConfig) (teams : List (TeamState F))
      → All (λ r. length r ≡ sum (header_spans services)) (map (score_row fl show services) teams)
  unfolding score_row header_spans sum
  length-score_rows services [] = tt
  length-score_rows services (t ∷ teams) = (
    omega (arith, sum-map services, length-team_cells t.services services),
    length-score_rows services teams,
  )

  -- The table is rectangular: the cells of the header span as many columns as the second header and
  -- every row have cells, for every list of services and every board.
  pub score_rows-columns :
      (sorter : SortFunc) (services : List ServiceConfig) (board : ScoreboardState F)
      → (length (header_row services) ≡ length (header_spans services))
        × (sum (header_spans services) ≡ length (subheader_row services))
        × All
            (λ r. length r ≡ sum (header_spans services))
            (score_rows fl show sorter services board)
  unfolding header_row header_spans subheader_row score_rows sum
  score_rows-columns sorter services board = (
    omega (arith, length-map {C = ℕ} (λ s. text s.service_name) (λ s. 5) services),
    omega (arith, sum-map services),
    length-score_rows services (sorter.sort position_order (values board.teams)),
  )
