-- ===== src/Pages/Scoreboard.antt =====
-- The table of the scoreboard: `renderScoreboard` of cmd/ad/public.go.
pub mod Columns
use tinyrange_ad.Common.{ℕ, List, [], ◌∷◌, ◌++◌, Option, none, some, ℤ, pos, map}
use tinyrange_ad.Common.Int.{◌-ℤ◌}
use tinyrange_ad.Common.Text.{Bytes, codes}
use tinyrange_ad.Common.Dict.{lookup, int_eq}
use tinyrange_ad.Common.Decimal.{itoa}
use tinyrange_ad.Config.{ServiceConfig, public_services}
use tinyrange_ad.Score.{Float, SortFunc, ServiceState, TeamState, ScoreboardState}
use tinyrange_ad.Htm.{Fragment, group, text, attr, class, fragments}
use tinyrange_ad.Htm.Elements.{element, div}

unfoldable pub header_row : List ServiceConfig → List Fragment
header_row services = text [] ∷ map (λ s. text s.service_name) services

-- The number of columns below each cell of the header.
unfoldable pub header_spans : List ServiceConfig → List ℕ
header_spans services = 3 ∷ map (λ s. 5) services

service_columns : List ServiceConfig → List Fragment
service_columns [] = []
service_columns (s ∷ services) =
    text (codes "Points")
    ∷ text (codes "Tick")
    ∷ text (codes "Attack")
    ∷ text (codes "Defense")
    ∷ text (codes "Uptime")
    ∷ service_columns services

unfoldable pub subheader_row : List ServiceConfig → List Fragment
unfolding service_columns
subheader_row services =
    text (codes "#") ∷ text (codes "Name") ∷ text (codes "Points") ∷ service_columns services

values : {A : Type 0} → List (ℤ × A) → List A
values entries = map (λ e. e.1) entries

position_order : {F : Type 0} → TeamState F → TeamState F → ℤ
position_order a b = pos a.position -ℤ pos b.position

-- The loops over a row of the header: each cell spans its columns, and all groups of columns but the
-- last have a border.
-- There is a span for every cell.
header_cells : List Fragment → List ℕ → List Fragment
header_cells [] spans = []
header_cells (item ∷ items) [] = []
header_cells (item ∷ items) (span ∷ spans) =
    element (codes "th") (
      attr (codes "colspan") (itoa (pos span))
      ∷ attr (codes "style") (codes "text-align: center")
      ∷ item
      ∷ [])
    ∷ header_cells items spans

col_group : ℕ → Bytes → Fragment
col_group span style =
    element (codes "colgroup")
      (attr (codes "span") (itoa (pos span)) ∷ attr (codes "style") style ∷ [])

col_groups : List ℕ → List Fragment
unfolding col_group
col_groups [] = []
col_groups (span ∷ []) = col_group span [] ∷ []
col_groups (span ∷ next ∷ spans) =
    col_group span (codes "border-right: 1px solid var(--bs-table-border-color)")
    ∷ col_groups (next ∷ spans)

table_row : List Fragment → Fragment
table_row cells =
    element (codes "tr") (group (fragments (map (λ c. element (codes "td") (c ∷ [])) cells)) ∷ [])

-- `show` writes a number with two decimals.
module _ (fl : Float) (show : fl.F → Bytes) where
  open fl use {F, mul, of_int, to_int}

  service_cells : Option (ServiceState F) → List Fragment
  service_cells none = text [] ∷ text [] ∷ text [] ∷ text [] ∷ text [] ∷ []
  service_cells (some s) =
      text (show s.points)
      ∷ text (show s.tick_points)
      ∷ text (show s.attack_points)
      ∷ text (show s.defense_points)
      ∷ text (itoa (to_int (mul s.uptime_points (of_int (pos 100)))) ++ codes "%")
      ∷ []

  team_cells : List (ℤ × ServiceState F) → List ServiceConfig → List Fragment
  unfolding service_cells
  team_cells states [] = []
  team_cells states (s ∷ services) =
      service_cells (lookup s.id states) ++ team_cells states services

  unfoldable pub score_row : List ServiceConfig → TeamState F → List Fragment
  unfolding team_cells
  score_row services team =
      text (itoa (pos team.position))
      ∷ text team.name
      ∷ text (show team.points)
      ∷ team_cells team.services services

  unfoldable pub score_rows :
      SortFunc → List ServiceConfig → ScoreboardState F → List (List Fragment)
  unfolding score_row values position_order
  score_rows sorter services board =
      map (score_row services) (sorter.sort position_order (values board.teams))

  score_table : List ServiceConfig → List (List Fragment) → Fragment
  unfolding header_cells col_groups table_row header_row header_spans subheader_row
  score_table services rows = div (
      class (codes "table-responsive")
      ∷ element (codes "table") (
          class (codes "table")
          ∷ class (codes "table-striped")
          ∷ (col_groups (header_spans services)
              ++ element (codes "thead") (
                  element (codes "tr") (header_cells (header_row services) (header_spans services))
                  ∷ element (codes "tr")
                      (map (λ i. element (codes "th") (i ∷ [])) (subheader_row services))
                  ∷ [])
                ∷ element (codes "tbody") (map table_row rows)
                ∷ []))
      ∷ [])

  -- `renderScoreboard`; `none` is the nil fragment before the first tick is over.
  unfoldable pub render_scoreboard :
      SortFunc → List ServiceConfig → Option (ScoreboardState F) → Option Fragment
  unfolding score_table score_rows
  render_scoreboard sorter services none = none
  render_scoreboard sorter services (some board) =
      let public = public_services services in
      some (score_table public (score_rows sorter public board))
