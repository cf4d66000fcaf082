-- ===== src/Pages.antt =====
-- The layout of the server's pages, cmd/ad/public.go and cmd/ad/private.go.
pub mod Scoreboard
pub mod Teams
pub mod Admin
use tinyrange_ad.Common.{List, [], ◌∷◌, ◌++◌}
use tinyrange_ad.Common.Text.{Bytes, codes}
use tinyrange_ad.Htm.{Fragment, group, text, attr, fragments}
use tinyrange_ad.Htm.Elements.{html, head, body, div, meta_charset, meta_viewport, title}
use tinyrange_ad.Htm.Bootstrap.{navbar, navbar_brand, navbar_link, container, alert}

-- The embedded styles and scripts, in the order of the layout.
module _ (sources : List Fragment) (game_title : Bytes) where
  page : Bytes → List Fragment → List Fragment → Fragment
  unfolding navbar
  page name links content = html (
      attr (codes "lang") (codes "en")
      ∷ head (
          meta_charset (codes "UTF-8")
          ∷ title (game_title ++ (codes " - " ++ name))
          ∷ meta_viewport (codes "width=device-width, initial-scale=1")
          ∷ sources)
      ∷ body (
          navbar (navbar_brand (codes "/") (text game_title)) links
          ∷ div (container ∷ group (fragments content) ∷ [])
          ∷ [])
      ∷ [])

  unfoldable pub private_page_layout : Bytes → List Fragment → Fragment
  unfolding page
  private_page_layout name content =
      page name
        (navbar_link (codes "/scoreboard") (text (codes "Scoreboard"))
          ∷ navbar_link (codes "/vulnbox") (text (codes "Vulnbox"))
          ∷ [])
        content

  unfoldable pub private_page_error : Bytes → Fragment
  unfolding private_page_layout
  private_page_error message =
      private_page_layout (codes "Error") (alert (codes "danger") (text message ∷ []) ∷ [])

  unfoldable pub public_page_layout : Bytes → List Fragment → Fragment
  unfolding page
  public_page_layout name content =
      page name
        (navbar_link (codes "/scoreboard") (text (codes "Scoreboard"))
          ∷ navbar_link (codes "/instances") (text (codes "Instances"))
          ∷ navbar_link (codes "/events") (text (codes "Events"))
          ∷ navbar_link (codes "/devices") (text (codes "Devices"))
          ∷ navbar_link (codes "/config") (text (codes "Config"))
          ∷ [])
        content

  unfoldable pub public_page_error : Bytes → Fragment
  unfolding public_page_layout
  public_page_error message =
      public_page_layout (codes "Error") (alert (codes "danger") (text message ∷ []) ∷ [])
