-- ===== src/Render/Urls.antt =====
-- The tests on the URLs of links and images.
use open_blog.Base.{
  Bool, true, false, not, ◌&&◌, ◌||◌, ◌==◌, text_eq_instance, if◌then◌else◌, Option, none, some,
  List, any, Text, codes, to_lower, trim_space, has_prefix,
}
use open_blog.Render.Html.{Url, External}

module _ (ext : External) where
  open ext use {parse_url, lower_table}

  abbrev pub lower : Text → Text
  lower s = to_lower lower_table s

  abbrev pub is_trimmed : Text → Bool
  is_trimmed u = not (u == codes "") && trim_space u == u

  abbrev pub link_scheme_ok : Text → Option Url → Bool
  link_scheme_ok u none = false
  link_scheme_ok u (some p) =
      let scheme : Text = lower p.scheme in
      if scheme == codes "http" || scheme == codes "https" || scheme == codes "mailto"
      then true
      else scheme == codes "" && (p.host == codes "" && not (has_prefix (codes "//") u))

  unfoldable pub safe_link_url : Text → Bool
  safe_link_url u = is_trimmed u && link_scheme_ok u (parse_url u)

  abbrev pub image_scheme_ok : Option Url → Bool
  image_scheme_ok none = false
  image_scheme_ok (some p) =
      let scheme : Text = lower p.scheme in
      (scheme == codes "http" || scheme == codes "https") && not (p.host == codes "")

  unfoldable pub safe_image_url : Text → Bool
  safe_image_url u = is_trimmed u && image_scheme_ok (parse_url u)

  abbrev pub host_listed : List Text → Option Url → Bool
  host_listed hosts none = false
  host_listed hosts (some p) = any (λ h. lower p.host == lower h) hosts

  -- No list (nil) means that any host is allowed.
  unfoldable pub image_host_allowed : Text → Option (List Text) → Bool
  image_host_allowed u none = true
  image_host_allowed u (some hosts) = host_listed hosts (parse_url u)
