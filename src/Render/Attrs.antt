-- ===== src/Render/Attrs.antt =====
-- The allow-lists of elements and attributes.
use open_blog.Base.{
  ℕ, Bool, true, false, not, ◌&&◌, ◌||◌, ◌==◌, nat_eq, text_eq_instance, string_eq, if◌then◌else◌,
  List, [], ◌∷◌, all, Text, codes, String, elem, leb, is_lower, is_upper, is_digit, byte_len, split,
  trim_space, trim_left,
}
use open_blog.Render.Html.{External}
use open_blog.Render.Urls.{lower, safe_link_url, safe_image_url}

abbrev pub allowed_tags : List String
allowed_tags =
    "h1" ∷ "h2" ∷ "h3" ∷ "h4" ∷ "h5" ∷ "h6" ∷ "p" ∷ "br" ∷ "hr" ∷ "blockquote" ∷ "ul" ∷ "ol" ∷ "li"
    ∷ "strong" ∷ "em" ∷ "del" ∷ "s" ∷ "b" ∷ "i" ∷ "sub" ∷ "sup" ∷ "a" ∷ "img" ∷ "pre" ∷ "code"
    ∷ "span" ∷ "div" ∷ "table" ∷ "thead" ∷ "tbody" ∷ "tfoot" ∷ "tr" ∷ "th" ∷ "td" ∷ "input" ∷ []

abbrev pub dangerous_tags : List String
dangerous_tags =
    "script" ∷ "style" ∷ "iframe" ∷ "frame" ∷ "frameset" ∷ "object" ∷ "embed" ∷ "applet" ∷ "param"
    ∷ "form" ∷ "button" ∷ "select" ∷ "option" ∷ "textarea" ∷ "template" ∷ "noscript" ∷ "link"
    ∷ "meta" ∷ "base" ∷ "svg" ∷ "math" ∷ "video" ∷ "audio" ∷ "source" ∷ "track" ∷ "canvas" ∷ []

unfoldable pub is_allowed_tag : String → Bool
is_allowed_tag tag = elem tag allowed_tags

unfoldable pub is_dangerous_tag : String → Bool
is_dangerous_tag tag = elem tag dangerous_tags

-- `^[0-9]+$`.
unfoldable pub is_digits : Text → Bool
is_digits s = not (s == codes "") && all is_digit s

-- A code point of `[a-zA-Z0-9 _-]`.
abbrev pub class_char : ℕ → Bool
class_char c = is_lower c || is_upper c || is_digit c || c == b' ' || c == b'_' || c == b'-'

unfoldable pub class_ok : Text → Bool
class_ok s = not (s == codes "") && (leb (byte_len s) 256 && all class_char s)

-- The white space of `\s`.
abbrev pub regex_space : ℕ → Bool
regex_space c = c == 9 || c == 10 || c == 12 || c == 13 || c == b' '

-- A code point of `[a-zA-Z0-9 #.%+-]`.
abbrev pub style_char : ℕ → Bool
style_char c =
    is_lower c
    || is_upper c
    || is_digit c
    || c == b' '
    || c == b'#'
    || c == b'.'
    || c == b'%'
    || c == b'+'
    || c == b'-'

abbrev ends_in_space : Text → Bool
ends_in_space [] = false
ends_in_space (c ∷ []) = c == b' '
ends_in_space (c ∷ d ∷ s) = ends_in_space (d ∷ s)

-- `\s*[a-zA-Z0-9 #.%+-]+$`: where only white space is left, its last blank can be the value.
abbrev pub value_rest_ok : Text → Text → Bool
value_rest_ok s [] = ends_in_space s
value_rest_ok s (c ∷ r) = all style_char (c ∷ r)

unfoldable pub value_ok : Text → Bool
unfolding trim_left
value_ok s = value_rest_ok s (trim_left regex_space s)

-- `(:\s*…)?$`.
abbrev pub after_name : Text → Bool
after_name [] = true
after_name (c ∷ s) = c == b':' && value_ok s

abbrev pub name_char : ℕ → Bool
name_char c = is_lower c || c == b'-'

-- `^[a-z][a-z-]*\s*(:\s*[a-zA-Z0-9 #.%+-]+)?$`.
unfoldable pub matches_style : Text → Bool
unfolding trim_left
matches_style [] = false
matches_style (c ∷ s) = is_lower c && after_name (trim_left regex_space (trim_left name_char s))

-- `strings.SplitN(decl, ":", 2)[0]`.
unfoldable pub before_colon : Text → Text
before_colon [] = []
before_colon (c ∷ s) = let rest = c ∷ before_colon s in if c == b':' then [] else rest

abbrev pub style_props : List Text
style_props =
    codes "color"
    ∷ codes "background-color"
    ∷ codes "font-weight"
    ∷ codes "font-style"
    ∷ codes "text-decoration"
    ∷ codes "white-space"
    ∷ codes "user-select"
    ∷ codes "margin-right"
    ∷ codes "padding"
    ∷ codes "display"
    ∷ codes "tab-width"
    ∷ codes "border-spacing"
    ∷ codes "vertical-align"
    ∷ codes "margin"
    ∷ codes "border"
    ∷ codes "float"
    ∷ codes "clear"
    ∷ codes "text-align"
    ∷ []

unfoldable pub decl_ok : Text → Bool
unfolding trim_space before_colon matches_style value_ok
decl_ok piece =
    let decl : Text = trim_space piece in
    if decl == codes ""
    then true
    else matches_style decl && elem (trim_space (before_colon decl)) style_props

unfoldable pub safe_style : Text → Bool
unfolding split decl_ok
safe_style s =
    if s == codes "" || not (leb (byte_len s) 512) then false else all decl_ok (split b';' s)

module _ (ext : External) where
  abbrev pub a_attr : (key val : Text) → Bool
  a_attr key val = if key == codes "href" then safe_link_url ext val else key == codes "title"

  abbrev pub img_attr : (key val : Text) → Bool
  img_attr key val =
      if key == codes "src"
      then safe_image_url ext val
      else if key == codes "alt" || key == codes "title"
      then true
      else (key == codes "width" || key == codes "height") && is_digits val

  abbrev pub pre_attr : (key val : Text) → Bool
  pre_attr key val =
      if key == codes "style"
      then safe_style val
      else if key == codes "tabindex"
      then is_digits val
      else key == codes "class" && class_ok val

  abbrev pub span_attr : (key val : Text) → Bool
  span_attr key val =
      if key == codes "class" then class_ok val else key == codes "style" && safe_style val

  abbrev pub cell_attr : (key val : Text) → Bool
  cell_attr key val =
      if key == codes "align"
      then val == codes "left"
        || val == codes "center"
        || val == codes "right"
        || val == codes "justify"
        || val == codes "char"
      else if key == codes "style"
      then safe_style val
      else (key == codes "rowspan" || key == codes "colspan") && is_digits val

  abbrev pub input_attr : (key val : Text) → Bool
  input_attr key val =
      if key == codes "type"
      then val == codes "checkbox"
      else key == codes "checked" || key == codes "disabled"

  unfoldable pub lowered_attr : String → (key val : Text) → Bool
  lowered_attr tag key val =
      if tag == "a"
      then a_attr key val
      else if tag == "img"
      then img_attr key val
      else if tag == "pre"
      then pre_attr key val
      else if tag == "code" || tag == "span" || tag == "div"
      then span_attr key val
      else if tag == "li"
      then key == codes "class" && class_ok val
      else if tag == "th" || tag == "td"
      then cell_attr key val
      else tag == "input" && input_attr key val

  unfoldable pub allowed_attr : String → (key val : Text) → Bool
  unfolding lowered_attr
  allowed_attr tag key val = lowered_attr tag (lower ext key) val
