-- ===== src/Render/Tests.antt =====
-- Examples for the sanitizer.
use open_blog.Base.{◌≡◌, refl, none, some, [], ◌∷◌, List, Text, codes, Option}
use open_blog.Render.Html.{Attr, text, element, Nodes, nil, cons, External}
use open_blog.Render.Sanitize.{sanitize_nodes}
use open_blog.Render.Clean.{IsClean, sanitize_nodes-IsClean}
use open_blog.Render.Images.{
  IsPlain, IsShown, image_with_two_sources, sanitize_nodes-IsShown, sanitize_nodes_idem,
  sanitize_nodes-unlisted,
}
use open_blog.Samples.{sample_ext}

abbrev attr : (key val : Text) → Attr
attr key val = record { namespace = []; key = key; val = val }

abbrev mixed : Nodes
mixed =
    cons (element "script" [] (cons (text (codes "x")) nil)) (
      cons (element "p" (attr (codes "onclick") (codes "y") ∷ []) (cons (text (codes "z")) nil))
        nil)

sanitize_nodes-IsClean_example : IsClean sample_ext (sanitize_nodes sample_ext none mixed)
sanitize_nodes-IsClean_example = sanitize_nodes-IsClean sample_ext none mixed

abbrev pictures : Nodes
pictures =
    cons (element "img" (attr (codes "src") (codes "https://media.example.com/a") ∷ []) nil)
      (cons (element "img" (attr (codes "alt") (codes "b") ∷ []) nil) nil)

pictures-IsPlain : IsPlain sample_ext pictures
unfolding open_blog.Render.Images.IsPlain open_blog.Render.Images.IsPlainNode
    open_blog.Base.to_lower open_blog.Base.lower_rune open_blog.Base.folds_to open_blog.Base.text_eq
    open_blog.Base.fold_rune
pictures-IsPlain = ((((λ h. refl), tt), tt), ((((λ h. cc), tt), tt), tt))

abbrev origins : Option (List Text)
origins = some (codes "media.example.com" ∷ [])

sanitize_nodes-IsShown_example :
    IsShown sample_ext origins (sanitize_nodes sample_ext origins pictures)
sanitize_nodes-IsShown_example = sanitize_nodes-IsShown sample_ext origins pictures pictures-IsPlain

sanitize_nodes_idem_example :
    sanitize_nodes sample_ext origins (sanitize_nodes sample_ext origins pictures)
    ≡ sanitize_nodes sample_ext origins pictures
sanitize_nodes_idem_example = sanitize_nodes_idem sample_ext origins pictures pictures-IsPlain

-- Each URL is its own host.
abbrev host_ext : External
host_ext = record sample_ext { parse_url = λ u. some (record { scheme = codes "https"; host = u }) }

sanitize_nodes-unlisted_example :
    sanitize_nodes host_ext
      (some (codes "good" ∷ []))
      (cons (image_with_two_sources (codes "good") (codes "bad")) nil)
    ≡ cons (element "img" (attr (codes "src") (codes "bad") ∷ []) nil) nil
unfolding open_blog.Render.Urls.safe_image_url open_blog.Render.Urls.image_host_allowed
    open_blog.Base.to_lower open_blog.Base.lower_rune open_blog.Base.text_eq
    open_blog.Base.trim_space open_blog.Base.trim open_blog.Base.trim_left open_blog.Base.trim_right
sanitize_nodes-unlisted_example =
    sanitize_nodes-unlisted host_ext (some (codes "good" ∷ [])) (codes "good") (codes "bad") refl
      refl refl refl
