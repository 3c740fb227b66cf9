-- ===== src/Render/Sanitize.antt =====
-- `appendSanitized`, `sanitize` and the render entry points.
use open_blog.Base.{
  Bool, false, not, ◌&&◌, ◌==◌, text_eq_instance, string_eq, if◌then◌else◌, Option, none, some,
  List, [], ◌∷◌, Text, codes, folds_to, select, String,
}
use open_blog.Store.Errors.{Error, Result, ok, err}
use open_blog.Render.Html.{Attr, Node, text, element, other, Nodes, nil, cons, append, External}
use open_blog.Render.Urls.{safe_image_url, image_host_allowed}
use open_blog.Render.Attrs.{is_allowed_tag, is_dangerous_tag, allowed_attr}

module _ (ext : External) where
  -- The first attribute whose key folds to "src" decides.
  unfoldable pub img_src_allowed : List Attr → Option (List Text) → Bool
  img_src_allowed [] hosts = false
  img_src_allowed (a ∷ attrs) hosts =
      if folds_to a.key (codes "src")
      then safe_image_url ext a.val && image_host_allowed ext a.val hosts
      else img_src_allowed attrs hosts

  abbrev pub keeps_attr : String → Attr → Bool
  keeps_attr tag a = allowed_attr ext tag a.key a.val

  -- The rounds of `appendSanitized` after the children: what is appended for one element.
  unfoldable pub sanitize_element : Option (List Text) → String → List Attr → (kids : Nodes) → Nodes
  sanitize_element hosts tag attrs kids =
      if is_dangerous_tag tag
      then nil
      else if not (is_allowed_tag tag)
      then kids
      else if tag == "img" && not (img_src_allowed attrs hosts)
      then nil
      else cons (element tag (select (keeps_attr tag) attrs) kids) nil

  -- The nodes that `appendSanitized` appends to the parent.
  unfoldable mutual
    pub sanitize_node : Option (List Text) → Node → Nodes
    sanitize_node hosts (text t) = cons (text t) nil
    sanitize_node hosts (element tag attrs kids) =
        sanitize_element hosts tag attrs (sanitize_nodes hosts kids)
    sanitize_node hosts (other kids) = nil

    pub sanitize_nodes : Option (List Text) → Nodes → Nodes
    sanitize_nodes hosts nil = nil
    sanitize_nodes hosts (cons n ns) = append (sanitize_node hosts n) (sanitize_nodes hosts ns)

abbrev pub or_next : Option Nodes → Option Nodes → Option Nodes
or_next (some b) later = some b
or_next none later = later

-- `documentBody`: the children of the first body element in document order.
unfoldable mutual
  pub find_body : Node → Option Nodes
  find_body (text t) = none
  find_body (element tag attrs kids) =
      let below = find_body_in kids in if tag == "body" then some kids else below
  find_body (other kids) = find_body_in kids

  pub find_body_in : Nodes → Option Nodes
  find_body_in nil = none
  find_body_in (cons n ns) = or_next (find_body n) (find_body_in ns)

abbrev pub children : Node → Nodes
children (text t) = nil
children (element tag attrs kids) = kids
children (other kids) = kids

unfoldable pub document_body : Node → Nodes
document_body doc = elim (find_body doc) [ none ↦ children doc | some kids ↦ kids ]

module _ (ext : External) where
  open ext use {parse, print, convert}

  abbrev pub printed : Option Text → Text
  printed none = []
  printed (some t) = t

  -- A parse or print error gives the empty text (nil).
  abbrev pub sanitize_doc : Option (List Text) → Option Node → Text
  sanitize_doc hosts none = []
  sanitize_doc hosts (some doc) = printed (print (sanitize_nodes ext hosts (document_body doc)))

  unfoldable pub sanitize : Text → Option (List Text) → Text
  sanitize html hosts = sanitize_doc hosts (parse html)

  abbrev pub converted : Option (List Text) → Option Text → Result Text
  converted hosts none = err Error.render_failed
  converted hosts (some html) = ok (sanitize html hosts)

  unfoldable pub render_gfm_hosts : Text → Option (List Text) → Result Text
  render_gfm_hosts md hosts = converted hosts (convert md)
