-- ===== src/Render/Images.antt =====
-- The check on the source of an image, and the sanitizer on its own output.
use mathlib.Core.Path.{subst}
use open_blog.Base.{
  ◌≡◌, refl, Bool, true, false, not, ◌&&◌, ◌==◌, string_eq, text_eq_instance, text_eq, Option, List,
  [], ◌∷◌, Text, codes, folds_to, String, All, select, Bool-cases, inl, inr, arith, to_lower,
  trim_space, ap, sym, ◌∙◌,
}
use open_blog.Render.Html.{Attr, Node, text, element, other, Nodes, nil, cons, append, External}
use open_blog.Render.Urls.{lower, safe_image_url, image_host_allowed}
use open_blog.Render.Attrs.{is_allowed_tag, is_dangerous_tag, allowed_attr, lowered_attr}
use open_blog.Render.Clean.{IsCleanNode, IsClean, sanitize_nodes-IsClean}
use open_blog.Render.Sanitize.{
  keeps_attr, sanitize_element, sanitize_node, sanitize_nodes, img_src_allowed,
}

-- An image with two attributes whose keys fold to "src".
abbrev long_s_src : Text
long_s_src = 0x17f ∷ codes "rc"

abbrev pub image_with_two_sources : (good bad : Text) → Node
image_with_two_sources good bad =
    element "img"
      (record { namespace = []; key = long_s_src; val = good }
        ∷ record { namespace = []; key = codes "src"; val = bad }
        ∷ [])
      nil

unblocked : (i s : Bool) → (i ≡ true → s ≡ true) → (i && not s) ≡ false
unblocked true s h = ground arith
unblocked false s h = refl

module _ (ext : External) where
  -- The two ways to fold a key agree that this one is "src".
  abbrev pub IsPlainKey : Attr → Type 0
  IsPlainKey a = folds_to a.key (codes "src") ≡ true → lower ext a.key ≡ codes "src"

  -- The images have plain keys.
  unfoldable mutual
    pub IsPlainNode : Node → Type 0
    IsPlainNode (text t) = Unit {0}
    IsPlainNode (element tag attrs kids) = All IsPlainKey attrs × IsPlain kids
    IsPlainNode (other kids) = Unit {0}

    pub IsPlain : Nodes → Type 0
    IsPlain nil = Unit {0}
    IsPlain (cons n ns) = IsPlainNode n × IsPlain ns

  -- Each image has an allowed source.
  unfoldable mutual
    pub IsShownNode : Option (List Text) → Node → Type 0
    IsShownNode hosts (text t) = Unit {0}
    IsShownNode hosts (element tag attrs kids) =
        ((tag == "img") ≡ true → img_src_allowed ext attrs hosts ≡ true) × IsShown hosts kids
    IsShownNode hosts (other kids) = Unit {0}

    pub IsShown : Option (List Text) → Nodes → Type 0
    IsShown hosts nil = Unit {0}
    IsShown hosts (cons n ns) = IsShownNode hosts n × IsShown hosts ns

  kept_src :
      (a : Attr)
      → lower ext a.key ≡ codes "src"
      → safe_image_url ext a.val ≡ true
      → keeps_attr ext "img" a ≡ true
  unfolding allowed_attr lowered_attr text_eq
  kept_src a e h = rw e h

  img_src_allowed-select :
      (hosts : Option (List Text)) (attrs : List Attr)
      → All IsPlainKey attrs
      → img_src_allowed ext attrs hosts ≡ true
      → img_src_allowed ext (select (keeps_attr ext "img") attrs) hosts ≡ true
  unfolding img_src_allowed
  img_src_allowed-select hosts [] k h = h
  img_src_allowed-select hosts (a ∷ attrs) (p, k) h =
      elim (Bool-cases (folds_to a.key (codes "src"))) [
        | inl e ↦
            let t : keeps_attr ext "img" a ≡ true = kept_src a (p e) (ground arith) in
            rw t (ground arith)
        | inr e ↦
            let r = img_src_allowed-select hosts attrs k (ground arith) in
            elim (Bool-cases (keeps_attr ext "img" a)) [
              | inl t ↦ rw t (ground arith)
              | inr t ↦ rw t r
            ]
      ]

  select-All :
      (tag : String) (attrs : List Attr)
      → All (λ a. keeps_attr ext tag a ≡ true) attrs
      → select (keeps_attr ext tag) attrs ≡ attrs
  select-All tag [] h = refl
  select-All tag (a ∷ attrs) (e, h) = rw e (ap (λ s. a ∷ s) (select-All tag attrs h))

  img_src_allowed-kept :
      (hosts : Option (List Text)) (tag : String) (attrs : List Attr)
      → All IsPlainKey attrs
      → img_src_allowed ext attrs hosts ≡ true
      → (tag == "img") ≡ true
      → img_src_allowed ext (select (keeps_attr ext tag) attrs) hosts ≡ true
  img_src_allowed-kept hosts tag attrs p h e =
      subst (λ t. img_src_allowed ext (select (keeps_attr ext t) attrs) hosts ≡ true)
        (sym ((string_eq.test_iff tag "img").0 e)) (img_src_allowed-select hosts attrs p h)

  -- An element of the output stays, with its attributes.
  element-fixed :
      (hosts : Option (List Text)) (tag : String) (attrs : List Attr) (kids : Nodes)
      → is_allowed_tag tag ≡ true
      → is_dangerous_tag tag ≡ false
      → All (λ a. keeps_attr ext tag a ≡ true) attrs
      → ((tag == "img") ≡ true → img_src_allowed ext attrs hosts ≡ true)
      → sanitize_element ext hosts tag attrs kids ≡ cons (element tag attrs kids) nil
  unfolding sanitize_element
  element-fixed hosts tag attrs kids allowed safe kept shown =
      rw
        (
          safe,
          allowed,
          select-All tag attrs kept,
          unblocked (tag == "img") (img_src_allowed ext attrs hosts) shown,
        )
        refl

  IsShown-append :
      (hosts : Option (List Text)) (ns ms : Nodes)
      → IsShown hosts ns
      → IsShown hosts ms
      → IsShown hosts (append ns ms)
  unfolding IsShown
  IsShown-append hosts nil ms h k = k
  IsShown-append hosts (cons n ns) ms (c, h) k = (c, IsShown-append hosts ns ms h k)

  element-IsShown :
      (hosts : Option (List Text)) (tag : String) (attrs : List Attr) (kids : Nodes)
      → All IsPlainKey attrs
      → IsShown hosts kids
      → IsShown hosts (sanitize_element ext hosts tag attrs kids)
  unfolding sanitize_element IsShown IsShownNode
  element-IsShown hosts tag attrs kids p h =
      let f = img_src_allowed-kept hosts tag attrs p in ground arith

  mutual
    unfolding IsShown IsShownNode IsPlain IsPlainNode sanitize_node sanitize_nodes

    node-IsShown :
        (hosts : Option (List Text)) (n : Node)
        → IsPlainNode n
        → IsShown hosts (sanitize_node ext hosts n)
    node-IsShown hosts (text t) p = (tt, tt)
    node-IsShown hosts (element tag attrs kids) (p, q) =
        element-IsShown hosts tag attrs (sanitize_nodes ext hosts kids) p
          (nodes-IsShown hosts kids q)
    node-IsShown hosts (other kids) p = tt

    nodes-IsShown :
        (hosts : Option (List Text)) (ns : Nodes)
        → IsPlain ns
        → IsShown hosts (sanitize_nodes ext hosts ns)
    nodes-IsShown hosts nil p = tt
    nodes-IsShown hosts (cons n ns) (p, q) =
        IsShown-append hosts (sanitize_node ext hosts n) (sanitize_nodes ext hosts ns)
          (node-IsShown hosts n p) (nodes-IsShown hosts ns q)

  mutual
    unfolding IsShown IsShownNode IsClean IsCleanNode sanitize_node sanitize_nodes

    node-fixed :
        (hosts : Option (List Text)) (n : Node)
        → IsCleanNode ext n
        → IsShownNode hosts n
        → sanitize_node ext hosts n ≡ cons n nil
    node-fixed hosts (text t) c h = refl
    node-fixed hosts (element tag attrs kids) (allowed, safe, kept, c) (shown, h) =
        ap (sanitize_element ext hosts tag attrs) (nodes-fixed hosts kids c h)
        ∙ element-fixed hosts tag attrs kids allowed safe kept shown
    node-fixed hosts (other kids) c h = absurd c

    nodes-fixed :
        (hosts : Option (List Text)) (ns : Nodes)
        → IsClean ext ns
        → IsShown hosts ns
        → sanitize_nodes ext hosts ns ≡ ns
    nodes-fixed hosts nil c h = refl
    nodes-fixed hosts (cons n ns) (c, cs) (h, hs) =
        rw (node-fixed hosts n c h, nodes-fixed hosts ns cs hs) refl

  -- Where the two ways to fold the key of an attribute agree on "src", each image that the sanitizer
  -- lets through has a source, its URL is safe, and its host is listed.
  pub sanitize_nodes-IsShown :
      (hosts : Option (List Text)) (ns : Nodes)
      → IsPlain ns
      → IsShown hosts (sanitize_nodes ext hosts ns)
  sanitize_nodes-IsShown hosts ns p = nodes-IsShown hosts ns p

  -- Where the two ways to fold the key of an attribute agree on "src", the sanitizer changes nothing in
  -- its own output.
  pub sanitize_nodes_idem :
      (hosts : Option (List Text)) (ns : Nodes)
      → IsPlain ns
      → sanitize_nodes ext hosts (sanitize_nodes ext hosts ns) ≡ sanitize_nodes ext hosts ns
  sanitize_nodes_idem hosts ns p =
      nodes-fixed hosts (sanitize_nodes ext hosts ns) (sanitize_nodes-IsClean ext hosts ns)
        (nodes-IsShown hosts ns p)

  -- An image with a first source under "src" written with a long s that is safe and has a listed host, and any
  -- other safe source under "src", is let through with the second source alone, whatever its host: the
  -- list of hosts is not applied to the source that a browser loads.
  pub sanitize_nodes-unlisted :
      (hosts : Option (List Text)) (good bad : Text)
      → ext.lower_table 0x17f ≡ 0x17f
      → safe_image_url ext good ≡ true
      → image_host_allowed ext good hosts ≡ true
      → safe_image_url ext bad ≡ true
      → sanitize_nodes ext hosts (cons (image_with_two_sources good bad) nil)
        ≡ cons
            (element "img" (record { namespace = []; key = codes "src"; val = bad } ∷ []) nil)
            nil
  unfolding sanitize_nodes sanitize_node sanitize_element img_src_allowed is_dangerous_tag
      is_allowed_tag allowed_attr lowered_attr text_eq folds_to safe_image_url trim_space
      image_host_allowed to_lower
  sanitize_nodes-unlisted hosts good bad l g a b = rw (l, g, a, b) refl
