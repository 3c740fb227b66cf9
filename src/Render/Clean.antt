-- ===== src/Render/Clean.antt =====
-- What the sanitizer lets through (`appendSanitized` of renderer.go).
use open_blog.Base.{
  ◌≡◌, true, false, string_eq, Option, List, [], ◌∷◌, Text, String, All, select, Bool-cases, inl,
  inr, arith,
}
use open_blog.Render.Html.{Attr, Node, text, element, other, Nodes, nil, cons, append, External}
use open_blog.Render.Attrs.{is_allowed_tag, is_dangerous_tag}
use open_blog.Render.Sanitize.{keeps_attr, sanitize_element, sanitize_node, sanitize_nodes}

module _ (ext : External) where
  -- Text, and elements with an allowed tag that is not dangerous, attributes that are allowed for it,
  -- and such children.
  unfoldable mutual
    pub IsCleanNode : Node → Type 0
    IsCleanNode (text t) = Unit {0}
    IsCleanNode (element tag attrs kids) =
        (is_allowed_tag tag ≡ true)
        × (is_dangerous_tag tag ≡ false)
        × All (λ a. keeps_attr ext tag a ≡ true) attrs
        × IsClean kids
    IsCleanNode (other kids) = ⊥

    pub IsClean : Nodes → Type 0
    IsClean nil = Unit {0}
    IsClean (cons n ns) = IsCleanNode n × IsClean ns

  IsClean-append : (ns ms : Nodes) → IsClean ns → IsClean ms → IsClean (append ns ms)
  unfolding IsClean
  IsClean-append nil ms h k = k
  IsClean-append (cons n ns) ms (c, h) k = (c, IsClean-append ns ms h k)

  All-kept :
      (tag : String) (attrs : List Attr)
      → All (λ a. keeps_attr ext tag a ≡ true) (select (keeps_attr ext tag) attrs)
  All-kept tag [] = tt
  All-kept tag (a ∷ attrs) = elim (Bool-cases (keeps_attr ext tag a)) [
    | inl kept ↦ rw kept (kept, All-kept tag attrs)
    | inr gone ↦ rw gone (All-kept tag attrs)
  ]

  element-IsClean :
      (hosts : Option (List Text)) (tag : String) (attrs : List Attr) (kids : Nodes)
      → IsClean kids
      → IsClean (sanitize_element ext hosts tag attrs kids)
  unfolding sanitize_element IsClean IsCleanNode
  element-IsClean hosts tag attrs kids h = let k = All-kept tag attrs in ground arith

  mutual
    unfolding IsClean IsCleanNode sanitize_node sanitize_nodes

    node-IsClean : (hosts : Option (List Text)) (n : Node) → IsClean (sanitize_node ext hosts n)
    node-IsClean hosts (text t) = (tt, tt)
    node-IsClean hosts (element tag attrs kids) =
        element-IsClean hosts tag attrs (sanitize_nodes ext hosts kids) (nodes-IsClean hosts kids)
    node-IsClean hosts (other kids) = tt

    nodes-IsClean :
        (hosts : Option (List Text)) (ns : Nodes) → IsClean (sanitize_nodes ext hosts ns)
    nodes-IsClean hosts nil = tt
    nodes-IsClean hosts (cons n ns) =
        IsClean-append (sanitize_node ext hosts n) (sanitize_nodes ext hosts ns)
          (node-IsClean hosts n) (nodes-IsClean hosts ns)

  -- Whatever the nodes that it is given, the sanitizer appends only text and elements with an allowed
  -- tag that is not dangerous, each with attributes that are allowed for its tag alone, at every depth;
  -- no comment and no doctype.
  pub sanitize_nodes-IsClean :
      (hosts : Option (List Text)) (ns : Nodes) → IsClean (sanitize_nodes ext hosts ns)
  sanitize_nodes-IsClean hosts ns = nodes-IsClean hosts ns
