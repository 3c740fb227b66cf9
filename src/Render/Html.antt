-- ===== src/Render/Html.antt =====
-- The nodes of golang.org/x/net/html that the sanitizer meets, and the code that it calls.
use open_blog.Base.{ℕ, Bool, Text, String, Option, List}

pub record Attr : Type 0 where
  pub namespace : Text
  pub key : Text
  pub val : Text

mutual
  -- `other` is a comment, a doctype or a document node.
  pub data Node : Type 0 where
    text : Text → Node
    element : String → List Attr → Nodes → Node
    other : Nodes → Node

  pub data Nodes : Type 0 where
    nil : Nodes
    cons : Node → Nodes → Nodes

abbrev pub append : Nodes → Nodes → Nodes
append nil ms = ms
append (cons n ns) ms = cons n (append ns ms)

-- The parts of a `url.URL` that the sanitizer reads.
pub record Url : Type 0 where
  pub scheme : Text
  pub host : Text

-- `goldmark.Markdown.Convert`, `html.Parse`, `html.Render` of the children of the `div`, `url.Parse`,
-- the lower case of the code points above ASCII, the Boolean that a JSON object holds under
-- "allow_external_images", and a text as `jsonb` writes it, if it is JSON. Each of the first four may fail.
pub record External : Type 0 where
  pub convert : Text → Option Text
  pub parse : Text → Option Node
  pub print : Nodes → Option Text
  pub parse_url : Text → Option Url
  pub lower_table : ℕ → ℕ
  pub allow_external_images : Text → Option Bool
  pub to_jsonb : Text → Option Text
