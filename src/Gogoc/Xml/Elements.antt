-- ===== src/Gogoc/Xml/Elements.antt =====
-- gogoc/gogoc-tsp/src/xml/xmlparse.c: `XMLParse` on elements that have been written down.
use maiccu.Base.{ℕ, List, [], ◌∷◌, ◌++◌, if◌then◌else◌}
use maiccu.Gogoc.Xml.{Parsed, success, Nodes, end_token, outcome}
use maiccu.Gogoc.Xml.Written.{Attribute, Element, print}

module _ {S : Type 0} (t : Nodes S) where
  open t use {has_node, has_attribute, assign, process}

  abbrev pub assign_all : List ℕ → List Attribute → S → S
  assign_all node [] s = s
  assign_all node ((a, v) ∷ rest) s =
      assign_all node rest (if has_attribute node a then assign node a v s else s)

  -- What an element does, with what comes behind it: when it is in the table, its processing function has its content,
  -- after its attributes, and only the result 0 lets the parse go on.
  abbrev effect : Element → List Attribute → List ℕ → S → (List ℕ → S → S × Parsed) → S × Parsed
  effect e attrs tail s next =
      if has_node e.name
      then outcome t (e.content ++ (end_token e.name ++ tail))
          (process e.name e.content (assign_all e.name attrs s)) (next tail)
      else next tail s

  -- The effects of the elements in order.
  unfoldable pub perform : List Element → S → S × Parsed
  unfolding outcome
  perform [] s = (s, success)
  perform (e ∷ es) s =
      if has_node e.name
      then outcome t (e.content ++ (end_token e.name ++ print es))
          (process e.name e.content (assign_all e.name e.attrs s)) (perform es)
      else perform es s
