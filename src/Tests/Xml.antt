-- ===== src/Tests/Xml.antt =====
-- The parser of elements at concrete inputs.
use maiccu.Base.{ℕ, ◌≡◌, refl, arith, List, [], ◌∷◌, if◌then◌else◌, ◌||◌, ◌&&◌}
use maiccu.Base.Bytes.{eq_bytes}
use maiccu.Gogoc.Xml.{success, error_at, refused, overrun, Nodes, xml_parse}
use maiccu.Gogoc.Xml.Written.{Element}
use maiccu.Gogoc.Xml.Elements.{perform}
use maiccu.Gogoc.Xml.Total.{Ends, xml_parse-Ends}

abbrev Log : Type 0
Log = List (List ℕ)

-- Nodes `a`, with an attribute `t`, and `b`; the content `x` is refused.
abbrev nodes : Nodes Log
nodes = record {
  has_node = λ name. eq_bytes name (b'a' ∷ []) || eq_bytes name (b'b' ∷ []);
  has_attribute = λ node name. eq_bytes node (b'a' ∷ []) && eq_bytes name (b't' ∷ []);
  assign = λ node name value log. value ∷ log;
  process = λ name content log.
      if eq_bytes content (b'x' ∷ []) then (log, error_at []) else (content ∷ log, success);
  left = λ name content log. content;
  length-left = λ name content log. omega arith;
}

abbrev first_element : Element
first_element = record {
  name = b'a' ∷ [];
  attrs = (b't' ∷ [], b'1' ∷ []) ∷ (b'u' ∷ [], []) ∷ [];
  content = b'h' ∷ b'<' ∷ b'i' ∷ [];
}

abbrev other_element : Element
other_element = record { name = b'z' ∷ []; attrs = (b't' ∷ [], b'/' ∷ []) ∷ []; content = [] }

abbrev last_element : Element
last_element = record { name = b'b' ∷ []; attrs = []; content = b'x' ∷ [] }

abbrev elements : List Element
elements = first_element ∷ other_element ∷ last_element ∷ []

-- The second element is passed over, and the last one refused.
performed : perform nodes elements [] ≡ (
  (b'h' ∷ b'<' ∷ b'i' ∷ []) ∷ (b'1' ∷ []) ∷ [],
  refused (b'x' ∷ b'<' ∷ b'/' ∷ b'b' ∷ b'>' ∷ []) (error_at []),
)
unfolding perform eq_bytes
performed = refl

-- A start tag that the text ends with.
cut_off : xml_parse nodes (b'<' ∷ b'a' ∷ b' ' ∷ []) [] ≡ ([], overrun)
unfolding xml_parse eq_bytes
cut_off = refl

-- What is no element, at the first byte.
no_tag : xml_parse nodes (b'h' ∷ b'i' ∷ []) [] ≡ ([], success)
unfolding xml_parse
no_tag = refl

xml_parse-Ends_example : Ends (xml_parse nodes (b'<' ∷ b'a' ∷ b'/' ∷ b'>' ∷ b'<' ∷ []) []).1
xml_parse-Ends_example = xml_parse-Ends nodes (b'<' ∷ b'a' ∷ b'/' ∷ b'>' ∷ b'<' ∷ []) []
