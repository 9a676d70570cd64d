-- ===== src/Gogoc/Xml.antt =====
-- gogoc/gogoc-tsp/src/xml/xmlparse.c: `XMLParse`, which calls a function for each element of a text. A text is the
-- list of its bytes, without the zero at its end; the rest of the text stands for a position in it.
pub mod Scan
pub mod Written
pub mod Elements
pub mod Total
use maiccu.Base.{
  ℕ, zero, suc, ◌+◌, ◌≤◌, Bool, true, false, not, ◌&&◌, ◌||◌, List, [], ◌∷◌, ◌++◌, Option, none,
  some, ◌==◌, ltb, leb, if◌then◌else◌, length, eq_bytes, take, drop,
}

abbrev pub is_blank : ℕ → Bool
is_blank c = (c == b' ') || (c == 9) || (c == 13) || (c == 10)

abbrev pub is_alpha : ℕ → Bool
is_alpha c = (leb b'a' c && leb c b'z') || (leb b'A' c && leb c b'Z')

-- A byte of a name.
abbrev pub is_name : ℕ → Bool
is_name c = is_alpha c || (leb b'0' c && leb c b'9') || (c == b'_')

-- A byte that ends the value of an attribute.
abbrev pub is_end : ℕ → Bool
is_end c = (c == 10) || (c == 13) || (c == b'>') || (c == b'"')

abbrev pub starts : (ℕ → Bool) → List ℕ → Bool
starts p [] = false
starts p (c ∷ cs) = p c

-- `SkipBlanks`
unfoldable pub skip_blanks : List ℕ → List ℕ
skip_blanks [] = []
skip_blanks (c ∷ cs) = if is_blank c then skip_blanks cs else c ∷ cs

-- The bytes up to the first one that is not such a byte, and the rest.
unfoldable pub span : (ℕ → Bool) → List ℕ → List ℕ × List ℕ
span p [] = ([], [])
span p (c ∷ cs) = let (taken, rest) = span p cs in if p c then (c ∷ taken, rest) else ([], c ∷ cs)

-- `strstr`: what is before the first occurrence of the text, and what is behind it.
unfoldable pub find : List ℕ → List ℕ → Option (List ℕ × List ℕ)
find token [] = elim token [ [] ↦ some ([], []) | t ∷ ts ↦ none ]
find token (c ∷ cs) =
    let later : Option (List ℕ × List ℕ) = elim (find token cs) [
      | none ↦ none
      | some (before, behind) ↦ some (c ∷ before, behind)
    ] in
    if eq_bytes (take (length token) (c ∷ cs)) token
    then some ([], drop (length token) (c ∷ cs))
    else later

-- The result of a parse: 0; the position of an error (0 is success, see `returned`), as the rest of the text; what a processing function has
-- returned; and what is no result: a read behind the end of the text, an end tag longer than its buffer,
-- and the end of the fuel.
pub data Parsed : Type 0 where
  success : Parsed
  error_at : List ℕ → Parsed
  refused : List ℕ → Parsed → Parsed
  overrun overflow out_of_fuel : Parsed

-- A table of nodes with the state that its functions change: which names and attributes it has, what an attribute's
-- value does, the processing function of a node, on its content, and what that function leaves of its content, which it
-- may change in place.
pub record Nodes (S : Type 0) : Type 0 where
  pub has_node : List ℕ → Bool
  pub has_attribute : List ℕ → List ℕ → Bool
  pub assign : List ℕ → List ℕ → List ℕ → S → S
  pub process : List ℕ → List ℕ → S → S × Parsed
  pub left : List ℕ → List ℕ → S → List ℕ
  pub length-left : (name content : List ℕ) (s : S) → length (left name content s) ≤ length content

-- Behind the attributes of a start tag, or the end of the fuel.
pub data Attributes (S : Type 0) : Type 0 where
  parsed : List ℕ → S → Attributes S
  wrong : List ℕ → S → Attributes S
  endless : S → Attributes S

-- How a start tag goes on behind its name.
pub data Tag : Type 0 where
  closed : Bool → List ℕ → Tag
  opened : List ℕ → Tag
  broken : List ℕ → Tag

-- The byte behind the name, `simple` with it.
unfoldable pub tag_rest : List ℕ → Tag
tag_rest [] = broken []
tag_rest (c ∷ cs) =
    if c == b'/'
    then elim cs [ [] ↦ broken [] | d ∷ ds ↦ if d == b'>' then closed true ds else broken (d ∷ ds) ]
    else if c == b' '
    then opened cs
    else if c == b'>'
    then closed false cs
    else broken (c ∷ cs)

abbrev pub buffer_size : ℕ
buffer_size = 100

-- `endToken`
abbrev pub end_token : List ℕ → List ℕ
end_token name = b'<' ∷ b'/' ∷ (name ++ (b'>' ∷ []))

-- The end of a start tag with attributes: whether it is a whole element, and the rest.
unfoldable pub tag_end : List ℕ → Bool × List ℕ
tag_end rest = if starts (λ c. c == b'/') rest then (true, drop 1 rest) else (false, rest)

module _ {S : Type 0} (t : Nodes S) where
  open t use {has_node, has_attribute, assign, process, left}

  -- The loop on attributes, with fuel.
  unfoldable pub attributes : ℕ → List ℕ → List ℕ → S → Attributes S
  unfolding span skip_blanks
  attributes zero node rest s = endless s
  attributes (suc fuel) node rest s =
      let (name, behind) = span is_name rest in
      let after_equals = drop 1 behind in
      let (value, behind_value) = span (λ c. not (is_end c)) (drop 1 after_equals) in
      let next : S = if has_attribute node name then assign node name value s else s in
      let more = attributes fuel node (skip_blanks (drop 1 behind_value)) next in
      if not (starts is_alpha rest)
      then parsed rest s
      else if not (starts (λ c. c == b'=') behind)
      then wrong behind s
      else if not (starts (λ c. c == b'"') after_equals)
      then wrong after_equals s
      else if not (starts (λ c. c == b'"') behind_value)
      then wrong behind_value s
      else more

  -- A result of the processing function other than 0 ends the parse.
  unfoldable pub outcome : List ℕ → S × Parsed → (S → S × Parsed) → S × Parsed
  outcome rest (s, success) next = next s
  outcome rest (s, r) next = (s, refused rest r)

  -- Behind the start tag of an element.
  unfoldable pub element : List ℕ → Bool → List ℕ → S → (List ℕ → S → S × Parsed) → S × Parsed
  unfolding outcome find
  element name simple rest s next =
      let whole =
        if has_node name
        then outcome rest (process name rest s) (next (left name rest s))
        else next rest s in
      let found : S × Parsed = elim (find (end_token name) rest) [
        | none ↦ (s, error_at rest)
        | some (content, behind) ↦
            if has_node name
            then outcome rest (process name content s) (next behind)
            else next behind s
      ] in
      if simple then whole else if ltb buffer_size (length name + 4) then (s, overflow) else found

  -- Behind the attributes of a node of the table.
  unfoldable pub known_tag : List ℕ → Attributes S → (List ℕ → S → S × Parsed) → S × Parsed
  unfolding tag_end element
  known_tag name (wrong at s) next = (s, error_at at)
  known_tag name (endless s) next = (s, out_of_fuel)
  known_tag name (parsed behind s) next =
      let (simple, close) = tag_end behind in
      if starts (λ c. c == b'>') close
      then element name simple (drop 1 close) s next
      else (s, error_at close)

  -- Behind the start tag of a node that is not in the table.
  unfoldable pub unknown_tag : List ℕ → List ℕ → S → (List ℕ → S → S × Parsed) → S × Parsed
  unfolding element
  unknown_tag name [] s next = (s, error_at [])
  unknown_tag name (c ∷ cs) s next = element name false (c ∷ cs) s next

  -- A start tag that goes on with a space.
  unfoldable pub opened_tag : List ℕ → List ℕ → S → (List ℕ → S → S × Parsed) → S × Parsed
  unfolding attributes known_tag unknown_tag span
  opened_tag name [] s next = (s, overrun)
  opened_tag name (c ∷ cs) s next =
      let rest = c ∷ cs in
      if has_node name
      then known_tag name (attributes (length rest + 1) name (skip_blanks rest) s) next
      else unknown_tag name (drop 1 (span (λ c. not (c == b'>')) rest).1) s next

  -- A start tag, by what follows its name.
  unfoldable pub tag : List ℕ → Tag → S → (List ℕ → S → S × Parsed) → S × Parsed
  unfolding element opened_tag
  tag name (broken at) s next = (s, error_at at)
  tag name (opened at) s next = opened_tag name at s next
  tag name (closed simple at) s next =
      if not (has_node name) && not simple && (length at == 0)
      then (s, error_at [])
      else element name simple at s next

  -- A start tag, with its name split off.
  unfoldable pub start_tag : List ℕ × List ℕ → S → (List ℕ → S → S × Parsed) → S × Parsed
  unfolding tag_rest tag
  start_tag (name, behind) s next = tag name (tag_rest behind) s next

  -- One round of the loop, at a byte that is not blank.
  unfoldable pub parse_node : List ℕ → S → (List ℕ → S → S × Parsed) → S × Parsed
  unfolding span start_tag
  parse_node [] s next = (s, success)
  parse_node (c ∷ cs) s next =
      if not (c == b'<')
      then (s, error_at (c ∷ cs))
      else if not (starts is_alpha cs)
      then (s, error_at cs)
      else start_tag (span is_name cs) s next

  -- The loop of `XMLParse`.
  unfoldable pub parse_loop : ℕ → List ℕ → S → S × Parsed
  unfolding skip_blanks parse_node
  parse_loop zero rest s = (s, out_of_fuel)
  parse_loop (suc fuel) rest s = parse_node (skip_blanks rest) s (parse_loop fuel)

  -- What the caller sees: an error at the first byte of the text has the position 0, which means success.
  unfoldable pub returned : List ℕ → S × Parsed → S × Parsed
  returned text (s, error_at at) =
      if length at == length text then (s, success) else (s, error_at at)
  returned text (s, r) = (s, r)

  -- `XMLParse`, when there is memory.
  unfoldable pub xml_parse : List ℕ → S → S × Parsed
  unfolding parse_loop returned
  xml_parse text s = returned text (parse_loop (length text + 1) text s)
