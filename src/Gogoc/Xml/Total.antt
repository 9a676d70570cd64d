-- ===== src/Gogoc/Xml/Total.antt =====
-- gogoc/gogoc-tsp/src/xml/xmlparse.c: `XMLParse` comes to an end on any text.
use maiccu.Base.{
  ℕ, zero, suc, ◌+◌, ◌≤◌, ◌<◌, Bool, true, false, not, ◌&&◌, List, [], ◌∷◌, Option, none, some,
  ◌==◌, if◌then◌else◌, ltb, length, drop, ◌≡◌, refl, arith, length-drop, if_both, if_given,
}
use maiccu.Gogoc.Xml.{
  is_alpha, is_name, is_end, starts, skip_blanks, span, find, Parsed, success, error_at, refused,
  overrun, overflow, out_of_fuel, Nodes, Attributes, parsed, wrong, endless, Tag, closed, opened,
  broken, tag_rest, end_token, buffer_size, attributes, tag_end, outcome, element, opened_tag,
  start_tag, parse_node, known_tag, unknown_tag, tag, parse_loop, xml_parse, returned,
}

-- The fuel has not run out.
abbrev pub Ends : Parsed → Type 0
Ends success = Unit {0}
Ends (error_at at) = Unit {0}
Ends (refused at r) = Unit {0}
Ends overrun = Unit {0}
Ends overflow = Unit {0}
Ends out_of_fuel = ⊥

length-skip_blanks : (cs : List ℕ) → length (skip_blanks cs) ≤ length cs
unfolding skip_blanks
length-skip_blanks [] = omega arith
length-skip_blanks (c ∷ cs) = ground (arith, length-skip_blanks cs)

length-span : (p : ℕ → Bool) (cs : List ℕ) → length (span p cs).1 ≤ length cs
unfolding span
length-span p [] = omega arith
length-span p (c ∷ cs) = ground (arith, length-span p cs)

-- Where the text is found, what is behind it is not longer than the whole.
abbrev Within : ℕ → Option (List ℕ × List ℕ) → Type 0
Within n none = Unit {0}
Within n (some (before, behind)) = length behind ≤ n

find-Within : (token cs : List ℕ) → Within (length cs) (find token cs)
unfolding find
find-Within [] [] = omega arith
find-Within (t ∷ ts) [] = tt
find-Within token (c ∷ cs) =
    ground (arith, find-Within token cs, length-drop (length token) (c ∷ cs))

abbrev Behind : ℕ → Tag → Type 0
Behind n (broken at) = Unit {0}
Behind n (opened at) = length at < n
Behind n (closed simple at) = length at < n

tag_rest-Behind : (cs : List ℕ) → Behind (length cs) (tag_rest cs)
unfolding tag_rest
tag_rest-Behind [] = tt
tag_rest-Behind (c ∷ cs) = ground arith

-- The loop on attributes has come to an end of itself, and has not gone back.
abbrev EndsAt : {S : Type 0} → ℕ → Attributes S → Type 0
EndsAt n (wrong at s) = Unit {0}
EndsAt n (endless s) = ⊥
EndsAt n (parsed behind s) = (length behind ≤ n) × (starts is_alpha behind ≡ false)

EndsAt-mono : {S : Type 0} (m n : ℕ) (r : Attributes S) → m ≤ n → EndsAt m r → EndsAt n r
EndsAt-mono m n (wrong at s) le e = tt
EndsAt-mono m n (endless s) le e = e
EndsAt-mono m n (parsed behind s) le e = (omega arith, e.1)

not-true : (b : Bool) → not b ≡ true → b ≡ false
not-true true h = cc
not-true false h = refl

length-tag_end : (rest : List ℕ) → length (tag_end rest).1 ≤ length rest
unfolding tag_end
length-tag_end [] = omega arith
length-tag_end (c ∷ cs) = ground arith

module _ {S : Type 0} (t : Nodes S) where
  open t use {has_node, has_attribute, assign, process, left, length-left}

  attributes-EndsAt :
      (fuel : ℕ) (node rest : List ℕ) (s : S)
      → length rest < fuel
      → EndsAt (length rest) (attributes t fuel node rest s)
  unfolding attributes
  attributes-EndsAt zero node rest s le = absurd (omega arith)
  attributes-EndsAt (suc fuel) node [] s le = (omega arith, refl)
  attributes-EndsAt (suc fuel) node (c ∷ cs) s le =
      let rest = c ∷ cs in
      let (name, behind) = span is_name rest in
      let after_equals = drop 1 behind in
      let (value, behind_value) = span (λ c. not (is_end c)) (drop 1 after_equals) in
      let next : S = if has_attribute node name then assign node name value s else s in
      let on = skip_blanks (drop 1 behind_value) in
      let shorter : length on ≤ length cs = omega (
        arith,
        length-skip_blanks (drop 1 behind_value),
        length-drop 1 behind_value,
        length-span (λ c. not (is_end c)) (drop 1 after_equals),
        length-drop 1 after_equals,
        length-drop 1 behind,
        length-span is_name rest,
      ) in
      let more : EndsAt (length rest) (attributes t fuel node on next) =
        EndsAt-mono (length on) (length rest) (attributes t fuel node on next) (omega arith)
          (attributes-EndsAt fuel node on next (omega arith)) in
      if_given (EndsAt (length rest)) (not (is_alpha c)) _ _
        (λ stop. (omega arith, not-true (is_alpha c) stop))
        (λ go. if_both (EndsAt (length rest)) (not (starts (λ c. c == b'=') behind)) _ _ tt (
          if_both (EndsAt (length rest)) (not (starts (λ c. c == b'"') after_equals)) _ _ tt (
            if_both (EndsAt (length rest)) (not (starts (λ c. c == b'"') behind_value)) _ _ tt
              more)))

  outcome-Ends :
      (rest : List ℕ) (r : S × Parsed) (next : S → S × Parsed)
      → ((s : S) → Ends (next s).1)
      → Ends (outcome t rest r next).1
  unfolding outcome
  outcome-Ends rest (s, success) next ends = ends s
  outcome-Ends rest (s, error_at at) next ends = tt
  outcome-Ends rest (s, refused at r) next ends = tt
  outcome-Ends rest (s, overrun) next ends = tt
  outcome-Ends rest (s, overflow) next ends = tt
  outcome-Ends rest (s, out_of_fuel) next ends = tt

  -- What comes next ends on each text of that length.
  abbrev Goes : ℕ → (List ℕ → S → S × Parsed) → Type 0
  Goes n next = (rest : List ℕ) (s : S) → length rest ≤ n → Ends (next rest s).1

  element-Ends :
      (name : List ℕ) (simple : Bool) (rest : List ℕ) (s : S) (next : List ℕ → S → S × Parsed)
      → Goes (length rest) next
      → Ends (element t name simple rest s next).1
  unfolding element
  element-Ends name simple rest s next goes =
      if_both (λ (r : S × Parsed). Ends r.1) simple _ _
        (if_both (λ (r : S × Parsed). Ends r.1) (has_node name) _ _
          (outcome-Ends rest (process name rest s) (next (left name rest s))
            (λ s'. goes (left name rest s) s' (length-left name rest s)))
          (goes rest s (omega arith)))
        (if_both (λ (r : S × Parsed). Ends r.1) (ltb buffer_size (length name + 4)) _ _ tt
          (found_Ends (find (end_token name) rest) (find-Within (end_token name) rest)))
    where
      found_Ends :
          (found : Option (List ℕ × List ℕ))
          → Within (length rest) found
          → Ends
              (elim found as (λ x. S × Parsed) [
                | none ↦ (s, error_at rest)
                | some (content, behind) ↦
                    if has_node name
                    then outcome t rest (process name content s) (next behind)
                    else next behind s
              ]).1
      found_Ends none within = tt
      found_Ends (some (content, behind)) within =
          if_both (λ (r : S × Parsed). Ends r.1) (has_node name) _ _
            (outcome-Ends rest (process name content s) (next behind) (λ s'. goes behind s' within))
            (goes behind s within)

  known_tag-Ends :
      (name : List ℕ) (n : ℕ) (r : Attributes S) (next : List ℕ → S → S × Parsed)
      → EndsAt n r
      → Goes n next
      → Ends (known_tag t name r next).1
  unfolding known_tag
  known_tag-Ends name n (wrong at s) next ends goes = tt
  known_tag-Ends name n (endless s) next ends goes = absurd ends
  known_tag-Ends name n (parsed behind s) next ends goes =
      let (simple, close) = tag_end behind in
      if_both (λ (r : S × Parsed). Ends r.1) (starts (λ c. c == b'>') close) _ _
        (element-Ends name simple (drop 1 close) s next (λ rest s' le.
          goes rest s' (omega (arith, ends.0, length-tag_end behind, length-drop 1 close))))
        tt

  unknown_tag-Ends :
      (name rest : List ℕ) (s : S) (next : List ℕ → S → S × Parsed)
      → Goes (length rest) next
      → Ends (unknown_tag t name rest s next).1
  unfolding unknown_tag
  unknown_tag-Ends name [] s next goes = tt
  unknown_tag-Ends name (c ∷ cs) s next goes = element-Ends name false (c ∷ cs) s next goes

  opened_tag-Ends :
      (name rest : List ℕ) (s : S) (next : List ℕ → S → S × Parsed)
      → Goes (length rest) next
      → Ends (opened_tag t name rest s next).1
  unfolding opened_tag
  opened_tag-Ends name [] s next goes = tt
  opened_tag-Ends name (c ∷ cs) s next goes =
      let rest = c ∷ cs in
      let behind = span (λ c. not (c == b'>')) rest in
      let read = skip_blanks rest in
      if_both (λ (r : S × Parsed). Ends r.1) (has_node name)
        (known_tag t name (attributes t (length rest + 1) name read s) next)
        (unknown_tag t name (drop 1 behind.1) s next)
        (known_tag-Ends name (length read) (attributes t (length rest + 1) name read s) next
          (attributes-EndsAt (length rest + 1) name read s (omega (arith, length-skip_blanks rest)))
          (λ r s' le. goes r s' (omega (arith, length-skip_blanks rest))))
        (unknown_tag-Ends name (drop 1 behind.1) s next (λ r s' le.
          goes r s'
            (omega (arith, length-drop 1 behind.1, length-span (λ c. not (c == b'>')) rest))))

  -- What comes next ends on each text that is shorter.
  abbrev GoesOn : ℕ → (List ℕ → S → S × Parsed) → Type 0
  GoesOn n next = (rest : List ℕ) (s : S) → length rest < n → Ends (next rest s).1

  tag-Ends :
      (name : List ℕ) (n : ℕ) (kind : Tag) (s : S) (next : List ℕ → S → S × Parsed)
      → Behind n kind
      → GoesOn n next
      → Ends (tag t name kind s next).1
  unfolding tag
  tag-Ends name n (broken at) s next behind goes = tt
  tag-Ends name n (opened at) s next behind goes =
      opened_tag-Ends name at s next (λ r s' le. goes r s' (omega arith))
  tag-Ends name n (closed simple at) s next behind goes =
      if_both (λ (r : S × Parsed). Ends r.1) (not (has_node name) && not simple && (length at == 0))
        _ _ tt (element-Ends name simple at s next (λ r s' le. goes r s' (omega arith)))

  parse_node-Ends :
      (rest : List ℕ) (s : S) (next : List ℕ → S → S × Parsed)
      → GoesOn (length rest) next
      → Ends (parse_node t rest s next).1
  unfolding parse_node start_tag
  parse_node-Ends [] s next goes = tt
  parse_node-Ends (c ∷ cs) s next goes =
      let (name, behind) = span is_name cs in
      if_both (λ (r : S × Parsed). Ends r.1) (not (c == b'<')) _ _ tt
        (if_both (λ (r : S × Parsed). Ends r.1) (not (starts is_alpha cs)) _ _ tt
          (tag-Ends name (length behind) (tag_rest behind) s next (tag_rest-Behind behind)
            (λ r s' lt. goes r s' (omega (arith, length-span is_name cs)))))

  loop-Ends :
      (fuel : ℕ) (rest : List ℕ) (s : S) → length rest < fuel → Ends (parse_loop t fuel rest s).1
  unfolding parse_loop
  loop-Ends zero rest s lt = absurd (omega arith)
  loop-Ends (suc fuel) rest s lt =
      parse_node-Ends (skip_blanks rest) s (parse_loop t fuel)
        (λ r s' le. loop-Ends fuel r s' (omega (arith, length-skip_blanks rest)))

  returned-Ends : (text : List ℕ) (r : S × Parsed) → Ends r.1 → Ends (returned t text r).1
  unfolding returned
  returned-Ends text (s, success) ends = tt
  returned-Ends text (s, error_at at) ends =
      if_both (λ (r : S × Parsed). Ends r.1) (length at == length text) (s, success)
        (s, error_at at) tt tt
  returned-Ends text (s, refused at r) ends = tt
  returned-Ends text (s, overrun) ends = tt
  returned-Ends text (s, overflow) ends = tt
  returned-Ends text (s, out_of_fuel) ends = absurd ends

  -- Whatever the text, the table and the processing functions are, which may write into their content but do not make
  -- it longer, XMLParse comes to an end, with all its loops: as many rounds as the text has bytes, and one more, are
  -- enough for the loop on elements, and for each loop on attributes as many as there are bytes left, and one more.
  pub xml_parse-Ends : (text : List ℕ) (s : S) → Ends (xml_parse t text s).1
  unfolding xml_parse
  xml_parse-Ends text s =
      returned-Ends text (parse_loop t (length text + 1) text s)
        (loop-Ends (length text + 1) text s (omega arith))
