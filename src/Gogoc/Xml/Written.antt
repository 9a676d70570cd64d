-- ===== src/Gogoc/Xml/Written.antt =====
-- gogoc/gogoc-tsp/src/xml/xmlparse.c: elements that are written down, for `XMLParse`.
use maiccu.Base.{
  ℕ, ◌+◌, ◌≤◌, ◌<◌, Bool, true, false, not, List, [], ◌∷◌, ◌++◌, ◌==◌, length, length-append, ◌≡◌,
  refl, ◌∙◌, arith,
}
use maiccu.Gogoc.Xml.{is_blank, is_alpha, is_name, is_end, starts, span, end_token, buffer_size}
use maiccu.Gogoc.Xml.Scan.{AllIs, NoEarlier}

-- An attribute with its value.
abbrev pub Attribute : Type 0
Attribute = List ℕ × List ℕ

pub record Element : Type 0 where
  pub name : List ℕ
  pub attrs : List Attribute
  pub content : List ℕ

abbrev pub print_attribute : Attribute → List ℕ
print_attribute (a, v) = a ++ (b'=' ∷ b'"' ∷ (v ++ (b'"' ∷ [])))

-- Attributes, each with a space in front, up to `>`, before this text.
abbrev pub print_attributes : List Attribute → List ℕ → List ℕ
print_attributes [] tail = b'>' ∷ tail
print_attributes ((a, v) ∷ rest) tail =
    b' ' ∷ (a ++ (b'=' ∷ b'"' ∷ (v ++ (b'"' ∷ print_attributes rest tail))))

abbrev pub print_element : Element → List ℕ → List ℕ
print_element e tail =
    b'<' ∷ (e.name ++ print_attributes e.attrs (e.content ++ (end_token e.name ++ tail)))

abbrev pub print : List Element → List ℕ
print [] = []
print (e ∷ es) = print_element e (print es)

abbrev pub IsName : List ℕ → Type 0
IsName name = AllIs is_name name × (starts is_alpha name ≡ true)

abbrev pub AreAttributes : List Attribute → Type 0
AreAttributes [] = Unit {0}
AreAttributes ((a, v) ∷ rest) = IsName a × AllIs (λ c. not (is_end c)) v × AreAttributes rest

pub attributes-starts :
    (rest : List Attribute) (tail : List ℕ) → starts is_name (print_attributes rest tail) ≡ false
attributes-starts [] tail = refl
attributes-starts ((a, v) ∷ rest) tail = refl

pub starts-append :
    (p : ℕ → Bool) (xs ys : List ℕ) → starts p xs ≡ true → starts p (xs ++ ys) ≡ true
starts-append p [] ys h = cc
starts-append p (x ∷ xs) ys h = h

pub alpha_not_blank : (xs : List ℕ) → starts is_alpha xs ≡ true → starts is_blank xs ≡ false
alpha_not_blank [] h = refl
alpha_not_blank (x ∷ xs) h = ground arith

pub span-over : (p : ℕ → Bool) (xs ys : List ℕ) → AllIs p xs → (span p (xs ++ ys)).1 ≡ (span p ys).1
unfolding span
span-over p [] ys all = refl
span-over p (x ∷ xs) ys all = rw all.0 (span-over p xs ys all.1)

pub AllIs-mono :
    (p q : ℕ → Bool) (xs : List ℕ) → ((c : ℕ) → p c ≡ true → q c ≡ true) → AllIs p xs → AllIs q xs
AllIs-mono p q [] h all = tt
AllIs-mono p q (x ∷ xs) h all = (h x all.0, AllIs-mono p q xs h all.1)

abbrev pub is_inside : ℕ → Bool
is_inside c = not (c == b'>')

pub name_is_inside : (c : ℕ) → is_name c ≡ true → is_inside c ≡ true
name_is_inside c h = ground arith

pub value_is_inside : (c : ℕ) → not (is_end c) ≡ true → is_inside c ≡ true
value_is_inside c h = ground arith

pub span-attributes :
    (attrs : List Attribute) (tail : List ℕ)
    → AreAttributes attrs
    → (span is_inside (print_attributes attrs tail)).1 ≡ b'>' ∷ tail
unfolding span
span-attributes [] tail ok = refl
span-attributes ((a, v) ∷ attrs) tail ok =
    span-over is_inside a _ (AllIs-mono is_name is_inside a name_is_inside ok.0.0)
    ∙ span-over is_inside v _ (AllIs-mono (λ c. not (is_end c)) is_inside v value_is_inside ok.1)
    ∙ span-attributes attrs tail ok.2

pub not_empty :
    (content : List ℕ) (c : ℕ) (tail : List ℕ) → (length (content ++ (c ∷ tail)) == 0) ≡ false
not_empty [] c tail = ground arith
not_empty (x ∷ xs) c tail = ground arith

-- An element written so that it is found, with a name that fits in the buffer for the end tag; the content does not
-- hold the end tag.
abbrev pub IsWritten : Element → List ℕ → Type 0
IsWritten e tail =
    IsName e.name
    × (length e.name + 4 ≤ buffer_size)
    × AreAttributes e.attrs
    × NoEarlier (end_token e.name) e.content (end_token e.name ++ tail)

abbrev pub AreWritten : List Element → Type 0
AreWritten [] = Unit {0}
AreWritten (e ∷ es) = IsWritten e (print es) × AreWritten es

pub length-print_attributes :
    (rest : List Attribute) (tail : List ℕ)
    → length rest + length tail < length (print_attributes rest tail)
length-print_attributes [] tail = omega arith
length-print_attributes ((a, v) ∷ rest) tail = omega (
  arith,
  length-append a (b'=' ∷ b'"' ∷ (v ++ (b'"' ∷ print_attributes rest tail))),
  length-append v (b'"' ∷ print_attributes rest tail),
  length-print_attributes rest tail,
)

pub length-print : (es : List Element) → length es ≤ length (print es)
length-print [] = omega arith
length-print (e ∷ es) = omega (
  arith,
  length-append e.name (print_attributes e.attrs (e.content ++ (end_token e.name ++ print es))),
  length-print_attributes e.attrs (e.content ++ (end_token e.name ++ print es)),
  length-append e.content (end_token e.name ++ print es),
  length-append (e.name ++ (b'>' ∷ [])) (print es),
  length-print es,
)
