-- ===== src/Gogoc/Frame/Whole.antt =====
-- gogoc/gogoc-tsp/src/tsp/tsp_net.c: a reply is put together however it is cut.
use mathlib.Core.List.{map, flatten}
use maiccu.Base.{
  ==_iff, eq_bytes_of_eq, take-append_left, length-take, ℕ, ◌+◌, ◌-◌, ◌≤◌, ◌<◌, ◌≡◌, refl, ap, sym,
  ◌∙◌, arith, false, not, ◌||◌, List, [], ◌∷◌, ◌++◌, some, ◌==◌, ltb, take, take_all, drop, length,
  codes, eq_bytes, if_past, if_now, ltb-false, pos-==_zero, append_assoc, append-nil, length-append,
}
use maiccu.Base.Text.{atol}
use maiccu.Gogoc.Session.{Net, failed, got}
use maiccu.Gogoc.Frame.{payload, c_string, behind_newline, receive_rest, receive}

-- `netrecv` gives at least one byte each time.
abbrev pub NoneEmpty : List (List ℕ) → Type 0
NoneEmpty [] = Unit {0}
NoneEmpty (c ∷ cs) = (0 < length c) × NoneEmpty cs

receive_rest-done :
    (free left : ℕ) (bytes : List ℕ) (net : List Net)
    → left ≡ 0
    → receive_rest free left bytes net ≡ payload bytes
unfolding receive_rest
receive_rest-done free left bytes [] h = if_now (left == 0) _ ((==_iff _ _).1 h) refl
receive_rest-done free left bytes (failed ∷ net) h = if_now (left == 0) _ ((==_iff _ _).1 h) refl
receive_rest-done free left bytes (got chunk ∷ net) h = if_now (left == 0) _ ((==_iff _ _).1 h) refl

receive_rest-payload :
    (free left : ℕ) (bytes : List ℕ) (chunks : List (List ℕ)) (net : List Net)
    → length (flatten chunks) ≡ left
    → length bytes + left ≤ free
    → NoneEmpty chunks
    → receive_rest free left bytes (map got chunks ++ net) ≡ payload (bytes ++ flatten chunks)
unfolding receive_rest flatten map
receive_rest-payload free left bytes [] net h k n =
    receive_rest-done free left bytes net (sym h) ∙ ap payload (sym (append-nil bytes))
receive_rest-payload free left bytes (c ∷ cs) net h k n =
    let l = length-append c (flatten cs) in
    let ih =
      receive_rest-payload free (left - length c) (bytes ++ c) cs net (omega (arith, h, l))
        (omega (arith, h, l, length-append bytes c)) (n.1) in
    rw (take_all left c (omega (arith, h, l))) (
      if_past (left == 0) _ (pos-==_zero left (omega (arith, h, l, n.0))) (
        if_past (length c == 0) _ (pos-==_zero (length c) (n.0)) (
          if_past (ltb free (length bytes + length c)) _
            (ltb-false free (length bytes + length c) (omega (arith, h, l, k)))
            (ih ∙ ap payload (append_assoc bytes c (flatten cs))))))

-- No byte is zero.
abbrev pub IsText : List ℕ → Type 0
IsText [] = Unit {0}
IsText (c ∷ cs) = ((c == 0) ≡ false) × IsText cs

-- A line without its end.
abbrev pub IsLine : List ℕ → Type 0
IsLine [] = Unit {0}
IsLine (c ∷ cs) = ((c == 0) ≡ false) × ((c == b'\n') ≡ false) × IsLine cs

c_string-line :
    (head begin : List ℕ)
    → IsLine head
    → IsText begin
    → c_string (head ++ (b'\n' ∷ begin)) ≡ head ++ (b'\n' ∷ begin)
unfolding c_string
c_string-line [] begin h t = ap (◌∷◌ b'\n') (c_string-text begin t)
  where
    c_string-text : (bs : List ℕ) → IsText bs → c_string bs ≡ bs
    c_string-text [] h = refl
    c_string-text (c ∷ cs) (h, k) = if_past (c == 0) _ h (ap (◌∷◌ c) (c_string-text cs k))
c_string-line (c ∷ head) begin (h, n, k) t =
    if_past (c == 0) _ h (ap (◌∷◌ c) (c_string-line head begin k t))

behind_newline-line :
    (head begin : List ℕ) → IsLine head → behind_newline (head ++ (b'\n' ∷ begin)) ≡ some begin
unfolding behind_newline
behind_newline-line [] begin h = refl
behind_newline-line (c ∷ head) begin (h, n, k) =
    if_past (c == b'\n') _ n (behind_newline-line head begin k)

less-==_false : (a b : ℕ) → a < b → (a == b) ≡ false
less-==_false a b h = ground arith

nothing_wrong : (a b : ℕ) → 0 < a → b ≤ a → (a == 0 || ltb a b) ≡ false
nothing_wrong a b h k = ground arith

-- A reply of a line `Content-length: n` and n bytes, which fits into the buffer with a zero behind it, is received as
-- its n bytes, wherever it is cut behind its first line, and no more is read.
pub receive-payload :
    (room : ℕ) (head begin : List ℕ) (chunks : List (List ℕ)) (net : List Net)
    → IsLine head
    → IsText begin
    → take 15 head ≡ codes "Content-length:"
    → atol (drop 15 (head ++ (b'\n' ∷ begin))) ≡ length (begin ++ flatten chunks)
    → 0 < length (begin ++ flatten chunks)
    → length head + 1 + length (begin ++ flatten chunks) < room
    → NoneEmpty chunks
    → receive room (head ++ (b'\n' ∷ begin)) (map got chunks ++ net)
      ≡ payload (begin ++ flatten chunks)
unfolding receive
receive-payload room head begin chunks net h t c s p f n =
    let first = head ++ (b'\n' ∷ begin) in
    let l1 = length-append head (b'\n' ∷ begin) in
    let l2 = length-append begin (flatten chunks) in
    let l15 : 15 ≤ length head = omega (arith, length-take 15 head, ap length c) in
    rw
      (
        c_string-line head begin h t,
        behind_newline-line head begin h,
        c_string-line head begin h t,
        s,
      )
      (if_past (length first == 0) _ (pos-==_zero (length first) (omega (arith, l1))) (
        if_past (not (eq_bytes (take 15 first) (codes "Content-length:"))) _
          (ap not (eq_bytes_of_eq _ _ (take-append_left 15 head (b'\n' ∷ begin) l15 ∙ c)))
          (if_past (length first == room) _
            (less-==_false (length first) room (omega (arith, l1, l2, f)))
            (if_past _ _
              (nothing_wrong (length (begin ++ flatten chunks)) (length begin) p
                (omega (arith, l2)))
              (receive_rest-payload (room - (length first - length begin))
                (length (begin ++ flatten chunks) - length begin) begin chunks net
                (omega (arith, l2)) (omega (arith, l1, l2, f)) n)))))
