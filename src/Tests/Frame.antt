-- ===== src/Tests/Frame.antt =====
-- A reply of a broker that is cut in three.
use mathlib.Core.List.{map, flatten}
use maiccu.Base.{ℕ, ◌≡◌, refl, arith, List, [], ◌∷◌, ◌++◌, codes}
use maiccu.Base.Bytes.{eq_bytes}
use maiccu.Base.Text.{atol, number, digits}
use maiccu.Gogoc.Session.{failed, got}
use maiccu.Gogoc.Frame.{payload, overrun, receive, receive_rest, c_string, behind_newline}
use maiccu.Gogoc.Frame.Whole.{receive-payload}

abbrev head : List ℕ
head = codes "Content-length: 11" ++ (b'\r' ∷ [])

abbrev chunks : List (List ℕ)
chunks = codes " Su" ∷ codes "ccess" ∷ []

receive-payload_example :
    receive 4096 (head ++ (b'\n' ∷ codes "200")) (map got chunks ++ (failed ∷ []))
    ≡ payload (codes "200" ++ flatten chunks)
unfolding flatten atol number digits
receive-payload_example =
    receive-payload 4096 head (codes "200") chunks (failed ∷ []) (ground arith) (ground arith) refl
      refl (omega arith) (omega arith) (ground arith)

-- The announced length is not compared with the buffer.
written_behind : receive 24 (head ++ (b'\n' ∷ codes "200")) (map got chunks) ≡ overrun
unfolding receive receive_rest c_string behind_newline atol number digits eq_bytes
written_behind = refl
