-- ===== src/Gogoc/Frame.antt =====
-- gogoc/gogoc-tsp/src/tsp/tsp_net.c: how `tspSendRecv` puts a reply together. A reply begins with a line
-- `Content-length: n` and goes on with n bytes, which TCP may cut anywhere.
pub mod Whole
use maiccu.Base.{
  ℕ, zero, suc, ◌+◌, ◌-◌, Bool, true, false, not, ◌||◌, List, [], ◌∷◌, ◌++◌, Option, none, some,
  ◌==◌, ltb, if◌then◌else◌, take, drop, length, codes, eq_bytes,
}
use maiccu.Base.Text.{atol}
use maiccu.Gogoc.Session.{Net, failed, got}

-- What a call comes to: the payload; -1; PROTOCOL_ERROR; still waiting in `netrecv`; and where the code has no
-- defined meaning: it reads behind `plout->payload`, or writes behind it.
pub data Received : Type 0 where
  payload : List ℕ → Received
  refused protocol_error waits overread overrun : Received

-- The text of a buffer, up to its first zero.
unfoldable pub c_string : List ℕ → List ℕ
c_string [] = []
c_string (c ∷ cs) = if c == 0 then [] else c ∷ c_string cs

-- `strchr(text, '\n') + 1`
unfoldable pub behind_newline : List ℕ → Option (List ℕ)
behind_newline [] = none
behind_newline (c ∷ cs) = if c == b'\n' then some cs else behind_newline cs

-- The loop over `netrecv`: `free` bytes are left in the buffer behind the line, `bytes` are there, and `left` are to come.
unfoldable pub receive_rest : ℕ → ℕ → List ℕ → List Net → Received
receive_rest free left bytes [] = if left == 0 then payload bytes else waits
receive_rest free left bytes (failed ∷ net) = if left == 0 then payload bytes else protocol_error
receive_rest free left bytes (got chunk ∷ net) =
    let read = take left chunk in
    let rest = receive_rest free (left - length read) (bytes ++ read) net in
    if left == 0
    then payload bytes
    else if length read == 0
    then protocol_error
    else if ltb free (length bytes + length read)
    then overrun
    else rest

-- `tspSendRecv` from its reply on: the size of the cleared buffer, and what came with the first call.
unfoldable pub receive : ℕ → List ℕ → List Net → Received
unfolding c_string behind_newline receive_rest
receive room first net =
    let text = c_string first in
    let size = atol (drop 15 text) in
    let follows : Received = elim (behind_newline text) [
      | none ↦ refused
      | some bytes ↦
          let rest =
            receive_rest (room - (length text - length bytes)) (size - length bytes) bytes net in
          if size == 0 || ltb size (length bytes) then refused else rest
    ] in
    if length first == 0
    then refused
    else if not (eq_bytes (take 15 first) (codes "Content-length:"))
    then refused
    else if length text == room
    then overread
    else follows
