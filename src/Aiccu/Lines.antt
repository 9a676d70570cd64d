-- ===== src/Aiccu/Lines.antt =====
-- aiccu/common.c: `sock_getline`, which takes lines out of a TCP stream. `rbuf` is the list of the
-- `*filled` bytes that wait in the buffer.
pub mod Stream
pub mod Room
use maiccu.Base.{
  ℕ, zero, suc, ◌+◌, ◌-◌, Bool, true, false, ◌||◌, List, [], ◌∷◌, ◌++◌, Option, none, some, ◌==◌,
  leb, ltb, if◌then◌else◌, u8, take, drop, length,
}
use mathlib.Core.Option

-- What `recv` does: the connection is closed (0), an error (-1), or bytes.
pub data Recv : Type 0 where
  closed failed : Recv
  got : List ℕ → Recv

-- What a call comes to, with what is left in the buffer and the calls of `recv` to come:
-- a line with the bytes it took; -1; still waiting in `recv`. And where the code has no defined
-- meaning: it reads `rbuf[i-1]` at i = 0, it copies more than `ubuf` holds, or `*filled` wraps around.
pub data Outcome : Type 0 where
  line : List ℕ → ℕ → List ℕ → List Recv → Outcome
  error : List ℕ → List Recv → Outcome
  waiting : List ℕ → Outcome
  before_buffer overrun wrapped : Outcome

-- The first newline.
unfoldable pub newline : List ℕ → Option ℕ
newline [] = none
newline (b ∷ bs) = if b == b'\n' then some 0 else Option.map suc (newline bs)

-- The text before the newline at `i`, without a carriage return before it.
unfoldable pub chomp : List ℕ → ℕ → List ℕ
chomp rbuf i = take (if u8 rbuf (i - 1) == b'\r' then i - 1 else i) rbuf

-- A newline was found.
unfoldable pub copy : ℕ → List ℕ → ℕ → List Recv → Outcome
unfolding chomp
copy ubuflen rbuf i calls =
    let text = chomp rbuf i in
    if i == 0
    then before_buffer
    else if ltb ubuflen (length text)
    then overrun
    else line text (i + 1) (drop (i + 1) rbuf) calls

unfoldable pub is_full : ℕ → ℕ → List ℕ → Bool
is_full rbuflen ubuflen rbuf = leb (rbuflen - 10) (length rbuf) || leb (ubuflen - 10) (length rbuf)

-- `*filled += i` with -1 for an error: one byte less.
unfoldable pub drop_last : List ℕ → List ℕ
drop_last bs = take (length bs - 1) bs

-- `sock_getline` on an open socket, with the results of its calls of `recv`.
unfoldable pub sock_getline : ℕ → ℕ → List ℕ → List Recv → Outcome
unfolding copy is_full drop_last
sock_getline rbuflen ubuflen rbuf [] = elim (newline rbuf) [
  | some i ↦ copy ubuflen rbuf i []
  | none ↦ waiting rbuf
]
sock_getline rbuflen ubuflen rbuf (closed ∷ calls) = elim (newline rbuf) [
  | some i ↦ copy ubuflen rbuf i (closed ∷ calls)
  | none ↦ error rbuf calls
]
sock_getline rbuflen ubuflen rbuf (failed ∷ calls) = elim (newline rbuf) [
  | some i ↦ copy ubuflen rbuf i (failed ∷ calls)
  | none ↦
      if length rbuf == 0
      then wrapped
      else if is_full rbuflen ubuflen (drop_last rbuf)
      then error (drop_last rbuf) calls
      else sock_getline rbuflen ubuflen (drop_last rbuf) calls
]
sock_getline rbuflen ubuflen rbuf (got bs ∷ calls) = elim (newline rbuf) [
  | some i ↦ copy ubuflen rbuf i (got bs ∷ calls)
  | none ↦
      if is_full rbuflen ubuflen (rbuf ++ bs)
      then error (rbuf ++ bs) calls
      else sock_getline rbuflen ubuflen (rbuf ++ bs) calls
]
