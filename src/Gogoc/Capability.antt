-- ===== src/Gogoc/Capability.antt =====
-- gogoc/gogoc-tsp/src/tsp/tsp_cap.c: the capabilities that a broker announces. The buffer is the list of its
-- bytes, the zeros behind the text among them.
pub mod Print
use Prim.Native.Nat.{bit_or}
use maiccu.Base.{
  ℕ, zero, suc, ◌+◌, ◌-◌, ◌≡◌, Bool, true, false, not, ◌&&◌, ◌||◌, List, [], ◌∷◌, ◌++◌, map, Option,
  none, some, ◌==◌, leb, if◌then◌else◌, drop, eq_bytes, codes,
}

abbrev pub tunnel_v6v4 : ℕ
tunnel_v6v4 = 0x0001

abbrev pub tunnel_v6udpv4 : ℕ
tunnel_v6udpv4 = 0x0002

abbrev pub tunnel_v4v6 : ℕ
tunnel_v4v6 = 0x0004

abbrev pub auth_passdss_3des_1 : ℕ
auth_passdss_3des_1 = 0x0080

abbrev pub auth_digest_md5 : ℕ
auth_digest_md5 = 0x0040

abbrev pub auth_plain : ℕ
auth_plain = 0x0020

abbrev pub auth_anonymous : ℕ
auth_anonymous = 0x0010

-- `strcasecmp`
to_lower : ℕ → ℕ
to_lower c = if leb b'A' c && leb c b'Z' then c + 32 else c

unfoldable pub eq_case : List ℕ → List ℕ → Bool
unfolding to_lower
eq_case xs ys = eq_bytes (map to_lower xs) (map to_lower ys)

-- `tspSetCapability`, built with OpenSSL and V4V6_SUPPORT.
unfoldable pub set_capability : List ℕ → List ℕ → ℕ
unfolding eq_case
set_capability token value =
    if eq_bytes (codes "TUNNEL") token && eq_bytes (codes "V6V4") value
    then tunnel_v6v4
    else if eq_bytes (codes "TUNNEL") token && eq_bytes (codes "V6UDPV4") value
    then tunnel_v6udpv4
    else if eq_bytes (codes "TUNNEL") token && eq_bytes (codes "V4V6") value
    then tunnel_v4v6
    else if not (eq_bytes (codes "AUTH") token)
    then 0
    else if eq_case (codes "PASSDSS-3DES-1") value
    then auth_passdss_3des_1
    else if eq_case (codes "DIGEST-MD5") value
    then auth_digest_md5
    else if eq_case (codes "ANONYMOUS") value
    then auth_anonymous
    else if eq_case (codes "PLAIN") value
    then auth_plain
    else 0

abbrev pub is_space : ℕ → Bool
is_space c = c == b' ' || c == b'\r' || c == b'\n'

-- The variables of the loop: the bytes from `s` to `e`, `Token`, `Value` and `flags`.
pub record Scan : Type 0 where
  pub text : List ℕ
  pub token : List ℕ
  pub value : List ℕ
  pub flags : ℕ

unfoldable pub is_empty : List ℕ → Bool
is_empty [] = true
is_empty (c ∷ cs) = false

-- The body of the first `if`, up to `s = ++e`.
unfoldable pub close : Scan → Scan
unfolding is_empty set_capability
close v =
    let value = if not (is_empty v.token) && is_empty v.value then v.text else v.value in
    if is_empty v.text
    then v
    else if not (is_empty v.token) && not (is_empty value)
    then record {
      text = [];
      token = [];
      value = [];
      flags = bit_or v.flags (set_capability v.token value);
    }
    else record v { text = []; value = value }

-- The loop of `tspExtractCapability`. A byte behind a separator or an equals sign is stepped over, also the
-- zero at the end of the text. `none` if it reads behind the buffer.
unfoldable pub scan : List ℕ → Scan → Option ℕ
unfolding close is_empty
scan [] v = none
scan (c ∷ []) v = if c == 0 then some v.flags else none
scan (c ∷ d ∷ rest) v = elim (c == 0) [
  | true ↦ some v.flags
  | false ↦ elim (is_space c) [
    | true ↦ scan rest (record (close v) { text = d ∷ [] })
    | false ↦ elim (c == b'=' && not (is_empty v.text)) [
      | true ↦ scan rest (record v { text = d ∷ []; token = v.text })
      | false ↦ scan (d ∷ rest) (record v { text = v.text ++ (c ∷ []) })
    ]
  ]
]

-- `tspExtractCapability`, behind the word CAPABILITY and its blank.
unfoldable pub extract_capability : List ℕ → Option ℕ
unfolding scan
extract_capability buffer =
    scan (drop 11 buffer) (record { text = []; token = []; value = []; flags = 0 })
