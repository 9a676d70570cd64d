-- ===== src/Security.antt =====
-- miredo/libteredo/security.c: the keyed hash of pings, nonces and flags. MD5 (md5.c is a copy of
-- another project's) is a parameter: a function from the bytes that are appended to the digest.
pub mod Ping
pub mod Key
use Prim.Native.Nat.{bit_xor}
use maiccu.Base.{
  ℕ, suc, ◌+◌, ◌-◌, ◌*◌, ◌/◌, ◌%◌, ◌^◌, ◌≡◌, ◌<◌, Bool, true, false, not, ◌&&◌, List, [], ◌∷◌, ◌++◌,
  map, Option, none, some, ltb, ◌==◌, if◌then◌else◌, be16, be32, u8, u16, take, drop, length,
  replicate, eq_bytes, AllBytes,
}
use maiccu.Checksum.{Endian, little, big, memory}
use maiccu.Address.{Address, to_bytes}

-- MD5: a digest is sixteen bytes.
pub record Md5 : Type 0 where
  pub digest : List ℕ → List ℕ
  pub digest_16 : (bs : List ℕ) → length (digest bs) ≡ 16
  pub digest_bytes : (bs : List ℕ) → AllBytes (digest bs)

-- The static variables: both padded keys and `hmac_pid`, which is zero before the first start.
pub record Keys : Type 0 where
  pub ipad : List ℕ
  pub opad : List ℕ
  pub pid : ℕ

abbrev pub key_len : ℕ
key_len = 16

abbrev pub block_len : ℕ
block_len = 64

-- A `uint32_t` of the host in memory.
abbrev pub memory_32 : Endian → ℕ → List ℕ
memory_32 little x = x % 256 ∷ x / 256 % 256 ∷ x / 2 ^ 16 % 256 ∷ x / 2 ^ 24 % 256 ∷ []
memory_32 big x = be32 x

-- The loop that reads the key from /dev/random; each element is what one `read` returns, empty for
-- an error or an end of file. `none` if the reads run out.
unfoldable pub write_at : List ℕ → ℕ → List ℕ → List ℕ
write_at key at bs = take at key ++ (bs ++ drop (at + length bs) key)

unfoldable pub read_key : List (List ℕ) → ℕ → List ℕ → Option (List ℕ)
unfolding write_at
read_key [] len key = if ltb len key_len then none else some key
read_key (bs ∷ reads) len key =
    let rest =
      read_key reads (if ltb 0 (length bs) then (len + 2 ^ 32 - length bs) % 2 ^ 32 else len)
        (if ltb 0 (length bs) then write_at key len bs else key) in
    if ltb len key_len then rest else some key

-- `teredo_init_HMAC`: the process id and the reads come from outside; `none` stands for -1 (no
-- device) and for a device that never delivers.
unfoldable pub init_hmac : Keys → ℕ → Option (List (List ℕ)) → Option Keys
unfolding read_key
init_hmac k pid device = if k.pid == pid % 2 ^ 16 then some k else (elim device [
  | none ↦ none
  | some reads ↦ elim (read_key reads 0 (replicate block_len 0)) [
    | none ↦ none
    | some key ↦ some (record {
      ipad = map (λ b. bit_xor b 0x36) key;
      opad = map (λ b. bit_xor b 0x5c) key;
      pid = pid % 2 ^ 16;
    })
  ]
])

module _ (md5 : Md5) (k : Keys) where
  -- `teredo_hash`; the time stamp is its four bytes in memory.
  unfoldable pub hash : List ℕ → List ℕ → List ℕ → List ℕ
  hash src dst stamp =
      md5.digest (k.opad ++ md5.digest (k.ipad ++ (src ++ (dst ++ (be16 k.pid ++ stamp)))))

  -- The 22 bytes of a ping from the ICMPv6 identifier on.
  unfoldable pub get_pinghash : ℕ → Address → Address → List ℕ
  get_pinghash stamp src dst =
      be16 k.pid
      ++ (be16 (stamp % 2 ^ 16)
          ++ (be16 (stamp / 2 ^ 16) ++ hash (to_bytes src) (to_bytes dst) (be32 stamp)))

  -- The checks of `teredo_verify_pinghash`, on the identifier, the time stamp and the hash.
  unfoldable pub verify_fields : ℕ → Address → Address → List ℕ → ℕ → List ℕ → Bool
  verify_fields now src dst id stamp h =
      if not (eq_bytes id (be16 k.pid))
      then false
      else if not (ltb ((now + 2 ^ 32 - stamp) % 2 ^ 32) 30)
      then false
      else eq_bytes (hash (to_bytes src) (to_bytes dst) (be32 stamp)) h

  -- `true` stands for 0, `false` for -1. The time stamp has its low half first.
  unfoldable pub verify_pinghash : ℕ → Address → Address → List ℕ → Bool
  verify_pinghash now src dst bs =
      verify_fields now src dst (take 2 bs) (u16 bs 4 * 2 ^ 16 + u16 bs 2) (take 16 (drop 6 bs))

  -- The randomised flag bits, of the host's byte order in the time stamp.
  unfoldable pub get_flbits : Endian → ℕ → ℕ
  unfolding hash
  get_flbits e stamp = let h = hash [] [] (memory_32 e stamp) in u8 h 0 * 256 + u8 h 1

  -- Eight bytes for an address and a port in network order.
  unfoldable pub get_nonce : Endian → ℕ → ℕ → ℕ → List ℕ
  unfolding hash
  get_nonce e stamp ipv4 port = take 8 (hash (be32 ipv4) (be16 port) (memory_32 e stamp))
