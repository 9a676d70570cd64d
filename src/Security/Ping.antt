-- ===== src/Security/Ping.antt =====
-- Pings are authenticated by their hash: what is accepted, and for how long.
use maiccu.Base.{
  ℕ, ◌+◌, ◌-◌, ◌*◌, ◌/◌, ◌%◌, ◌^◌, ◌≤◌, ◌<◌, true, List, [], ◌∷◌, ◌++◌, ltb, ◌≡◌, sym, ap₂, ◌∙◌,
  arith, be16, be32, take, length, eq_bytes_refl, eq_bytes→eq, AllBytes, take-append,
}
use maiccu.Address.{Address, to_bytes}
use maiccu.Security.{Md5, Keys, hash, get_pinghash, verify_fields, verify_pinghash}

module _ (md5 : Md5) (k : Keys) where
  abbrev pub age : ℕ → ℕ → ℕ
  age now stamp = (now + 2 ^ 32 - stamp) % 2 ^ 32

  length-hash : (a b c : List ℕ) → length (hash md5 k a b c) ≡ 16
  unfolding hash
  length-hash a b c = md5.digest_16 _

  fields_accept :
      (now stamp : ℕ) (src dst : Address)
      → verify_fields md5 k now src dst
          (be16 k.pid)
          stamp
          (hash md5 k (to_bytes src) (to_bytes dst) (be32 stamp))
        ≡ ltb (age now stamp) 30
  unfolding verify_fields
  fields_accept now stamp src dst = ground (
    arith,
    eq_bytes_refl (be16 k.pid),
    eq_bytes_refl (hash md5 k (to_bytes src) (to_bytes dst) (be32 stamp)),
  )

  -- A ping hash is accepted, for the same addresses, by the clock of 32 bits, exactly while it is
  -- less than thirty seconds old.
  pub verify-get_pinghash :
      (now stamp : ℕ) (src dst : Address) (rest : List ℕ)
      → stamp < 2 ^ 32
      → verify_pinghash md5 k now src dst (get_pinghash md5 k stamp src dst ++ rest)
        ≡ ltb (age now stamp) 30
  unfolding verify_pinghash get_pinghash
  verify-get_pinghash now stamp src dst rest h =
      let tag = hash md5 k (to_bytes src) (to_bytes dst) (be32 stamp) in
      let low : ℕ = stamp % 2 ^ 16 in
      let high : ℕ = stamp / 2 ^ 16 in
      let read : (high / 256 % 256 * 256 + high % 256) * 2 ^ 16
            + (low / 256 % 256 * 256 + low % 256)
          ≡ stamp =
        omega arith in
      ap₂ (verify_fields md5 k now src dst (be16 k.pid)) read
        (take-append tag rest 16 (sym (length-hash (to_bytes src) (to_bytes dst) (be32 stamp))))
      ∙ fields_accept now stamp src dst

  fields_sound :
      (now stamp : ℕ) (src dst : Address) (id tag : List ℕ)
      → verify_fields md5 k now src dst id stamp tag ≡ true
      → (age now stamp < 30)
        × (id ≡ be16 k.pid)
        × (tag ≡ hash md5 k (to_bytes src) (to_bytes dst) (be32 stamp))
  unfolding verify_fields
  fields_sound now stamp src dst id tag h = ground (
    arith,
    eq_bytes→eq id (be16 k.pid),
    eq_bytes→eq (hash md5 k (to_bytes src) (to_bytes dst) (be32 stamp)) tag,
  )

  -- Whatever bytes are accepted as the ping of two addresses are the ping hash of these addresses
  -- under a time stamp of 32 bits that is less than thirty seconds old.
  pub verify_pinghash_sound :
      (now : ℕ) (src dst : Address) (bs : List ℕ)
      → AllBytes bs
      → 22 ≤ length bs
      → verify_pinghash md5 k now src dst bs ≡ true
      → (stamp : ℕ) × (stamp < 2 ^ 32)
        × (age now stamp < 30)
        × (take 22 bs ≡ get_pinghash md5 k stamp src dst)
  unfolding verify_pinghash get_pinghash
  verify_pinghash_sound now src dst (a ∷ b ∷ c ∷ d ∷ e ∷ f ∷ bs) w l h =
      let stamp : ℕ = (e * 256 + f) * 2 ^ 16 + (c * 256 + d) in
      let s = fields_sound now stamp src dst (a ∷ b ∷ []) (take 16 bs) h in
      (stamp, omega (arith, w), s.0, ground (arith, s.1, s.2, w))
  verify_pinghash_sound now src dst bs w l h = absurd (omega arith)
