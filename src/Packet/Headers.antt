-- ===== src/Packet/Headers.antt =====
-- The headers of an encapsulation as bytes, and how the Authentication header is read back.
use maiccu.Base.{
  ℕ, ◌+◌, ◌-◌, ◌^◌, ◌<◌, true, not, List, [], ◌∷◌, ◌++◌, some, ◌≡◌, refl, sym, ap, ◌∙◌, arith, ◌==◌,
  take, drop, length, u8, be16, be32, take-append, drop-append, drop-drop, length-append,
  get_or-drop, get_or-append_right, append_assoc,
}
use maiccu.Packet.{parse_auth}

-- The fields of an Authentication header, and its bytes.
pub record Auth : Type 0 where
  pub id : List ℕ
  pub value : List ℕ
  pub nonce : List ℕ
  pub confirmation : ℕ

abbrev pub encode_auth : Auth → List ℕ → List ℕ
encode_auth a rest =
    0
    ∷ 1
    ∷ length a.id
    ∷ length a.value
    ∷ (a.id ++ (a.value ++ (a.nonce ++ (a.confirmation ∷ rest))))

-- An Origin Indication holds the complements of the port and the address.
pub record Origin : Type 0 where
  pub port : ℕ
  pub ip : ℕ

abbrev pub encode_orig : Origin → List ℕ → List ℕ
encode_orig o rest = 0 ∷ 0 ∷ (be16 (0xffff - o.port) ++ (be32 (0xffffffff - o.ip) ++ rest))

-- The nonce has eight bytes. That both lengths fit in one byte is not needed.
pub record IsAuth (a : Auth) : Type 0 where
  pub nonce_8 : length a.nonce ≡ 8

pub record IsOrigin (o : Origin) : Type 0 where
  pub port_16 : o.port < 2 ^ 16
  pub ip_32 : o.ip < 2 ^ 32

module _ (a : Auth) (rest : List ℕ) (v : IsAuth a) where
  -- The header up to the nonce.
  abbrev ids : List ℕ
  ids = 0 ∷ 1 ∷ length a.id ∷ length a.value ∷ (a.id ++ a.value)

  at_nonce : encode_auth a rest ≡ ids ++ (a.nonce ++ (a.confirmation ∷ rest))
  at_nonce =
      ap (λ l. 0 ∷ 1 ∷ length a.id ∷ length a.value ∷ l)
        (sym (append_assoc a.id a.value (a.nonce ++ (a.confirmation ∷ rest))))

  length-ids : length ids ≡ 4 + length a.id + length a.value
  length-ids = omega (arith, length-append a.id a.value)

  drop_ids :
      (k : ℕ)
      → k ≡ 4 + length a.id + length a.value
      → drop k (encode_auth a rest) ≡ a.nonce ++ (a.confirmation ∷ rest)
  drop_ids k h = rw at_nonce (drop-append ids _ k (omega (arith, length-ids)))

  take_nonce :
      (k : ℕ)
      → k ≡ 4 + length a.id + length a.value
      → take 8 (drop k (encode_auth a rest)) ≡ a.nonce
  take_nonce k h = rw (drop_ids k h) (take-append a.nonce _ 8 (omega (arith, v.nonce_8)))

  get_confirmation :
      (k : ℕ)
      → k ≡ 4 + length a.id + length a.value + 8
      → u8 (encode_auth a rest) k ≡ a.confirmation
  get_confirmation k h =
      sym (get_or-drop (4 + length a.id + length a.value) 8 k (encode_auth a rest) 0 (omega arith))
      ∙ rw (drop_ids (4 + length a.id + length a.value) refl)
          (get_or-append_right a.nonce (a.confirmation ∷ rest) 8 0 (omega (arith, v.nonce_8)))

  drop_auth :
      (k : ℕ) → k ≡ 4 + length a.id + length a.value + 9 → drop k (encode_auth a rest) ≡ rest
  drop_auth k h =
      sym (drop-drop 9 (4 + length a.id + length a.value) k (encode_auth a rest) h)
      ∙ rw (drop_ids (4 + length a.id + length a.value) refl) (
          rw (← append_assoc a.nonce (a.confirmation ∷ []) rest) (
            drop-append (a.nonce ++ (a.confirmation ∷ [])) rest 9
              (omega (arith, length-append a.nonce (a.confirmation ∷ []), v.nonce_8))))

  length-encode_auth : length (encode_auth a rest) ≡ 13 + length a.id + length a.value + length rest
  length-encode_auth = omega (
    arith,
    length-append a.id (a.value ++ (a.nonce ++ (a.confirmation ∷ rest))),
    length-append a.value (a.nonce ++ (a.confirmation ∷ rest)),
    length-append a.nonce (a.confirmation ∷ rest),
    v.nonce_8,
  )

encode_auth-append : (a : Auth) (xs ys : List ℕ) → encode_auth a xs ++ ys ≡ encode_auth a (xs ++ ys)
encode_auth-append a xs ys = simp append_assoc

-- Past the Authentication header the parser goes on with the rest, at the front of the buffer.
pub parse_auth-encode :
    (a : Auth) (rest stale old : List ℕ)
    → IsAuth a
    → parse_auth (encode_auth a rest ++ stale) (length (encode_auth a rest)) old
      ≡ some (record {
        fill = rest ++ drop (length rest) (encode_auth a (rest ++ stale));
        ptr = 0;
        len = length rest;
        present = true;
        fail = not (a.confirmation == 0);
        nonce = a.nonce;
      })
unfolding parse_auth
parse_auth-encode a rest stale old v =
    let ids : ℕ = length a.id + length a.value in
    let left : 13 + length a.id + length a.value + length rest - 13 - ids ≡ length rest =
      omega arith in
    rw (encode_auth-append a rest stale, length-encode_auth a rest v)
      (rw left (
        ground (
          arith,
          take_nonce a (rest ++ stale) v (4 + length a.id + length a.value) refl,
          get_confirmation a (rest ++ stale) v (4 + length a.id + length a.value + 8) refl,
          drop_auth a (rest ++ stale) v (4 + length a.id + length a.value + 9) refl,
          take-append rest stale (length rest) refl,
        )))
