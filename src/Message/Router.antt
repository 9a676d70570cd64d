-- ===== src/Message/Router.antt =====
-- packets.c: the router solicitation.
use maiccu.Base.{
  ℕ, Bool, true, false, List, [], ◌∷◌, ◌++◌, if◌then◌else◌, be16, be32, take, ◌≡◌, refl,
}
use maiccu.Checksum.{Endian, little, big, teredo_cksum, add_word}
use maiccu.Effect.{sent}
use maiccu.Address.{Address, ipport_teredo, teredo_cone, teredo_restrict, all_routers, to_bytes}
use maiccu.Message.{Net, Sending, ipproto_icmpv6, ip6_header}

abbrev nd_router_solicit : ℕ
nd_router_solicit = 133

-- The ICMPv6 message, with its checksum that was computed beforehand.
unfoldable pub solicitation : Bool → List ℕ
solicitation cone = nd_router_solicit ∷ 0 ∷ (be16 (if cone then 0x125d else 0x7d37) ++ be32 0)

abbrev pub solicit_source : Bool → Address
solicit_source cone = if cone then teredo_cone else teredo_restrict

-- The Authentication header with the nonce, and the IPv6 packet.
unfoldable pub rs_bytes : List ℕ → Bool → List ℕ
unfolding solicitation
rs_bytes nonce cone =
    0
    ∷ 1
    ∷ 0
    ∷ 0
    ∷ (take 8 nonce
        ++ (0
            ∷ (ip6_header 8 ipproto_icmpv6 255 (solicit_source cone) all_routers
                ++ solicitation cone)))

unfoldable pub send_rs : Net → ℕ → List ℕ → Bool → Sending
send_rs net server_ip nonce cone = (
  sent server_ip ipport_teredo (rs_bytes nonce cone) ∷ [],
  net server_ip ipport_teredo (rs_bytes nonce cone),
)

-- Both checksums that stand in the code as numbers are right, on either kind of host.
solicitation-cksum :
    (e : Endian) (cone : Bool)
    → teredo_cksum e
        (to_bytes (solicit_source cone))
        (to_bytes all_routers)
        ipproto_icmpv6
        (solicitation cone ∷ [])
      ≡ 0
unfolding teredo_cksum to_bytes solicitation add_word
solicitation-cksum little true = refl
solicitation-cksum little false = refl
solicitation-cksum big true = refl
solicitation-cksum big false = refl
