-- ===== src/Server/Guard.antt =====
-- miredo/libteredo/server.c: what a server lets out to the IPv6 network.
use maiccu.Base.{◌≤◌, true, false, not, ◌&&◌, ◌==◌, ltb, ◌≡◌, arith}
use maiccu.Address.{Address}
use maiccu.Packet.{Packet}
use maiccu.Message.{ip6_plen, ip6_nxt, is_bubble, ipproto_none}
use maiccu.Server.{Server, is_wellformed}

-- A well-formed packet that is not a bubble is an ICMPv6 message.
pub is_wellformed-small :
    (p : Packet)
    → is_wellformed p ≡ true
    → (not (ip6_nxt p.ip6 == ipproto_none) && ltb 88 (ip6_plen p.ip6)) ≡ false
    → ip6_plen p.ip6 ≤ 88
unfolding is_wellformed is_bubble
is_wellformed-small p h g = ground arith
