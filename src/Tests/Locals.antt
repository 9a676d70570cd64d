-- ===== src/Tests/Locals.antt =====
-- Discovery and ICMPv6 errors at concrete inputs.
use maiccu.Base.{true, false, List, [], ◌∷◌, none}
use maiccu.Discovery.{Interface, Params, Entry, Discovery}
use maiccu.Tests.{remote}

abbrev params : Params
params = record { forced = false; matches = none; netmask = 0xffffff00 }

-- 192.168.1.7/24 and a global address.
abbrev private_net : Interface
private_net = record { addr = 0xc0a80107; mask = 0xffffff00 }

abbrev entries : List Entry
entries =
    record {
      inet = true;
      multicast = true;
      name = [];
      iface = record { addr = 0x50000001; mask = 0 };
    }
    ∷ record { inet = true; multicast = true; name = []; iface = private_net }
    ∷ []

abbrev found : Discovery
found = record { ifaces = private_net ∷ []; src = remote }
