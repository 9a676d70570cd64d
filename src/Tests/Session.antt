-- ===== src/Tests/Session.antt =====
-- Sessions of gogoc with a broker at concrete replies.
use Prim.Native.Nat.{bit_and}
use maiccu.Base.{ℕ, ◌≡◌, ◌≢◌, refl, true, false, List, [], ◌∷◌, ◌++◌, some, codes}
use maiccu.Base.Bytes.{eq_bytes}
use maiccu.Base.Text.{atoi, number, digits}
use maiccu.Gogoc.Redirect.{
  Broker, Redirection, handle_redirect, create_list, add_all, add_broker, is_ok,
}
use maiccu.Gogoc.Capability.{extract_capability, scan, close, is_empty, set_capability, eq_case}
use maiccu.Gogoc.Session.{
  success, err_socket_io, evnt_broker_redirection, other, Net, got, Phase, Conf, Env,
  get_capabilities, redirect, datain, capable, crlf,
}
use maiccu.Gogoc.Session.Authenticate.{
  authenticate, ask, plain, plain_result, credentials, mechanism, common,
}
use maiccu.Gogoc.Session.Setup.{
  setup_tunnel, negotiate, acknowledged, leave, returns, no_listener, is_socket_io, is_success,
}
use maiccu.Gogoc.Session.Redirected.{Redirects, setup_tunnel-Redirects}
use maiccu.Gogoc.Session.Started.{starts, Announces, IsCommon, setup_tunnel-started}

abbrev unanswered : List Net → List Broker → Phase
unanswered net brokers = record { status = err_socket_io; said = []; net = net; brokers = brokers }

abbrev redirection : Redirection
redirection = record {
  broker_redirect_ipv4 = some (codes "192.0.2.1") ∷ [];
  broker_redirect_ipv6 = [];
  broker_redirect_dn = [];
}

abbrev env : Env
env = record {
  memory = λ n. true;
  copies = λ n. true;
  distances = some [];
  extract_payload = λ bs. some redirection;
  junk = [];
  auth_passdss_3des_1 = unanswered;
  auth_digest_md5 = unanswered;
  create_request = codes "<tunnel action=create/>";
  acknowledge = codes "<tunnel action=accept/>";
  has_memory = true;
}

abbrev conf : Conf
conf = record {
  tunnel_mode = 1;
  auth_method = codes "any";
  userid = codes "me";
  passwd = codes "secret";
  is_rudp = true;
}

-- The broker offers the plain mechanism and accepts.
abbrev accepting : List Net
accepting =
    got (codes "CAPABILITY TUNNEL=V6V4 AUTH=PLAIN" ++ crlf)
    ∷ got []
    ∷ got (codes "200 Authentication successful" ++ crlf)
    ∷ got (codes "200 OK" ++ crlf)
    ∷ got []
    ∷ []

tunnel_starts :
    starts (setup_tunnel env conf (codes "2.0.2") false success (other 9) accepting []).actions
    ≡ true
unfolding setup_tunnel get_capabilities authenticate negotiate redirect datain capable ask plain
    plain_result credentials mechanism common acknowledged leave returns no_listener is_socket_io
    is_success eq_bytes atoi number digits extract_capability scan close is_empty set_capability
    eq_case
tunnel_starts = refl

setup_tunnel-started_example :
    (cap : ℕ) × (rest : List Net) × Announces accepting cap rest
    × (bit_and conf.tunnel_mode cap ≢ 0)
    × IsCommon conf cap
    × ((authenticate env conf cap rest []).status ≡ success)
    × (success ≡ success)
    × ((negotiate env false
          (authenticate env conf cap rest []).net
          (authenticate env conf cap rest []).brokers).status
        ≡ success)
setup_tunnel-started_example =
    setup_tunnel-started env conf (codes "2.0.2") false success (other 9) accepting [] tunnel_starts

-- The broker redirects at once.
abbrev redirecting : List Net
redirecting = got (codes "1200 Redirection" ++ crlf) ∷ []

session_redirects :
    (setup_tunnel env conf (codes "2.0.2") false success (other 9) redirecting []).status
    ≡ evnt_broker_redirection
unfolding setup_tunnel get_capabilities redirect datain capable leave returns no_listener
    is_socket_io is_success eq_bytes atoi number digits handle_redirect create_list add_all
    add_broker is_ok
session_redirects = refl

setup_tunnel-Redirects_example :
    Redirects env redirecting
      (setup_tunnel env conf (codes "2.0.2") false success (other 9) redirecting []).status
      (setup_tunnel env conf (codes "2.0.2") false success (other 9) redirecting []).brokers
setup_tunnel-Redirects_example =
    setup_tunnel-Redirects env conf (codes "2.0.2") false success (other 9) redirecting []
      (record { passdss = λ net brokers. (tt, λ r s. s); digest = λ net brokers. (tt, λ r s. s) })
      (λ h. cc) (λ h. cc)
