-- ===== src/Gogoc/Session.antt =====
-- gogoc/gogoc-tsp/src/tsp: a session with a broker: what its parts share, and `tspGetCapabilities` (tsp_cap.c),
-- built with OpenSSL and V4V6_SUPPORT. A reply is the list of the bytes that came.
pub mod Authenticate
pub mod Setup
pub mod Redirected
pub mod Started
use Prim.Native.Nat.{bit_and}
use mathlib.Core.List.{map}
use maiccu.Base.{
  ℕ, ◌-◌, ◌^◌, Bool, true, false, not, ◌&&◌, List, [], ◌∷◌, ◌++◌, Option, none, some, ◌==◌, ltb,
  if◌then◌else◌, take, length, replicate, codes, eq_bytes,
}
use maiccu.Base.Text.{atoi}
use maiccu.Gogoc.Redirect.{Broker, Brokers, Redirection, is_ok, handle_redirect}
use maiccu.Gogoc.Capability.{
  extract_capability, set_capability, eq_case, auth_passdss_3des_1, auth_digest_md5, auth_plain,
  auth_anonymous,
}

-- `gogoc_status_num`, as far as it is used here; `waiting` is a call that has not returned, `fault` one that has
-- read behind a buffer.
pub data GogocStatus : Type 0 where
  success evnt_broker_redirection err_broker_redirection err_socket_io : GogocStatus
  err_fail_socket_connect err_tsp_server_too_busy err_inval_tsp_version : GogocStatus
  err_tsp_generic_error err_no_common_authentication err_authentication_failure : GogocStatus
  err_tunmode_not_available err_memory_starvation err_inval_gogoc_address : GogocStatus
  err_keepalive_timeout err_keepalive_error err_tun_lease_expired err_tunnel_io : GogocStatus
  waiting fault : GogocStatus
  other : ℕ → GogocStatus

abbrev pub tsp_protocol_success : ℕ
tsp_protocol_success = 200

abbrev pub tsp_protocol_auth_failed : ℕ
tsp_protocol_auth_failed = 300

abbrev pub tsp_protocol_unsup_tsp_ver : ℕ
tsp_protocol_unsup_tsp_ver = 302

abbrev pub tsp_protocol_server_too_busy : ℕ
tsp_protocol_server_too_busy = 530

abbrev pub auth_any : ℕ
auth_any = 0xf0

abbrev pub receive_size : ℕ
receive_size = 4096

-- What the next call of `netsend` or `netsendrecv` gives: -1, or the bytes that came.
pub data Net : Type 0 where
  failed : Net
  got : List ℕ → Net

-- The part of the session that a call was: its result, what it sent, the calls to come and the list of brokers.
pub record Phase : Type 0 where
  pub status : GogocStatus
  pub said : List (List ℕ)
  pub net : List Net
  pub brokers : List Broker

-- The configuration, as far as it is used here.
pub record Conf : Type 0 where
  pub tunnel_mode : ℕ
  pub auth_method : List ℕ
  pub userid : List ℕ
  pub passwd : List ℕ
  pub is_rudp : Bool

-- What a session gets from elsewhere: memory and distances for a redirection, `tspExtractPayload`, what lies
-- in a buffer behind a reply, the two longer authentications, the request and its acknowledgement, and whether there is memory for the reply.
pub record Env : Type 0 where
  pub memory : ℕ → Bool
  pub copies : ℕ → Bool
  pub distances : Option (List ℕ)
  pub extract_payload : List ℕ → Option Redirection
  pub junk : List ℕ
  pub auth_passdss_3des_1 : List Net → List Broker → Phase
  pub auth_digest_md5 : List Net → List Broker → Phase
  pub create_request : List ℕ
  pub acknowledge : List ℕ
  pub has_memory : Bool

abbrev pub crlf : List ℕ
crlf = b'\r' ∷ b'\n' ∷ []

-- `tspIsRedirectStatus`, of an `int`.
abbrev pub is_redirect : ℕ → Bool
is_redirect code = ltb 1000 code && ltb code (2 ^ 31)

-- A reply that redirects: `tspHandleRedirect`.
unfoldable pub redirect : Env → List ℕ → List (List ℕ) → List Net → List Broker → Phase
redirect env reply said net brokers =
    let handled =
      handle_redirect env.memory env.copies env.distances (env.extract_payload reply) brokers in
    record {
      status = if is_ok handled.status then evnt_broker_redirection else err_broker_redirection;
      said = said;
      net = net;
      brokers = handled.list;
    }

unfoldable pub datain : List ℕ → List ℕ
datain reply = let bs = take receive_size reply in bs ++ replicate (receive_size - length bs) 0

-- A call of `tspGetCapabilities`, with `*capability` if it has been set.
pub record Capabilities : Type 0 where
  pub phase : Phase
  pub capability : ℕ

unfoldable pub capable : GogocStatus → ℕ → List (List ℕ) → List Net → List Broker → Capabilities
capable status capability said net brokers = record {
  phase = record { status = status; said = said; net = net; brokers = brokers };
  capability = capability;
}

-- The switch on the status of the reply.
unfoldable pub capability_error : ℕ → GogocStatus
capability_error code =
    if code == tsp_protocol_server_too_busy
    then err_tsp_server_too_busy
    else if code == tsp_protocol_unsup_tsp_ver
    then err_inval_tsp_version
    else err_tsp_generic_error

-- `tspGetCapabilities`, with the name of the version.
unfoldable pub get_capabilities : Env → List ℕ → List Net → List Broker → Capabilities
unfolding capable redirect datain capability_error
get_capabilities env version net brokers =
    let said = (codes "VERSION=" ++ (version ++ crlf)) ∷ [] in
    elim net [
      | [] ↦ capable waiting 0 said [] brokers
      | failed ∷ rest ↦ capable err_socket_io 0 said rest brokers
      | got reply ∷ rest ↦
          let code = atoi (datain reply) in
          let other_reply =
            if is_redirect code
            then record { phase = redirect env (datain reply) said rest brokers; capability = 0 }
            else capable (capability_error code) 0 said rest brokers in
          let extracted : Capabilities = elim (extract_capability (datain reply)) [
            | none ↦ capable fault 0 said rest brokers
            | some capability ↦ capable success capability said rest brokers
          ] in
          if eq_bytes (codes "CAPABILITY ") (take 11 (datain reply)) then extracted else other_reply
    ]
