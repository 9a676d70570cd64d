-- ===== src/Gogoc/Session/Authenticate.antt =====
-- gogoc/gogoc-tsp/src/tsp/tsp_auth.c: `tspAuthenticate`, `AuthANONYMOUS`, `AuthPLAIN`.
use Prim.Native.Nat.{bit_and}
use maiccu.Base.{ℕ, Bool, not, List, [], ◌∷◌, ◌++◌, ◌==◌, ltb, if◌then◌else◌, take, length, codes}
use maiccu.Base.Text.{atoi}
use maiccu.Gogoc.Redirect.{Broker}
use maiccu.Gogoc.Capability.{
  set_capability, eq_case, auth_passdss_3des_1, auth_digest_md5, auth_plain, auth_anonymous,
}
use maiccu.Gogoc.Session.{
  GogocStatus, tsp_protocol_success, tsp_protocol_auth_failed, auth_any, receive_size, Net, Phase,
  Conf, Env, crlf, is_redirect, redirect, success, err_socket_io, err_no_common_authentication,
  err_authentication_failure, err_tsp_generic_error, waiting, fault, failed, got,
}

-- The switch on the status of `AuthPLAIN`.
unfoldable pub plain_result : ℕ → GogocStatus
plain_result code =
    if code == tsp_protocol_success
    then success
    else if code == tsp_protocol_auth_failed
    then err_authentication_failure
    else err_tsp_generic_error

unfoldable pub anonymous_result : ℕ → GogocStatus
anonymous_result code = if code == tsp_protocol_success then success else err_tsp_generic_error

-- A request and its reply, the end of both `AuthANONYMOUS` and `AuthPLAIN`; what was said includes the request.
unfoldable pub ask : Env → (ℕ → GogocStatus) → List (List ℕ) → List Net → List Broker → Phase
unfolding redirect
ask env result said [] brokers = record {
  status = waiting;
  said = said;
  net = [];
  brokers = brokers;
}
ask env result said (failed ∷ rest) brokers = record {
  status = err_socket_io;
  said = said;
  net = rest;
  brokers = brokers;
}
ask env result said (got reply ∷ rest) brokers =
    let code = atoi (take receive_size reply ++ env.junk) in
    if is_redirect code
    then redirect env (take receive_size reply ++ env.junk) said rest brokers
    else record { status = result code; said = said; net = rest; brokers = brokers }

-- `AuthANONYMOUS`. The text goes out with its zero.
unfoldable pub anonymous : Env → List Net → List Broker → Phase
unfolding ask anonymous_result
anonymous env net brokers =
    ask env anonymous_result ((codes "AUTHENTICATE ANONYMOUS" ++ (crlf ++ (0 ∷ []))) ∷ []) net
      brokers

unfoldable pub credentials : Conf → List ℕ
credentials conf = 0 ∷ (conf.userid ++ (0 ∷ (conf.passwd ++ crlf)))

-- `AuthPLAIN`. `Length` is what the text would take, so a long text is read behind its buffer.
unfoldable pub plain : Env → Conf → List Net → List Broker → Phase
unfolding ask plain_result credentials
plain env conf [] brokers = record {
  status = waiting;
  said = (codes "AUTHENTICATE PLAIN" ++ (crlf ++ (0 ∷ []))) ∷ [];
  net = [];
  brokers = brokers;
}
plain env conf (failed ∷ rest) brokers = record {
  status = err_socket_io;
  said = (codes "AUTHENTICATE PLAIN" ++ (crlf ++ (0 ∷ []))) ∷ [];
  net = rest;
  brokers = brokers;
}
plain env conf (got sent ∷ rest) brokers =
    let said = (codes "AUTHENTICATE PLAIN" ++ (crlf ++ (0 ∷ []))) ∷ [] in
    let asked = ask env plain_result (said ++ (credentials conf ∷ [])) rest brokers in
    if ltb 1024 (length (credentials conf))
    then record { status = fault; said = said; net = rest; brokers = brokers }
    else asked

unfoldable pub mechanism : Conf → ℕ
mechanism conf =
    if eq_case conf.auth_method (codes "any")
    then auth_any
    else set_capability (codes "AUTH") conf.auth_method

-- Whether a mechanism is wanted and offered.
unfoldable pub common : Conf → ℕ → ℕ → Bool
unfolding mechanism
common conf cap bit = not (bit_and (bit_and (mechanism conf) cap) bit == 0)

-- `tspAuthenticate`
unfoldable pub authenticate : Env → Conf → ℕ → List Net → List Broker → Phase
unfolding common plain anonymous
authenticate env conf cap net brokers =
    let nothing : Phase = record {
      status = err_no_common_authentication;
      said = [];
      net = net;
      brokers = brokers;
    } in
    if not (eq_case conf.auth_method (codes "anonymous"))
    then if common conf cap auth_passdss_3des_1
      then env.auth_passdss_3des_1 net brokers
      else if common conf cap auth_digest_md5
      then env.auth_digest_md5 net brokers
      else if common conf cap auth_plain
      then plain env conf net brokers
      else nothing
    else if common conf cap auth_anonymous
    then anonymous env net brokers
    else nothing
