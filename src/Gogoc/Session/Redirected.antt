-- ===== src/Gogoc/Session/Redirected.antt =====
-- gogoc/gogoc-tsp/src/tsp: a session that ends with a redirection.
use Prim.Native.Nat.{bit_and}
use mathlib.Core.Bool.{false≢true}
use maiccu.Base.{
  ◌&&◌, ℕ, ◌≡◌, ◌≢◌, inl, inr, refl, Bool, true, not, List, [], ◌∷◌, ◌++◌, Option, none, some, ◌==◌,
  ltb, take, length, ◌⊎◌, if_given, Bool-cases, Option-cases, if_both, codes, eq_bytes,
}
use maiccu.Base.Text.{atoi}
use maiccu.Gogoc.Redirect.{Broker, Redirection, is_ok, handle_redirect}
use maiccu.Gogoc.Redirect.Handle.{Usable, handle_redirect-Usable, is_ok_lem}
use maiccu.Gogoc.Capability.{
  extract_capability, eq_case, auth_passdss_3des_1, auth_digest_md5, auth_plain, auth_anonymous,
}
use maiccu.Gogoc.Session.{
  GogocStatus, evnt_broker_redirection, err_fail_socket_connect, Net, failed, got, Phase, Conf, Env,
  Capabilities, redirect, is_redirect, datain, receive_size, err_no_common_authentication,
  get_capabilities, capable, capability_error, crlf,
}
use maiccu.Gogoc.Session.Authenticate.{
  plain_result, anonymous_result, ask, anonymous, plain, credentials, authenticate, common,
}
use maiccu.Gogoc.Session.Setup.{
  Outcome, negotiate, leave, no_listener, is_success, setup_tunnel, acknowledged, is_socket_io,
}

-- What the parts of a session make of a reply: the buffer of `tspGetCapabilities`, that of an authentication, the
-- payload for the negotiation.
abbrev pub IsBuffer : Env → List ℕ → List ℕ → Type 0
IsBuffer env reply buffer =
    (buffer ≡ datain reply) ⊎ (buffer ≡ take receive_size reply ++ env.junk) ⊎ (buffer ≡ reply)

-- One of these replies has a status that redirects, and this is the redirection that `tspExtractPayload` reads
-- from it.
pub data Sends (env : Env) (r : Redirection) : List Net → Type 0 where
  here :
      {rest : List Net}
      → (reply buffer : List ℕ) → IsBuffer env reply buffer
      → is_redirect (atoi buffer) ≡ true
      → env.extract_payload buffer ≡ some r
      → Sends env r (got reply ∷ rest)
  later : {rest : List Net} → (n : Net) → Sends env r rest → Sends env r (n ∷ rest)

-- With this status comes a list of brokers that the client can use, those of a redirection that was sent.
abbrev pub Redirects : Env → List Net → GogocStatus → List Broker → Type 0
Redirects env net evnt_broker_redirection list = (r : Redirection) × Sends env r net × Usable r list
Redirects env net _ list = Unit {0}

-- What comes after these calls has come with them.
abbrev pub Keeps : Env → List Net → List Net → Type 0
Keeps env net rest = (r : Redirection) → Sends env r rest → Sends env r net

Redirects-mono :
    (env : Env) (net rest : List Net) (status : GogocStatus) (list : List Broker)
    → Keeps env net rest
    → Redirects env rest status list
    → Redirects env net status list
Redirects-mono env net rest evnt_broker_redirection list keeps (r, sends, usable) =
    (r, keeps r sends, usable)
Redirects-mono env net rest _ list keeps h = tt

handled-Usable :
    (memory copies : ℕ → Bool) (distances : Option (List ℕ)) (o : Option Redirection)
    (list : List Broker)
    → is_ok (handle_redirect memory copies distances o list).status ≡ true
    → (r : Redirection) × (o ≡ some r)
      × Usable r (handle_redirect memory copies distances o list).list
unfolding handle_redirect is_ok
handled-Usable memory copies distances none list h = absurd (false≢true h)
handled-Usable memory copies distances (some r) list h =
    (r, refl, handle_redirect-Usable memory copies distances r list (is_ok_lem _ h))

-- What a part of the session leaves of these calls.
abbrev Leaves : Env → List Net → Phase → Type 0
Leaves env net p = Redirects env net p.status p.brokers

-- The same, and of those to come.
abbrev pub Ends : Env → List Net → Phase → Type 0
Ends env net p = Leaves env net p × Keeps env net p.net

-- The longer authentications leave usable brokers, of a redirection that was sent, as well if they report a
-- redirection, and take their replies from those to come.
pub record RedirectsToo (env : Env) : Type 0 where
  pub passdss :
      (net : List Net) (brokers : List Broker) → Ends env net (env.auth_passdss_3des_1 net brokers)
  pub digest :
      (net : List Net) (brokers : List Broker) → Ends env net (env.auth_digest_md5 net brokers)

module _ (env : Env) where
  redirect-Redirects :
      (reply buffer : List ℕ) (said : List (List ℕ)) (net : List Net) (brokers : List Broker)
      → IsBuffer env reply buffer
      → is_redirect (atoi buffer) ≡ true
      → Leaves env (got reply ∷ net) (redirect env buffer said net brokers)
  unfolding redirect
  redirect-Redirects reply buffer said net brokers b code =
      let handled =
        handle_redirect env.memory env.copies env.distances (env.extract_payload buffer) brokers in
      elim (Bool-cases (is_ok handled.status)) [
        | inr e ↦ rw e tt
        | inl e ↦
            let (r, read, usable) =
              handled-Usable env.memory env.copies env.distances (env.extract_payload buffer)
                brokers e in
            rw e (r, here reply buffer b code read, usable)
      ]

  capability_error-Redirects :
      (net : List Net) (code : ℕ) (list : List Broker)
      → Redirects env net (capability_error code) list
  unfolding capability_error
  capability_error-Redirects net code list =
      if_both (λ s. Redirects env net s list) (code == 530) _ _ tt
        (if_both (λ s. Redirects env net s list) (code == 302) _ _ tt tt)

  get_capabilities-Redirects :
      (version : List ℕ) (net : List Net) (brokers : List Broker)
      → Ends env net (get_capabilities env version net brokers).phase
  unfolding get_capabilities capable redirect
  get_capabilities-Redirects version [] brokers = (tt, λ r s. s)
  get_capabilities-Redirects version (failed ∷ rest) brokers = (tt, λ r s. later failed s)
  get_capabilities-Redirects version (got reply ∷ rest) brokers =
      let net = got reply ∷ rest in
      let P = λ (c : Capabilities). Ends env net c.phase in
      let keeps : Keeps env net rest = λ r s. later (got reply) s in
      if_both P (eq_bytes (codes "CAPABILITY ") (take 11 (datain reply))) _ _
        (elim (Option-cases (extract_capability (datain reply))) [
          | inl e ↦ rw e (tt, keeps)
          | inr (found, e) ↦ rw e (tt, keeps)
        ])
        (if_given P (is_redirect (atoi (datain reply))) _ _
          (λ code. (
            redirect-Redirects reply (datain reply) ((codes "VERSION=" ++ (version ++ crlf)) ∷ [])
                rest brokers (inl refl) code,
            keeps,
          ))
          (λ other. (capability_error-Redirects net (atoi (datain reply)) brokers, keeps)))

  ask-Redirects :
      (result : ℕ → GogocStatus) (said : List (List ℕ)) (net : List Net) (brokers : List Broker)
      → ((calls : List Net) (code : ℕ) → Redirects env calls (result code) brokers)
      → Ends env net (ask env result said net brokers)
  unfolding ask redirect
  ask-Redirects result said [] brokers h = (tt, λ r s. s)
  ask-Redirects result said (failed ∷ rest) brokers h = (tt, λ r s. later failed s)
  ask-Redirects result said (got reply ∷ rest) brokers h =
      let net = got reply ∷ rest in
      let buffer = take 4096 reply ++ env.junk in
      if_given (Ends env net) (is_redirect (atoi buffer)) _ _
        (λ code. (
          redirect-Redirects reply buffer said rest brokers (inr (inl refl)) code,
          λ r s. later (got reply) s,
        ))
        (λ other. (h net _, λ r s. later (got reply) s))

  plain_result-Redirects :
      (net : List Net) (list : List Broker) (code : ℕ) → Redirects env net (plain_result code) list
  unfolding plain_result
  plain_result-Redirects net list code =
      if_both (λ s. Redirects env net s list) (code == 200) _ _ tt
        (if_both (λ s. Redirects env net s list) (code == 300) _ _ tt tt)

  Ends-later : (n : Net) (net : List Net) (p : Phase) → Ends env net p → Ends env (n ∷ net) p
  Ends-later n net p (leaves, keeps) = (
    Redirects-mono env (n ∷ net) net p.status p.brokers (λ r s. later n s) leaves,
    λ r s. later n (keeps r s),
  )

  plain-Redirects :
      (conf : Conf) (net : List Net) (brokers : List Broker)
      → Ends env net (plain env conf net brokers)
  unfolding plain
  plain-Redirects conf [] brokers = (tt, λ r s. s)
  plain-Redirects conf (failed ∷ rest) brokers = (tt, λ r s. later failed s)
  plain-Redirects conf (got sent ∷ rest) brokers =
      let said = (codes "AUTHENTICATE PLAIN" ++ (crlf ++ (0 ∷ []))) ∷ credentials conf ∷ [] in
      if_both (Ends env (got sent ∷ rest)) (ltb 1024 (length (credentials conf))) _ _
        (tt, λ r s. later (got sent) s)
        (Ends-later (got sent) rest (ask env plain_result said rest brokers) (
          ask-Redirects plain_result said rest brokers
            (λ calls. plain_result-Redirects calls brokers)))

  anonymous-Redirects :
      (net : List Net) (brokers : List Broker) → Ends env net (anonymous env net brokers)
  unfolding anonymous anonymous_result
  anonymous-Redirects net brokers =
      ask-Redirects anonymous_result _ net brokers
        (λ calls code. if_both (λ s. Redirects env calls s brokers) (code == 200) _ _ tt tt)

  authenticate-Redirects :
      (conf : Conf) (offered : ℕ) (net : List Net) (brokers : List Broker)
      → RedirectsToo env
      → Ends env net (authenticate env conf offered net brokers)
  unfolding authenticate
  authenticate-Redirects conf offered net brokers h =
      let E = Ends env net in
      let nothing : E (record {
        status = err_no_common_authentication;
        said = [];
        net = net;
        brokers = brokers;
      }) =
        (tt, λ r s. s) in
      if_both E (not (eq_case conf.auth_method (codes "anonymous"))) _ _
        (if_both E (common conf offered auth_passdss_3des_1) _ _ (h.passdss net brokers) (
          if_both E (common conf offered auth_digest_md5) _ _ (h.digest net brokers) (
            if_both E (common conf offered auth_plain) _ _ (plain-Redirects conf net brokers)
              nothing)))
        (if_both E (common conf offered auth_anonymous) _ _ (anonymous-Redirects net brokers)
          nothing)

  acknowledged-Redirects :
      (calls : List Net) (said : List (List ℕ)) (net : List Net) (brokers : List Broker)
      → Leaves env calls (acknowledged said net brokers)
  unfolding acknowledged
  acknowledged-Redirects calls said [] brokers = tt
  acknowledged-Redirects calls said (failed ∷ rest) brokers = tt
  acknowledged-Redirects calls said (got sent ∷ rest) brokers = tt

  negotiate-Redirects :
      (no_acknowledge : Bool) (net : List Net) (brokers : List Broker)
      → Leaves env net (negotiate env no_acknowledge net brokers)
  unfolding negotiate
  negotiate-Redirects no_acknowledge [] brokers =
      if_both (Leaves env []) (not env.has_memory) _ _ tt tt
  negotiate-Redirects no_acknowledge (failed ∷ rest) brokers =
      if_both (Leaves env (failed ∷ rest)) (not env.has_memory) _ _ tt tt
  negotiate-Redirects no_acknowledge (got reply ∷ rest) brokers =
      let L = Leaves env (got reply ∷ rest) in
      if_both L (not env.has_memory) _ _ tt (
        if_given L (is_redirect (atoi reply)) _ _
          (redirect-Redirects reply reply (env.create_request ∷ []) rest brokers (inr (inr refl)))
          (λ other. if_both L (not (atoi reply == 200)) _ _ tt (
            if_both L no_acknowledge _ _ tt (
              acknowledged-Redirects (got reply ∷ rest) (env.create_request ∷ env.acknowledge ∷ [])
                rest brokers))))

  other-Redirects :
      (net : List Net) (status : GogocStatus) (list : List Broker)
      → status ≢ evnt_broker_redirection
      → Redirects env net status list
  other-Redirects net evnt_broker_redirection list n = absurd (n refl)
  other-Redirects net _ list n = tt

  no_listener-Redirects :
      (net : List Net) (is_rudp : Bool) (status : GogocStatus) (list : List Broker)
      → Redirects env net status list
      → Redirects env net (no_listener is_rudp status) list
  unfolding no_listener
  no_listener-Redirects net is_rudp status list h =
      if_both (λ s. Redirects env net s list) (is_socket_io status && is_rudp)
        err_fail_socket_connect status tt h

-- A session that reports a redirection leaves a list of one to fifty brokers, the nearest first, just those of the
-- message that tspExtractPayload reads from a reply of the broker in this session whose status redirects, if the longer
-- authentications do so, too, and neither the source address nor the tunnel reports a redirection.
pub setup_tunnel-Redirects :
    (env : Env) (conf : Conf) (version : List ℕ) (no_acknowledge : Bool) (source ends : GogocStatus)
    (net : List Net) (brokers : List Broker)
    → RedirectsToo env
    → source ≢ evnt_broker_redirection
    → ends ≢ evnt_broker_redirection
    → Redirects env net
        (setup_tunnel env conf version no_acknowledge source ends net brokers).status
        (setup_tunnel env conf version no_acknowledge source ends net brokers).brokers
unfolding setup_tunnel leave
setup_tunnel-Redirects env conf version no_acknowledge source ends net brokers h s e =
    let P = λ (o : Outcome). Redirects env net o.status o.brokers in
    let c = get_capabilities env version net brokers in
    let a = authenticate env conf c.capability c.phase.net c.phase.brokers in
    let n = negotiate env no_acknowledge a.net a.brokers in
    let (asked, keeps) = get_capabilities-Redirects env version net brokers in
    let (authenticated, keeps') =
      authenticate-Redirects env conf c.capability c.phase.net c.phase.brokers h in
    if_both P (not (is_success c.phase.status)) _ _
      (no_listener-Redirects env net conf.is_rudp c.phase.status c.phase.brokers asked)
      (if_both P (bit_and conf.tunnel_mode c.capability == 0) _ _ tt (
        if_both P (not (is_success a.status)) _ _
          (Redirects-mono env net c.phase.net a.status a.brokers keeps authenticated)
          (if_both P (not (is_success source)) _ _ (other-Redirects env net source a.brokers s) (
            if_both P (not (is_success n.status)) _ _
              (Redirects-mono env net a.net n.status n.brokers (λ r sends. keeps r (keeps' r sends))
                (negotiate-Redirects env no_acknowledge a.net a.brokers))
              (other-Redirects env net ends n.brokers e)))))
