-- ===== src/Gogoc/Session/Started.antt =====
-- gogoc/gogoc-tsp/src/tsp: when a session starts the tunnel.
use Prim.Native.Nat.{bit_and}
use mathlib.Core.Bool.{false≢true}
use mathlib.Core.List.{map}
use maiccu.Base.{
  ℕ, ◌≡◌, ◌≢◌, inl, inr, refl, sym, ◌∙◌, Bool, true, false, not, ◌||◌, List, [], ◌∷◌, ◌++◌, some,
  ◌==◌, ==_iff, take, if◌then◌else◌, Bool-cases, Option-cases, if_both, codes, eq_bytes, passed,
  arith, subst,
}
use maiccu.Base.Text.{atoi}
use maiccu.Gogoc.Redirect.{Broker, is_ok}
use maiccu.Gogoc.Capability.{
  extract_capability, eq_case, auth_passdss_3des_1, auth_digest_md5, auth_plain, auth_anonymous,
}
use maiccu.Gogoc.Session.{
  GogocStatus, success, evnt_broker_redirection, err_broker_redirection,
  err_no_common_authentication, waiting, fault, err_tunmode_not_available, err_socket_io, crlf, Net,
  failed, got, Phase, Conf, Env, Capabilities, redirect, is_redirect, datain, get_capabilities,
  capable, capability_error,
}
use maiccu.Gogoc.Session.Authenticate.{authenticate, common}
use maiccu.Gogoc.Session.Setup.{
  Outcome, Action, say, start_local, close_socket, negotiate, leave, returns, no_listener,
  is_success, setup_tunnel,
}

-- Whether the tunnel is started.
abbrev pub starts : List Action → Bool
starts [] = false
starts (say bytes ∷ actions) = starts actions
starts (start_local ∷ actions) = true
starts (close_socket ∷ actions) = starts actions

starts-append : (xs ys : List Action) → starts (xs ++ ys) ≡ (starts xs || starts ys)
starts-append [] ys = refl
starts-append (say bytes ∷ xs) ys = starts-append xs ys
starts-append (start_local ∷ xs) ys = refl
starts-append (close_socket ∷ xs) ys = starts-append xs ys

-- Only words.
IsTalk : List Action → Type 0
IsTalk actions = starts actions ≡ false

talk-say : (said : List (List ℕ)) → starts (map say said) ≡ false
unfolding map
talk-say [] = refl
talk-say (bytes ∷ said) = talk-say said

talk-append :
    (xs ys : List Action) → starts xs ≡ false → starts ys ≡ false → starts (xs ++ ys) ≡ false
talk-append xs ys h k = starts-append xs ys ∙ rw (h, k) refl

talk-leave :
    (status : GogocStatus) (actions : List Action) (brokers : List Broker)
    → starts actions ≡ false
    → starts (leave status actions brokers).actions ≡ false
unfolding leave
talk-leave status actions brokers h =
    talk-append actions _ h (if_both (λ x. starts x ≡ false) (returns status) _ _ refl refl)

past_leave :
    (c : Bool) (x y : Outcome)
    → starts x.actions ≡ false
    → starts (if c then x else y).actions ≡ true
    → (c ≡ false) × (starts y.actions ≡ true)
past_leave true x y h k = absurd (false≢true (sym h ∙ k))
past_leave false x y h k = (refl, k)

is_success-eq : (s : GogocStatus) → is_success s ≡ true → s ≡ success
unfolding is_success
is_success-eq s h = ground (arith, h)

-- The reply that announces capabilities.
abbrev pub Announces : List Net → ℕ → List Net → Type 0
Announces net cap rest =
    (reply : List ℕ) × (net ≡ got reply ∷ rest)
    × (eq_bytes (codes "CAPABILITY ") (take 11 (datain reply)) ≡ true)
    × (extract_capability (datain reply) ≡ some cap)

waiting-ne : waiting ≢ success
waiting-ne h = cc

fault-ne : fault ≢ success
fault-ne h = cc

err_socket_io-ne : err_socket_io ≢ success
err_socket_io-ne h = cc

err_no_common_authentication-ne : err_no_common_authentication ≢ success
err_no_common_authentication-ne h = cc

capability_error-ne : (code : ℕ) → capability_error code ≢ success
unfolding capability_error
capability_error-ne code =
    if_both (λ s. s ≢ success) (code == 530) _ _ (λ h. cc)
      (if_both (λ s. s ≢ success) (code == 302) _ _ (λ h. cc) (λ h. cc))

redirect-ne :
    (env : Env) (reply : List ℕ) (said : List (List ℕ)) (net : List Net) (brokers : List Broker)
    → (redirect env reply said net brokers).status ≢ success
unfolding redirect
redirect-ne env reply said net brokers =
    if_both (λ s. s ≢ success) (is_ok _) evnt_broker_redirection err_broker_redirection (λ h. cc)
      (λ h. cc)

-- Capabilities that were got.
IsGot : List Net → List Broker → Capabilities → Type 0
IsGot net brokers c =
    c.phase.status ≡ success → Announces net c.capability c.phase.net × (c.phase.brokers ≡ brokers)

get_capabilities-IsGot :
    (env : Env) (version : List ℕ) (net : List Net) (brokers : List Broker)
    → IsGot net brokers (get_capabilities env version net brokers)
unfolding get_capabilities capable IsGot
get_capabilities-IsGot env version [] brokers = λ h. absurd (waiting-ne h)
get_capabilities-IsGot env version (failed ∷ rest) brokers = λ h. absurd (err_socket_io-ne h)
get_capabilities-IsGot env version (got reply ∷ rest) brokers =
    let said = (codes "VERSION=" ++ (version ++ crlf)) ∷ [] in
    elim (Bool-cases (eq_bytes (codes "CAPABILITY ") (take 11 (datain reply)))) [
      | inl e ↦ elim (Option-cases (extract_capability (datain reply))) [
        | inl z ↦ rw (e, z) (λ h. absurd (fault-ne h))
        | inr (cap, z) ↦ rw (e, z) (λ h. ((reply, refl, e, z), refl))
      ]
      | inr e ↦ rw e (
          if_both (IsGot (got reply ∷ rest) brokers) (is_redirect (atoi (datain reply))) _ _
            (λ h. absurd (redirect-ne env (datain reply) said rest brokers h))
            (λ h. absurd (capability_error-ne (atoi (datain reply)) h)))
    ]

-- A mechanism is wanted and offered.
abbrev pub IsCommon : Conf → ℕ → Type 0
IsCommon conf cap = (bit : ℕ) × (common conf cap bit ≡ true)

authenticate-IsCommon :
    (env : Env) (conf : Conf) (cap : ℕ) (net : List Net) (brokers : List Broker)
    → (authenticate env conf cap net brokers).status ≡ success
    → IsCommon conf cap
unfolding authenticate
authenticate-IsCommon env conf cap net brokers h =
    elim (Bool-cases (common conf cap auth_passdss_3des_1)) [
      | inl e ↦ (auth_passdss_3des_1, e)
      | inr e ↦ elim (Bool-cases (common conf cap auth_digest_md5)) [
        | inl f ↦ (auth_digest_md5, f)
        | inr f ↦ elim (Bool-cases (common conf cap auth_plain)) [
          | inl g ↦ (auth_plain, g)
          | inr g ↦ elim (Bool-cases (common conf cap auth_anonymous)) [
            | inl k ↦ (auth_anonymous, k)
            | inr k ↦ absurd (
                if_both (λ (p : Phase). p.status ≢ success)
                  (not (eq_case conf.auth_method (codes "anonymous"))) _ _
                  err_no_common_authentication-ne err_no_common_authentication-ne
                  (rw (e, f, g, k) at h))
          ]
        ]
      ]
    ]

-- The later parts have succeeded.
abbrev IsLater : Env → Conf → Bool → ℕ → List Net → List Broker → Type 0
IsLater env conf no_acknowledge cap rest brokers =
    ((authenticate env conf cap rest brokers).status ≡ success)
    × ((negotiate env no_acknowledge (authenticate env conf cap rest brokers).net
          (authenticate env conf cap rest brokers).brokers).status
        ≡ success)

-- A session starts the tunnel only if the broker has announced capabilities that offer the mode of the tunnel and an
-- authentication that the configuration wants, the authentication with them and the negotiation have
-- succeeded, and there was a source address.
pub setup_tunnel-started :
    (env : Env) (conf : Conf) (version : List ℕ) (no_acknowledge : Bool) (source ends : GogocStatus)
    (net : List Net) (brokers : List Broker)
    → starts (setup_tunnel env conf version no_acknowledge source ends net brokers).actions ≡ true
    → (cap : ℕ) × (rest : List Net) × Announces net cap rest
      × (bit_and conf.tunnel_mode cap ≢ 0)
      × IsCommon conf cap
      × ((authenticate env conf cap rest brokers).status ≡ success)
      × (source ≡ success)
      × ((negotiate env no_acknowledge
            (authenticate env conf cap rest brokers).net
            (authenticate env conf cap rest brokers).brokers).status
          ≡ success)
unfolding setup_tunnel IsGot
setup_tunnel-started env conf version no_acknowledge source ends net brokers h =
    let c = get_capabilities env version net brokers in
    let a = authenticate env conf c.capability c.phase.net c.phase.brokers in
    let n = negotiate env no_acknowledge a.net a.brokers in
    let asked = map say c.phase.said in
    let spoken = asked ++ map say a.said in
    let talk1 = talk-say c.phase.said in
    let talk2 = talk-append asked (map say a.said) talk1 (talk-say a.said) in
    let talk3 = talk-append spoken (map say n.said) talk2 (talk-say n.said) in
    let (g1, h1) =
      past_leave (not (is_success c.phase.status)) _ _
        (talk-leave (no_listener conf.is_rudp c.phase.status) asked c.phase.brokers talk1) h in
    let (g2, h2) =
      past_leave (bit_and conf.tunnel_mode c.capability == 0) _ _
        (talk-leave err_tunmode_not_available asked c.phase.brokers talk1) h1 in
    let (g3, h3) =
      past_leave (not (is_success a.status)) _ _ (talk-leave a.status spoken a.brokers talk2) h2 in
    let (g4, h4) =
      past_leave (not (is_success source)) _ _ (talk-leave source spoken a.brokers talk2) h3 in
    let (g5, h5) =
      past_leave (not (is_success n.status)) _ _
        (talk-leave n.status (spoken ++ map say n.said) n.brokers talk3) h4 in
    let (announced, same) =
      get_capabilities-IsGot env version net brokers (is_success-eq _ (passed _ g1)) in
    let ok_a = is_success-eq a.status (passed _ g3) in
    let ok_n = is_success-eq n.status (passed _ g5) in
    let (later_a, later_n) =
      subst (λ b. IsLater env conf no_acknowledge c.capability c.phase.net b) same (ok_a, ok_n) in
    (
      c.capability,
      c.phase.net,
      announced,
      λ z. false≢true (sym g2 ∙ (==_iff _ _).1 z),
      authenticate-IsCommon env conf c.capability c.phase.net c.phase.brokers ok_a,
      later_a,
      is_success-eq source (passed _ g4),
      later_n,
    )
