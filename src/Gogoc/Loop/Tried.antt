-- ===== src/Gogoc/Loop/Tried.antt =====
-- gogoc/gogoc-tsp/src/tsp/tsp_client.c: the server that the connection loop of `tspMain` tries.
use maiccu.Base.{
  ℕ, ◌+◌, ◌==◌, ltb, Bool, true, false, not, ◌&&◌, List, [], ◌∷◌, ◌++◌, Option, none, some, ◌≡◌,
  refl, ap, sym, ◌∙◌, append_assoc, arith, if◌then◌else◌, subst,
}
use maiccu.Gogoc.Redirect.{Broker, Brokers, is_ok}
use maiccu.Gogoc.Session.{
  GogocStatus, success, evnt_broker_redirection, err_broker_redirection, err_socket_io,
  err_fail_socket_connect, err_tsp_server_too_busy, err_inval_tsp_version, err_tsp_generic_error,
  err_no_common_authentication, err_authentication_failure, err_tunmode_not_available,
  err_memory_starvation, err_inval_gogoc_address, err_keepalive_timeout, err_keepalive_error,
  err_tun_lease_expired, err_tunnel_io, waiting, fault, other,
}
use maiccu.Gogoc.Loop.{
  Settings, Loop, Ways, ways, Transport, Outcome, Next, stops, null_used, again, pauses,
  choose_version, choose_cycle, choose, is_quick, format_address, try_brokers, is_nil, next_broker,
  original_failed, connect_failed, after, pause, paused, turn, start, turns,
}

-- The list of brokers from this broker on is the end of the list, and the server is what formatting this
-- broker's address gives, with memory for it or without.
pub record At (l : Loop) : Type 0 where
  pub before : List Broker
  pub broker : Broker
  pub rest : List Broker
  pub rest_of : l.current_broker_in_list ≡ broker ∷ rest
  pub part_of : before ++ l.current_broker_in_list ≡ l.broker_list
  pub memory : Bool
  pub formatted : format_address memory broker ≡ some l.server

-- The server is a copy of the original one, or a null pointer where there was no memory for the copy.
abbrev pub IsOriginal : Settings → Option (List ℕ) → Type 0
IsOriginal s server = (memory : Bool) × (server ≡ (if memory then some s.original_server else none))

-- The loop tries the original server, the server that it began with, having no list for it, or a broker of its list.
pub data IsTried (s : Settings) (first : Option (List ℕ)) (l : Loop) : Type 0 where
  original : l.trying_original_server ≡ true → IsOriginal s l.server → IsTried s first l
  unlisted :
      l.trying_original_server ≡ false
      → l.trying_broker_list ≡ false
      → l.server ≡ first
      → IsTried s first l
  listed : l.trying_original_server ≡ false → l.trying_broker_list ≡ true → At l → IsTried s first l

module _ (s : Settings) (first : Option (List ℕ)) where
  -- No null pointer has been used, and the server tried next is one of these.
  unfoldable pub Safe : Next → Type 0
  Safe stops = Unit
  Safe null_used = ⊥
  Safe (again l) = IsTried s first l
  Safe (pauses l) = IsTried s first l

  -- The other fields do not matter.
  retimed :
      (l : Loop)
      → (v c : ℕ) → (f : Bool) → (k d : ℕ) → IsTried s first l
      → IsTried s first (record l {
        version_index = v;
        cycle = c;
        tsp_version_fallback = f;
        consec_retry = k;
        effective_retry_delay = d;
      })
  retimed l v c f k d (original e o) = original e o
  retimed l v c f k d (unlisted e b f') = unlisted e b f'
  retimed l v c f k d (listed e b a) = listed e b (record {
    before = a.before;
    broker = a.broker;
    rest = a.rest;
    rest_of = a.rest_of;
    part_of = a.part_of;
    memory = a.memory;
    formatted = a.formatted;
  })

  unfoldable Chosen : Option (Loop × Transport) → Type 0
  Chosen none = Unit
  Chosen (some c) = IsTried s first c.0

  unfoldable Versioned : Option Loop → Type 0
  Versioned none = Unit
  Versioned (some l) = IsTried s first l

  choose_version-Versioned :
      (n : ℕ) → (l : Loop) → IsTried s first l → Versioned (choose_version n l)
  unfolding choose_version Versioned
  choose_version-Versioned n l t =
      elim l.tsp_version_fallback
        as (λ b. Versioned (
          if not b
          then some (record l { version_index = 0 })
          else if ltb l.version_index n && ltb l.version_index 3
          then some (record l { version_index = l.version_index + 1; tsp_version_fallback = false })
          else none)) [
            | false ↦
                retimed l 0 l.cycle l.tsp_version_fallback l.consec_retry l.effective_retry_delay t
            | true ↦
                elim (ltb l.version_index n && ltb l.version_index 3)
                  as (λ b. Versioned (
                    if b
                    then some (record l {
                      version_index = l.version_index + 1;
                      tsp_version_fallback = false;
                    })
                    else none)) [
                      | true ↦
                          retimed l (l.version_index + 1) l.cycle false l.consec_retry
                            l.effective_retry_delay t
                      | false ↦ tt
                    ]
          ]

  choose_cycle-IsTried :
      (n : ℕ) → (l : Loop) → IsTried s first l → IsTried s first (choose_cycle n l)
  unfolding choose_cycle
  choose_cycle-IsTried n l t =
      elim (ltb l.cycle n) as (λ b. IsTried s first (if b then l else record l { cycle = 0 })) [
        | true ↦ t
        | false ↦
            retimed l l.version_index 0 l.tsp_version_fallback l.consec_retry
              l.effective_retry_delay t
      ]

  choose-Chosen : (w : Ways) → (l : Loop) → IsTried s first l → Chosen (choose w l)
  unfolding choose Chosen Versioned
  choose-Chosen w l t =
      elim (choose_version w.fall_back_before (choose_cycle w.transports l))
          as (λ o.
            Versioned o
            → Chosen (elim o [
              | none ↦ none
              | some l' ↦ some (l', if l'.cycle == 0 then w.first else w.second)
            ])) [ none ↦ λ v. tt | some l' ↦ λ v. v ]
        (choose_version-Versioned w.fall_back_before (choose_cycle w.transports l)
          (choose_cycle-IsTried w.transports l t))

  try_brokers-Safe :
      (m : Bool)
      → (bs : List Broker) → (l : Loop) → Safe (try_brokers m bs (record l { broker_list = bs }))
  unfolding try_brokers Safe
  try_brokers-Safe m [] l = tt
  try_brokers-Safe m (b ∷ bs) l =
      elim (format_address m b)
          as (λ f.
            format_address m b ≡ f
            → Safe (elim f [
              | none ↦ stops
              | some server ↦ again (record l {
                trying_broker_list = true;
                trying_original_server = false;
                broker_list = b ∷ bs;
                current_broker_in_list = b ∷ bs;
                server = server;
                cycle = 0;
              })
            ])) [
              | none ↦ λ e. tt
              | some server ↦ λ e. listed refl refl (record {
                before = [];
                broker = b;
                rest = bs;
                rest_of = refl;
                part_of = refl;
                memory = m;
                formatted = e;
              })
            ]
        refl

  if-Safe :
      (b : Bool)
      → (x y : Next) → (b ≡ true → Safe x)
      → (b ≡ false → Safe y)
      → Safe (if b then x else y)
  if-Safe true x y h k = h refl
  if-Safe false x y h k = k refl

  either-Safe : (b : Bool) → (x y : Next) → Safe x → Safe y → Safe (if b then x else y)
  either-Safe b x y h k = if-Safe b x y (λ e. h) (λ e. k)

  next_broker-Safe :
      (m : Bool)
      → (l : Loop) → l.trying_original_server ≡ false
      → l.trying_broker_list ≡ true
      → At l
      → Safe (next_broker s m l)
  unfolding next_broker Safe
  next_broker-Safe m l unset set a =
      subst (λ c. Safe (next_broker s m (record l { current_broker_in_list = c }))) (sym a.rest_of)
        (onward a.rest (ap (λ c. a.before ++ c) (sym a.rest_of) ∙ a.part_of))
    where
      onward :
          (rest : List Broker)
          → a.before ++ (a.broker ∷ rest) ≡ l.broker_list
          → Safe (next_broker s m (record l { current_broker_in_list = a.broker ∷ rest }))
      onward [] e = either-Safe (is_nil l.broker_list) _ _ tt (original refl (m, refl))
      onward (c ∷ more) e = either-Safe (is_nil l.broker_list) _ _ tt (
          elim (format_address m c)
              as (λ f.
                format_address m c ≡ f
                → Safe (elim f [
                  | none ↦ stops
                  | some server ↦
                      again
                        (record l { current_broker_in_list = c ∷ more; server = server; cycle = 0 })
                ])) [
                  | none ↦ λ g. tt
                  | some server ↦ λ g. listed unset set (record {
                    before = a.before ++ (a.broker ∷ []);
                    broker = c;
                    rest = more;
                    rest_of = refl;
                    part_of = append_assoc a.before (a.broker ∷ []) (c ∷ more) ∙ e;
                    memory = m;
                    formatted = g;
                  })
                ]
            refl)

  original_failed-Safe :
      (m : Bool)
      → (f : Brokers) → (l : Loop) → l.trying_original_server ≡ true
      → IsOriginal s l.server
      → Safe (original_failed s m f l)
  unfolding original_failed Safe
  original_failed-Safe m f l e o = either-Safe (not s.has_broker_list_file) _ _ (original e o) (
      either-Safe (not (is_ok f.status)) _ _ (original e o) (
        either-Safe (is_nil f.list) _ _ (original e o)
          (either-Safe (l.cycle == 0) _ _ (original e o) (try_brokers-Safe m f.list l))))

  -- The loop goes through its list only with the list at hand.
  through :
      (m : Bool)
      → (l : Loop) → (d : ℕ) → IsTried s first l
      → l.trying_original_server ≡ false
      → l.trying_broker_list ≡ true
      → Safe (next_broker s m (record l { effective_retry_delay = d; consec_retry = 1 }))
  through m l d (original e o) unset set = absurd (ground arith)
  through m l d (unlisted e b f) unset set = absurd (ground arith)
  through m l d (listed e b a) unset set = next_broker-Safe m _ e b (record {
    before = a.before;
    broker = a.broker;
    rest = a.rest;
    rest_of = a.rest_of;
    part_of = a.part_of;
    memory = a.memory;
    formatted = a.formatted;
  })

  server-IsOriginal :
      (l : Loop) → IsTried s first l → l.trying_original_server ≡ true → IsOriginal s l.server
  server-IsOriginal l (original e o) set = o
  server-IsOriginal l (unlisted e b f) set = absurd (ground arith)
  server-IsOriginal l (listed e b a) set = absurd (ground arith)

  at_first :
      (l : Loop)
      → IsTried s first l
      → l.trying_original_server ≡ false
      → l.trying_broker_list ≡ false
      → l.server ≡ first
  at_first l (original e o) unset none_listed = absurd (ground arith)
  at_first l (unlisted e b f) unset none_listed = f
  at_first l (listed e b a) unset none_listed = absurd (ground arith)

  connect_failed-Safe :
      (m : Bool)
      → (f : Brokers) → (q : Bool) → (l : Loop) → IsTried s first l
      → Safe (connect_failed s m f q l)
  unfolding connect_failed Safe
  connect_failed-Safe m f q l t = either-Safe s.boot_mode _ _ tt (
      either-Safe q _ _ (recycled (l.cycle + 1)) (
        either-Safe s.read_last_server _ _ (recycled (l.cycle + 1)) (
          if-Safe l.trying_original_server _ _
            (λ e.
              original_failed-Safe m f
                (record l { effective_retry_delay = s.retry_delay; consec_retry = 1 }) e
                (server-IsOriginal l t e))
            (λ unset.
              if-Safe l.trying_broker_list _ _ (through m l s.retry_delay t unset)
                (λ e. unlisted unset e (at_first l t unset e))))))
    where
      recycled : (c : ℕ) → IsTried s first (record l { cycle = c })
      recycled c =
          retimed l l.version_index c l.tsp_version_fallback l.consec_retry l.effective_retry_delay
            t

  -- The count of retries and their delay do not matter.
  counted :
      (k d : ℕ)
      → (l : Loop) → IsTried s first l
      → IsTried s first (record l { consec_retry = k; effective_retry_delay = d })
  counted k d l t = retimed l l.version_index l.cycle l.tsp_version_fallback k d t

  -- Whatever the session's status, the loop goes on in such a state.
  after-Safe :
      (m : Bool)
      → (f : Brokers) → (r : List Broker) → (q : Bool) → (status : GogocStatus) → (l : Loop)
      → IsTried s first l
      → Safe (after s m f r q status l)
  unfolding after Safe
  after-Safe m f r q err_keepalive_timeout l t =
      either-Safe s.auto_retry_connect _ _ (counted 0 l.effective_retry_delay l t) tt
  after-Safe m f r q err_tun_lease_expired l t = t
  after-Safe m f r q err_inval_tsp_version l t =
      retimed l l.version_index (if l.version_index == 2 then 1 else l.cycle) true l.consec_retry
        l.effective_retry_delay t
  after-Safe m f r q err_socket_io l t =
      either-Safe q _ _ (counted 0 l.effective_retry_delay l t)
        (counted 0 l.effective_retry_delay l t)
  after-Safe m f r q err_tsp_server_too_busy l t = counted 1 s.retry_delay l t
  after-Safe m f r q err_authentication_failure l t = connect_failed-Safe m f q l t
  after-Safe m f r q err_fail_socket_connect l t = connect_failed-Safe m f q l t
  after-Safe m f r q evnt_broker_redirection l t = try_brokers-Safe m r l
  after-Safe m f r q err_tunnel_io l t = counted 0 l.effective_retry_delay l t
  after-Safe m f r q err_keepalive_error l t = counted 0 l.effective_retry_delay l t
  after-Safe m f r q success l t = tt
  after-Safe m f r q err_broker_redirection l t = tt
  after-Safe m f r q err_tsp_generic_error l t = tt
  after-Safe m f r q err_no_common_authentication l t = tt
  after-Safe m f r q err_tunmode_not_available l t = tt
  after-Safe m f r q err_memory_starvation l t = tt
  after-Safe m f r q err_inval_gogoc_address l t = tt
  after-Safe m f r q waiting l t = tt
  after-Safe m f r q fault l t = tt
  after-Safe m f r q (other n) l t = tt

  if-IsTried :
      (b : Bool)
      → (x y : Loop × ℕ) → IsTried s first x.0
      → IsTried s first y.0
      → IsTried s first (if b then x else y).0
  if-IsTried true x y t u = t
  if-IsTried false x y t u = u

  paused-Safe : (n : Next) → Safe n → Safe (paused s n)
  unfolding paused pause Safe
  paused-Safe stops u = tt
  paused-Safe null_used u = u
  paused-Safe (again l) u = u
  paused-Safe (pauses l) u =
      if-IsTried (ltb 0 l.consec_retry) _ _ (counted _ _ l u) (counted _ _ l u)

  turn-Safe : (o : Outcome) → (l : Loop) → IsTried s first l → Safe (turn s o l)
  unfolding turn Safe Chosen pause
  turn-Safe o l t =
      elim (choose (ways s.mode) l)
          as (λ c.
            Chosen c
            → Safe (elim c [
              | none ↦ stops
              | some chosen ↦ paused s (
                  after s o.memory o.file o.redirected (is_quick s.mode chosen.1) o.status chosen.0)
            ])) [
              | none ↦ λ u. tt
              | some chosen ↦
                  λ u. paused-Safe _ (after-Safe o.memory o.file o.redirected _ o.status chosen.0 u)
            ]
        (choose-Chosen (ways s.mode) l t)

  turns-Safe : (os : List Outcome) → (l : Loop) → IsTried s first l → Safe (turns s os l)
  unfolding turns Safe
  turns-Safe [] l t = t
  turns-Safe (o ∷ os) l t =
      elim (turn s o l)
          as (λ n.
            Safe n
            → Safe (elim n [
              | stops ↦ stops
              | null_used ↦ null_used
              | again l' ↦ turns s os l'
              | pauses l' ↦ pauses l'
            ])) [
              | stops ↦ λ u. tt
              | null_used ↦ λ u. u
              | again l' ↦ λ u. turns-Safe os l' u
              | pauses l' ↦ λ u. u
            ]
        (turn-Safe o l t)

-- Whatever the sessions' statuses, the redirections, the file of brokers and the memory are, the pointer to the current
-- broker is not null when it is used, if the outer loop has kept the original server where it tries that. And while the
-- loop goes on, it tries one of these: the original server; the server that it began with, without a list; or a broker
-- of its list, from which the list goes on, and whose formatted address is the server. Without memory for a copy of the
-- address the server is a null pointer, which the next session is given.
pub turns-start :
    (s : Settings) (os : List Outcome) (kept : Bool) (server : Option (List ℕ))
    (brokers : List Broker)
    → (kept ≡ true → IsOriginal s server)
    → Safe s server (turns s os (start kept server brokers))
unfolding start
turns-start s os true server brokers h =
    turns-Safe s server os (start true server brokers) (original refl (h refl))
turns-start s os false server brokers h =
    turns-Safe s server os (start false server brokers) (unlisted refl refl refl)
