-- ===== src/Gogoc/Loop/Delay.antt =====
-- gogoc/gogoc-tsp/src/tsp/tsp_client.c: the pauses of the connection loop of `tspMain`.
use maiccu.Base.{
  none, some, ◌==◌, Bool, true, false, not, List, [], ◌∷◌, ◌≡◌, refl, arith, if◌then◌else◌,
}
use maiccu.Gogoc.Redirect.{Broker, Brokers, is_ok}
use maiccu.Gogoc.Loop.{
  format_address, Settings, Loop, Next, stops, null_used, again, pauses, try_brokers, is_nil,
  next_broker, original_failed, connect_failed, pause,
}

-- A pause, if there is one, takes the configured delay.
unfoldable pub Waits : Settings → Next → Type 0
Waits s stops = Unit
Waits s null_used = Unit
Waits s (again l) = Unit
Waits s (pauses l) = (pause s l).1 ≡ s.retry_delay

if-Waits :
    (s : Settings)
    → (b : Bool) → (x y : Next) → Waits s x
    → Waits s y
    → Waits s (if b then x else y)
if-Waits s true x y h k = h
if-Waits s false x y h k = k

try_brokers-Waits :
    (s : Settings) → (m : Bool) → (bs : List Broker) → (l : Loop) → Waits s (try_brokers m bs l)
unfolding try_brokers Waits
try_brokers-Waits s m [] l = tt
try_brokers-Waits s m (b ∷ bs) l =
    elim (format_address m b)
      as (λ f. Waits s (elim f [
        | none ↦ stops
        | some server ↦ again (record l {
          trying_broker_list = true;
          trying_original_server = false;
          current_broker_in_list = b ∷ bs;
          server = server;
          cycle = 0;
        })
      ])) [ none ↦ tt | some server ↦ tt ]

-- The loop as a failure to connect leaves it for its pause.
abbrev timed : Settings → Loop → Loop
timed s l = record l { effective_retry_delay = s.retry_delay; consec_retry = 1 }

next_broker-Waits : (s : Settings) → (m : Bool) → (l : Loop) → Waits s (next_broker s m (timed s l))
unfolding next_broker Waits pause
next_broker-Waits s m l =
    elim l.current_broker_in_list
      as (λ c. Waits s (next_broker s m (timed s (record l { current_broker_in_list = c })))) [
        | [] ↦ tt
        | b ∷ rest ↦ onward b rest
      ]
  where
    onward :
        (b : Broker)
        → (rest : List Broker)
        → Waits s (next_broker s m (timed s (record l { current_broker_in_list = b ∷ rest })))
    onward b [] = if-Waits s (is_nil l.broker_list) _ _ tt refl
    onward b (c ∷ more) =
        if-Waits s (is_nil l.broker_list) _ _ tt
          (elim (format_address m c)
            as (λ f. Waits s (elim f [
              | none ↦ stops
              | some server ↦ again (record (timed s l) {
                current_broker_in_list = c ∷ more;
                server = server;
                cycle = 0;
              })
            ])) [ none ↦ tt | some server ↦ tt ])

original_failed-Waits :
    (s : Settings)
    → (m : Bool) → (f : Brokers) → (l : Loop) → Waits s (original_failed s m f (timed s l))
unfolding original_failed Waits pause
original_failed-Waits s m f l = if-Waits s (not s.has_broker_list_file) _ _ refl (
    if-Waits s (not (is_ok f.status)) _ _ refl (
      if-Waits s (is_nil f.list) _ _ refl
        (if-Waits s (l.cycle == 0) _ _ tt (try_brokers-Waits s m f.list _))))

-- Unless the client goes on with its last server, a pause after a failure to connect or to authenticate
-- takes the configured `retry_delay`, however many failures there have been before.
pub connect_failed-Waits :
    (s : Settings)
    → (m : Bool) → (f : Brokers) → (q : Bool) → (l : Loop) → s.read_last_server ≡ false
    → Waits s (connect_failed s m f q l)
unfolding connect_failed Waits pause
connect_failed-Waits s m f q l e = if-Waits s s.boot_mode _ _ tt (
    if-Waits s q _ _ tt (
      unread s.read_last_server e _ _ (
        if-Waits s l.trying_original_server _ _ (original_failed-Waits s m f l)
          (if-Waits s l.trying_broker_list _ _ (next_broker-Waits s m l) refl))))
  where
    unread : (b : Bool) → b ≡ false → (x y : Next) → Waits s y → Waits s (if b then x else y)
    unread true e x y h = absurd (ground arith)
    unread false e x y h = h
