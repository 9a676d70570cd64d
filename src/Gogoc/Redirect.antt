-- ===== src/Gogoc/Redirect.antt =====
-- gogoc/gogoc-tsp/src/tsp/tsp_redirect.c: lists of brokers, from a redirection message or from a file. A
-- text is the list of its bytes, without the zero behind them.
pub mod Sorted
pub mod Create
pub mod File
pub mod Handle
use mathlib.Core.List.{map}
use maiccu.Base.{
  ℕ, zero, suc, ◌+◌, ◌-◌, Bool, true, false, not, ◌&&◌, ◌||◌, List, [], ◌∷◌, ◌++◌, Option, none,
  some, ◌==◌, ltb, leb, if◌then◌else◌, take, drop, length, u8,
}

-- `tRedirectStatus`, as far as it is used here.
pub data Status : Type 0 where
  ok internal_err cant_open_file cant_write_to_file cant_add_broker_to_list : Status
  cant_extract_payload cant_create_list cant_sort_list cant_allocate_mem : Status
  address_truncated cant_get_distances empty_broker_list too_many_brokers : Status

-- `tBrokerAddressType`
pub data AddressType : Type 0 where
  unspecified fqdn ipv4 ipv6 : AddressType

pub record Broker : Type 0 where
  pub address : List ℕ
  pub distance : ℕ
  pub address_type : AddressType

abbrev pub max_address_length : ℕ
max_address_length = 255

abbrev pub max_brokers : ℕ
max_brokers = 50

abbrev pub max_line_length : ℕ
max_line_length = 255

-- A list of brokers with the status of the operation.
pub record Brokers : Type 0 where
  pub status : Status
  pub list : List Broker

-- `tspAddBrokerToList`, for a list that is given: whether memory is left, the address (null or not).
unfoldable pub add_broker : Bool → List Broker → Option (List ℕ) → AddressType → Brokers
add_broker memory list none kind = record { status = internal_err; list = list }
add_broker memory list (some address) kind =
    if not memory
    then record { status = cant_allocate_mem; list = list }
    else if not (length (take (max_address_length - 1) address) == length address)
    then record { status = address_truncated; list = list }
    else record {
      status = ok;
      list = list ++ (record { address = address; distance = 0; address_type = kind } ∷ []);
    }

unfoldable pub is_ok : Status → Bool
is_ok ok = true
is_ok _ = false

-- One of the three loops of `tspCreateBrokerList`, from a list that has `count` brokers. `memory n` says
-- whether the n-th allocation succeeds.
unfoldable pub add_all : (ℕ → Bool) → AddressType → List (Option (List ℕ)) → List Broker → Brokers
unfolding add_broker is_ok
add_all memory kind [] list = record { status = ok; list = list }
add_all memory kind (address ∷ addresses) list =
    let added = add_broker (memory (length list)) list address kind in
    let rest = add_all memory kind addresses added.list in
    if not (ltb (length list) max_brokers)
    then record { status = too_many_brokers; list = [] }
    else if not (is_ok added.status)
    then record { status = cant_add_broker_to_list; list = [] }
    else rest

-- `tspCreateBrokerList`: the IPv4 addresses of the message, its IPv6 addresses and its names. The
-- number of brokers, which the code counts, is the length of the list.
unfoldable pub create_list :
    (ℕ → Bool) → List (Option (List ℕ)) → List (Option (List ℕ)) → List (Option (List ℕ)) → Brokers
unfolding add_all
create_list memory ipv4s ipv6s names =
    let first = add_all memory ipv4 ipv4s [] in
    let second = add_all memory ipv6 ipv6s first.list in
    let third = add_all memory fqdn names second.list in
    if not (is_ok first.status) then first else if not (is_ok second.status) then second else third

-- `tspInsertInBrokerList`: behind all brokers that are nearer.
unfoldable pub insert : Broker → List Broker → List Broker
insert b [] = b ∷ []
insert b (c ∷ cs) = if ltb c.distance b.distance then c ∷ insert b cs else b ∷ c ∷ cs

-- The loop of `tspSortBrokerList`. `memory` says of each copy whether it can be allocated.
unfoldable pub insert_all : (ℕ → Bool) → ℕ → List Broker → List Broker → Option (List Broker)
unfolding insert
insert_all memory n [] sorted = some sorted
insert_all memory n (b ∷ bs) sorted =
    let rest = insert_all memory (suc n) bs (insert b sorted) in
    if not (memory n) then none else rest

-- The distances are those that `tspGetBrokerDistances` measures, if its threads can be run.
unfoldable pub measured : List ℕ → List Broker → List Broker
measured [] bs = bs
measured (d ∷ ds) [] = []
measured (d ∷ ds) (b ∷ bs) = record b { distance = d } ∷ measured ds bs

-- `tspSortBrokerList`
unfoldable pub sort_list : (ℕ → Bool) → Option (List ℕ) → List Broker → Brokers
unfolding insert_all measured
sort_list memory none list = record { status = cant_get_distances; list = list }
sort_list memory (some distances) list = elim (insert_all memory 0 (measured distances list) []) [
  | none ↦ record { status = cant_allocate_mem; list = measured distances list }
  | some sorted ↦ record { status = ok; list = sorted }
]

-- What `tspExtractPayload` reads from the message: three lists of addresses.
pub record Redirection : Type 0 where
  pub broker_redirect_ipv4 : List (Option (List ℕ))
  pub broker_redirect_ipv6 : List (Option (List ℕ))
  pub broker_redirect_dn : List (Option (List ℕ))

-- `tspHandleRedirect`, without the file that it writes. Both allocations and distances come from outside.
unfoldable pub handle_redirect :
    (ℕ → Bool) → (ℕ → Bool) → Option (List ℕ) → Option Redirection → List Broker → Brokers
unfolding create_list sort_list
handle_redirect memory copies distances none list = record {
  status = cant_extract_payload;
  list = list;
}
handle_redirect memory copies distances (some r) list =
    let created =
      create_list memory r.broker_redirect_ipv4 r.broker_redirect_ipv6 r.broker_redirect_dn in
    let sorted = sort_list copies distances created.list in
    if not (is_ok created.status)
    then record { status = cant_create_list; list = created.list }
    else if ltb 1 (length created.list)
    then if not (is_ok sorted.status)
      then record { status = cant_sort_list; list = sorted.list }
      else sorted
    else if length created.list == 0
    then record { status = empty_broker_list; list = [] }
    else created

-- What `tspWriteBrokerListToFile` writes: a line for each broker.
unfoldable pub write_list : List Broker → List ℕ
write_list [] = []
write_list (b ∷ bs) = b.address ++ (b'\n' ∷ write_list bs)

-- `fgets`, from `n` bytes that fit on: the bytes up to a newline, which is taken too, and the rest.
unfoldable pub fgets : ℕ → List ℕ → List ℕ × List ℕ
fgets zero bytes = ([], bytes)
fgets (suc n) [] = ([], [])
fgets (suc n) (b ∷ bytes) =
    let (line, rest) = fgets n bytes in if b == b'\n' then (b ∷ [], bytes) else (b ∷ line, rest)

-- `line[strlen(line) - 1] = '\0'` if that is a newline or a carriage return.
unfoldable pub strip : List ℕ → List ℕ
strip line =
    if not (length line == 0)
      && (u8 line (length line - 1) == b'\n' || u8 line (length line - 1) == b'\r')
    then take (length line - 1) line
    else line

-- The loop of `tspReadBrokerListFromFile`, on fuel: a round takes at least one byte.
unfoldable pub read_lines : ℕ → (ℕ → Bool) → List ℕ → List Broker → Option Brokers
unfolding fgets strip add_broker is_ok
read_lines zero memory bytes list = none
read_lines (suc fuel) memory [] list = some (record { status = ok; list = list })
read_lines (suc fuel) memory (b ∷ bytes) list =
    let (got, rest) = fgets (max_line_length - 1) (b ∷ bytes) in
    let line = strip (strip got) in
    let added = add_broker (memory (length list)) list (some line) unspecified in
    let skip = read_lines fuel memory rest list in
    let next = read_lines fuel memory rest added.list in
    if length line == 0
    then skip
    else if not (ltb (length list) max_brokers)
    then some (record { status = too_many_brokers; list = list })
    else if not (is_ok added.status)
    then some (record { status = cant_add_broker_to_list; list = list })
    else next

-- `tspReadBrokerListFromFile`, for a file that can be opened.
unfoldable pub read_list : (ℕ → Bool) → List ℕ → Option Brokers
unfolding read_lines
read_list memory bytes = read_lines (suc (length bytes)) memory bytes []
