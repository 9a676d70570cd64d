-- ===== src/Aiccu/Tic/Tunnels.antt =====
-- aiccu/tic.c: `tic_ListTunnels`, with `countfields` and `copyfield` of aiccu/common.c.
use maiccu.Base.{
  ℕ, suc, ◌-◌, Bool, true, false, not, ◌&&◌, List, [], ◌∷◌, ◌++◌, Option, none, some, ◌==◌,
  if◌then◌else◌, u8, take,
}

-- `struct TIC_sTunnel`
pub record ListedTunnel : Type 0 where
  pub id : List ℕ
  pub ipv6 : List ℕ
  pub ipv4 : List ℕ
  pub pop_id : List ℕ

abbrev pub buf2_size : ℕ
buf2_size = 1024

-- `countfields`
unfoldable pub count_fields : List ℕ → ℕ
count_fields [] = 1
count_fields (c ∷ cs) = if c == b' ' then suc (count_fields cs) else count_fields cs

-- What `copyfield` comes to: `true` with the field, `false`, or it has read behind the text.
pub data Field : Type 0 where
  found : List ℕ → Field
  missing behind : Field

-- The loop of `copyfield`, at a byte of a field: how many fields are still to be skipped, the field so far and the rest of the text.
unfoldable pub field_from : ℕ → List ℕ → List ℕ → Field
field_from n field [] = if n == 0 then found (take buf2_size field) else behind
field_from n field (c ∷ []) =
    let rest = field_from n (field ++ (c ∷ [])) [] in
    if not (c == b' ') then rest else if n == 0 then found (take buf2_size field) else missing
field_from n field (c ∷ d ∷ cs) =
    let rest = field_from n (field ++ (c ∷ [])) (d ∷ cs) in
    let next = field_from (n - 1) [] (d ∷ cs) in
    if not (c == b' ') then rest else if n == 0 then found (take buf2_size field) else next

-- `copyfield`, from the first field on, which has the number 1.
unfoldable pub copy_field : ℕ → List ℕ → Field
unfolding field_from
copy_field n [] = missing
copy_field n (c ∷ cs) = field_from (n - 1) [] (c ∷ cs)

-- A line of the list: a tunnel, or the loop is left, or it has read behind the line.
pub data Entry : Type 0 where
  entry : ListedTunnel → Entry
  broken overread : Entry

unfoldable pub with_field : Field → (List ℕ → Entry) → Entry
with_field (found field) go = go field
with_field missing go = broken
with_field behind go = overread

unfoldable pub read_entry : Bool → List ℕ → Entry
unfolding with_field copy_field count_fields
read_entry memory line =
    if not (count_fields line == 4)
    then broken
    else if not memory
    then broken
    else with_field (copy_field 1 line) (λ a. with_field (copy_field 2 line) (λ b.
      with_field (copy_field 3 line) (λ c.
        with_field (copy_field 4 line)
          (λ d. entry (record { id = a; ipv6 = b; ipv4 = c; pop_id = d })))))

-- What `tic_ListTunnels` comes to: the list (an empty one is a null pointer, as a failure is), with the replies
-- behind its end; a failure; still waiting; or it has
-- read behind a line.
pub data Listing : Type 0 where
  listed : List ListedTunnel → List (Option (List ℕ)) → Listing
  no_list stuck fault : Listing

unfoldable pub is_code : ℕ → List ℕ → Bool
is_code digit line = u8 line 0 == b'2' && u8 line 1 == b'0' && u8 line 2 == digit

-- The loop over the lines, with the tunnels so far. `memory n` says whether the n-th allocation succeeds.
unfoldable pub collect : (ℕ → Bool) → ℕ → List ListedTunnel → List (Option (List ℕ)) → Listing
unfolding is_code read_entry
collect memory n tunnels [] = stuck
collect memory n tunnels (none ∷ replies) = no_list
collect memory n tunnels (some line ∷ replies) = elim (is_code b'2' line) [
  | true ↦ listed tunnels replies
  | false ↦ elim (read_entry (memory n) line) [
    | entry t ↦ collect memory (suc n) (tunnels ++ (t ∷ [])) replies
    | broken ↦ no_list
    | overread ↦ fault
  ]
]

-- `tic_ListTunnels`, on the replies to "tunnel list".
unfoldable pub list_tunnels : (ℕ → Bool) → List (Option (List ℕ)) → Listing
unfolding collect is_code
list_tunnels memory [] = stuck
list_tunnels memory (none ∷ replies) = no_list
list_tunnels memory (some line ∷ replies) =
    let rest = collect memory 0 [] replies in if not (is_code b'1' line) then no_list else rest
