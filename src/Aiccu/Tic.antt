-- ===== src/Aiccu/Tic.antt =====
-- aiccu/tic.c: the dialogue with a TIC server. A reply is the line that a call of `sock_getline` leaves in
-- `buf`, without zero bytes, or nothing if the call gives -1. What the client says is what it hands to
-- `sock_printf`. MD5String (hash_md5.c is a copy of another project's) is an argument.
pub mod Login
pub mod Verdict
pub mod Tunnels
pub mod Fields
pub mod Entries
pub mod Listing
use maiccu.Base.{
  ℕ, zero, suc, ◌+◌, ◌-◌, ◌*◌, ◌/◌, ◌%◌, ◌^◌, Bool, true, false, not, ◌&&◌, ◌||◌, List, [], ◌∷◌,
  ◌++◌, Option, none, some, ◌==◌, ltb, leb, if◌then◌else◌, u8, take, drop, codes,
}
use maiccu.Base.Text.{atoi, decimal}
use maiccu.Aiccu.Clock.{check_time}

-- The results of `tic_Login`: `true`, `false`, and the codes of `enum TKZAiccuError`. `waiting` is a
-- call that is still in `sock_getline`.
pub data Result : Type 0 where
  granted failed invalid_user invalid_pwd no_tic_connection client_not_up_to_date : Result
  no_time_sync waiting : Result

-- What a call has said, whether `tic->sock` is open, and its result.
pub record Session : Type 0 where
  pub sent : List (List ℕ)
  pub connected : Bool
  pub result : Result

-- The line that names the client and its system, name and password of the user, and the text that
-- `tic_Logout` picks.
pub record Client : Type 0 where
  pub identification : List ℕ
  pub username : List ℕ
  pub password : List ℕ
  pub farewell : List ℕ

abbrev pub end_line : List ℕ → List ℕ
end_line bs = bs ++ (b'\n' ∷ [])

unfoldable pub stay : List (List ℕ) → Result → Session
stay sent result = record { sent = sent; connected = true; result = result }

-- `tic_Logout` of an open connection, with its message.
unfoldable pub logout : List ℕ → List (List ℕ) → Result → Session
logout message sent result = record {
  sent = sent ++ (end_line (codes "QUIT " ++ message) ∷ []);
  connected = false;
  result = result;
}

-- "Fetch the answer" and the test of its first byte: where the call goes without a reply, after -1, after
-- another reply and after a positive one.
unfoldable pub fetch :
    List (Option (List ℕ))
    → Session
    → Session
    → Session
    → (List ℕ → List (Option (List ℕ)) → Session)
    → Session
fetch [] stays fails refused goes = stays
fetch (none ∷ replies) stays fails refused goes = fails
fetch (some buf ∷ replies) stays fails refused goes =
    if not (u8 buf 0 == b'2') then refused else goes buf replies

-- The signature: the hash of the challenge and the hash of the password, as far as `sChallenge` holds them.
unfoldable pub signature : (List ℕ → List ℕ) → List ℕ → List ℕ → List ℕ
signature md5_string password challenge = md5_string (take 1023 (challenge ++ md5_string password))

-- The parts of `tic_Login`, the last first. Each takes what was said before it.
unfoldable pub authenticate :
    (List ℕ → List ℕ) → Client → List (List ℕ) → List ℕ → List (Option (List ℕ)) → Session
unfolding fetch stay logout signature
authenticate md5_string c before challenge replies =
    let said =
      before
      ++ (end_line (codes "authenticate md5 " ++ signature md5_string c.password challenge) ∷ []) in
    fetch replies (stay said waiting) (logout c.farewell said failed)
      (logout c.farewell said invalid_pwd) (λ buf rest. stay said granted)

unfoldable pub pick_challenge :
    (List ℕ → List ℕ) → Client → List (List ℕ) → List (Option (List ℕ)) → Session
unfolding authenticate fetch stay
pick_challenge md5_string c before replies =
    let said = before ++ (end_line (codes "challenge md5") ∷ []) in
    fetch replies (stay said waiting) (stay said failed) (stay said failed)
      (λ buf rest. authenticate md5_string c said (drop 4 buf) rest)

unfoldable pub send_username :
    (List ℕ → List ℕ) → Client → List (List ℕ) → List (Option (List ℕ)) → Session
unfolding pick_challenge fetch stay
send_username md5_string c before replies =
    let said = before ++ (end_line (codes "username " ++ c.username) ∷ []) in
    fetch replies (stay said waiting) (stay said failed) (stay said invalid_user)
      (λ buf rest. pick_challenge md5_string c said rest)

unfoldable pub clock_message : ℕ → List ℕ
unfolding decimal
clock_message i =
    end_line (codes "Aborting: Clock is off by " ++ (decimal 10 i ++ codes " seconds"))

unfoldable pub request_time :
    (List ℕ → List ℕ) → Client → ℕ → List (List ℕ) → List (Option (List ℕ)) → Session
unfolding send_username fetch stay logout clock_message atoi
request_time md5_string c now before replies =
    let said = before ++ (end_line (codes "get unixtime") ∷ []) in
    fetch replies (stay said waiting) (stay said failed) (stay said failed) (λ buf rest.
      let i = check_time now (atoi (drop 4 buf)) in
      if not (i == 0)
      then logout (clock_message i) said no_time_sync
      else send_username md5_string c said rest)

unfoldable pub identify : (List ℕ → List ℕ) → Client → ℕ → List (Option (List ℕ)) → Session
unfolding request_time fetch stay
identify md5_string c now replies =
    let said = c.identification ∷ [] in
    fetch replies (stay said waiting) (stay said failed) (stay said client_not_up_to_date)
      (λ buf rest. request_time md5_string c now said rest)

-- `tic_Login`, whether the connection can be made, at a time.
unfoldable pub login : (List ℕ → List ℕ) → Client → Bool → ℕ → List (Option (List ℕ)) → Session
unfolding identify fetch stay
login md5_string c connects now replies =
    if not connects
    then record { sent = []; connected = false; result = failed }
    else fetch replies (stay [] waiting) (stay [] failed) (stay [] no_tic_connection)
        (λ buf rest. identify md5_string c now rest)
