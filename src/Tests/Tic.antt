-- ===== src/Tests/Tic.antt =====
-- TIC at concrete replies.
use maiccu.Base.{
  ℕ, ◌+◌, ◌%◌, ◌≡◌, refl, arith, Bool, true, List, [], ◌∷◌, ◌++◌, Option, some, codes, replicate,
  take,
}
use maiccu.Aiccu.Clock.{check_time}
use maiccu.Base.Text.{atoi, number, digits, decimal}
use maiccu.Aiccu.Tic.{
  granted, invalid_pwd, Client, login, identify, request_time, send_username, pick_challenge,
  authenticate, fetch, stay, logout, signature, clock_message,
}
use maiccu.Aiccu.Tic.Login.{IsLogin, login-IsLogin}
use maiccu.Aiccu.Tic.Verdict.{verdict, questions, login-verdict}
use maiccu.Aiccu.Tic.Tunnels.{ListedTunnel, listed, list_tunnels, is_code}
use maiccu.Aiccu.Tic.Listing.{entry_lines, list_tunnels-lines}
use maiccu.Tests.{bytes_sum}

-- A text of thirty-two bytes, in place of MD5String.
abbrev toy_md5_string : List ℕ → List ℕ
toy_md5_string bs = (b'a' + bytes_sum bs % 26) ∷ replicate 31 b'0'

abbrev tester : Client
tester = record {
  identification = codes "client TIC/draft-00 AICCU/2007.01.15 Darwin/13.0";
  username = codes "ABC1-SIXXS";
  password = codes "secret";
  farewell = codes "Insomnia";
}

abbrev replies : List (Option (List ℕ))
replies =
    some (codes "200 SixXS TIC Service")
    ∷ some (codes "200 Client Identity accepted")
    ∷ some (codes "200 1400000000")
    ∷ some (codes "200 ABC1-SIXXS choose your authentication challenge")
    ∷ some (codes "200 0123456789abcdef")
    ∷ some (codes "200 Successfully logged in")
    ∷ []

logged_in : (login toy_md5_string tester true 1400000060 replies).result ≡ granted
unfolding login identify request_time send_username pick_challenge authenticate fetch stay logout
    signature atoi number digits check_time
logged_in = refl

-- Three minutes later the clock is off.
out_of_sync :
    (login toy_md5_string tester true 1400000180 replies).sent
    ≡ tester.identification
      ∷ (codes "get unixtime" ++ (b'\n' ∷ []))
      ∷ (codes "QUIT Aborting: Clock is off by 180 seconds" ++ (b'\n' ∷ b'\n' ∷ []))
      ∷ []
unfolding login identify request_time send_username pick_challenge authenticate fetch stay logout
    signature atoi number digits decimal clock_message check_time
out_of_sync = refl

login-IsLogin_example :
    IsLogin toy_md5_string tester 1400000060 replies
      (login toy_md5_string tester true 1400000060 replies)
login-IsLogin_example = login-IsLogin toy_md5_string tester true 1400000060 replies logged_in

-- The last reply is negative.
abbrev refused_replies : List (Option (List ℕ))
refused_replies = take 5 replies ++ (some (codes "400 Login failed") ∷ [])

login-verdict_example :
    (login toy_md5_string tester true 1400000060 refused_replies).result
    ≡ verdict 1400000060 questions refused_replies
login-verdict_example = login-verdict toy_md5_string tester 1400000060 refused_replies

refused : (login toy_md5_string tester true 1400000060 refused_replies).result ≡ invalid_pwd
unfolding login identify request_time send_username pick_challenge authenticate fetch stay logout
    signature atoi number digits check_time
refused = refl

abbrev always : ℕ → Bool
always n = true

abbrev tunnels : List ListedTunnel
tunnels =
    record {
      id = codes "T1";
      ipv6 = codes "2001:db8::2";
      ipv4 = codes "ayiya";
      pop_id = codes "dedus01";
    }
    ∷ record {
      id = codes "T2";
      ipv6 = codes "2001:db8:1::2";
      ipv4 = codes "heartbeat";
      pop_id = codes "nlams01";
    }
    ∷ []

abbrev tunnel_replies : List (Option (List ℕ))
tunnel_replies =
    some (codes "201 Listing tunnels") ∷ (entry_lines tunnels ++ (some (codes "202 <- end") ∷ []))

list_tunnels-lines_example : list_tunnels always tunnel_replies ≡ listed tunnels []
unfolding is_code
list_tunnels-lines_example =
    list_tunnels-lines always tunnels (codes "201 Listing tunnels") (codes "202 <- end") []
      (λ i. refl) (ground arith) (refl, (refl, tt)) refl refl
