-- ===== src/Aiccu/Tic/Verdict.antt =====
-- aiccu/tic.c: the result of `tic_Login` on every path.
use maiccu.Base.{
  ℕ, ◌≡◌, refl, Bool, true, false, not, List, [], ◌∷◌, Option, none, some, ◌==◌, u8, drop,
  if◌then◌else◌, Bool-cases, inl, inr, codes,
}
use maiccu.Aiccu.Clock.{check_time}
use maiccu.Base.Text.{atoi}
use maiccu.Aiccu.Tic.{
  Result, granted, failed, invalid_user, invalid_pwd, no_tic_connection, client_not_up_to_date,
  no_time_sync, waiting, Session, Client, end_line, stay, logout, fetch, authenticate,
  pick_challenge, send_username, request_time, identify, login,
}

-- A question with the result if its reply is negative; with the time, its reply is compared with the clock.
pub data Question : Type 0 where
  plain time : Result → Question

-- The verdict on the replies: the first that is missing or not as it should be decides.
unfoldable pub verdict : ℕ → List Question → List (Option (List ℕ)) → Result
verdict now [] replies = granted
verdict now (q ∷ qs) [] = waiting
verdict now (q ∷ qs) (none ∷ replies) = failed
verdict now (plain r ∷ qs) (some buf ∷ replies) =
    let rest = verdict now qs replies in if not (u8 buf 0 == b'2') then r else rest
verdict now (time r ∷ qs) (some buf ∷ replies) =
    let rest = verdict now qs replies in
    if not (u8 buf 0 == b'2')
    then r
    else if not (check_time now (atoi (drop 4 buf)) == 0)
    then no_time_sync
    else rest

abbrev pub questions : List Question
questions =
    plain no_tic_connection
    ∷ plain client_not_up_to_date
    ∷ time failed
    ∷ plain invalid_user
    ∷ plain failed
    ∷ plain invalid_pwd
    ∷ []

module _ (now : ℕ) (r : Result) (qs : List Question) where
  fetch-plain :
      (replies : List (Option (List ℕ))) (stays fails refused : Session)
      (goes : List ℕ → List (Option (List ℕ)) → Session)
      → stays.result ≡ waiting
      → fails.result ≡ failed
      → refused.result ≡ r
      → ((buf : List ℕ) (rest : List (Option (List ℕ)))
          → (goes buf rest).result ≡ verdict now qs rest)
      → (fetch replies stays fails refused goes).result ≡ verdict now (plain r ∷ qs) replies
  unfolding fetch verdict
  fetch-plain [] stays fails refused goes a b c k = a
  fetch-plain (none ∷ replies) stays fails refused goes a b c k = b
  fetch-plain (some buf ∷ replies) stays fails refused goes a b c k =
      elim (Bool-cases (u8 buf 0 == b'2')) [ inl e ↦ rw e (k buf replies) | inr e ↦ rw e c ]

  fetch-time :
      (replies : List (Option (List ℕ))) (stays fails refused : Session)
      (goes : List ℕ → List (Option (List ℕ)) → Session)
      → stays.result ≡ waiting
      → fails.result ≡ failed
      → refused.result ≡ r
      → ((buf : List ℕ) (rest : List (Option (List ℕ)))
          → (goes buf rest).result ≡ (
              if not (check_time now (atoi (drop 4 buf)) == 0)
              then no_time_sync
              else verdict now qs rest))
      → (fetch replies stays fails refused goes).result ≡ verdict now (time r ∷ qs) replies
  unfolding fetch verdict
  fetch-time [] stays fails refused goes a b c k = a
  fetch-time (none ∷ replies) stays fails refused goes a b c k = b
  fetch-time (some buf ∷ replies) stays fails refused goes a b c k =
      elim (Bool-cases (u8 buf 0 == b'2')) [ inl e ↦ rw e (k buf replies) | inr e ↦ rw e c ]

clock-verdict :
    (c : Bool) (x y : Session) (r s : Result)
    → x.result ≡ r
    → y.result ≡ s
    → (if c then x else y).result ≡ (if c then r else s)
clock-verdict true x y r s h k = h
clock-verdict false x y r s h k = k

abbrev later_questions : List Question
later_questions = plain invalid_user ∷ plain failed ∷ plain invalid_pwd ∷ []

send_username-verdict :
    (md5_string : List ℕ → List ℕ) (c : Client) (now : ℕ) (said : List (List ℕ))
    (replies : List (Option (List ℕ)))
    → (send_username md5_string c said replies).result ≡ verdict now later_questions replies
unfolding send_username pick_challenge authenticate stay logout verdict
send_username-verdict md5_string c now said replies =
    fetch-plain now invalid_user (plain failed ∷ plain invalid_pwd ∷ []) replies _ _ _ _ refl refl
      refl
      (λ u r4.
        fetch-plain now failed (plain invalid_pwd ∷ []) r4 _ _ _ _ refl refl refl
          (λ h r5. fetch-plain now invalid_pwd [] r5 _ _ _ _ refl refl refl (λ s r6. refl)))

-- Of the six questions of a login that has a connection the first whose reply is missing or negative decides the
-- result, -1 for a failed read and else the code of the question, or the clock, if it is off; without
-- any of these the login is granted.
pub login-verdict :
    (md5_string : List ℕ → List ℕ) (c : Client) (now : ℕ) (replies : List (Option (List ℕ)))
    → (login md5_string c true now replies).result ≡ verdict now questions replies
unfolding login identify request_time send_username pick_challenge authenticate stay logout
login-verdict md5_string c now replies =
    let said = c.identification ∷ end_line (codes "get unixtime") ∷ [] in
    fetch-plain now no_tic_connection (plain client_not_up_to_date ∷ time failed ∷ later_questions)
      replies _ _ _ _ refl refl refl
      (λ w r1.
        fetch-plain now client_not_up_to_date (time failed ∷ later_questions) r1 _ _ _ _ refl refl
          refl
          (λ i r2. fetch-time now failed later_questions r2 _ _ _ _ refl refl refl (λ t r3.
            clock-verdict (not (check_time now (atoi (drop 4 t)) == 0)) _
              (send_username md5_string c said r3) no_time_sync _ refl
              (send_username-verdict md5_string c now said r3))))
