-- ===== src/Aiccu/Tic/Login.antt =====
-- aiccu/tic.c: when `tic_Login` succeeds.
use maiccu.Base.{
  ◌∙◌, if◌then◌else◌, ℕ, ◌≡◌, ◌≢◌, refl, Bool, true, false, not, List, [], ◌∷◌, ◌++◌, Option, none,
  some, ◌==◌, u8, drop, passed, if_past, ap, Bool-cases, inl, inr, ==_iff, codes,
}
use maiccu.Aiccu.Clock.{check_time}
use maiccu.Base.Text.{atoi}
use maiccu.Aiccu.Tic.{
  granted, failed, invalid_user, invalid_pwd, no_tic_connection, client_not_up_to_date,
  no_time_sync, waiting, Session, Client, end_line, stay, logout, fetch, signature, authenticate,
  pick_challenge, send_username, request_time, identify, login,
}

-- A positive reply.
abbrev Positive : List ℕ → Type 0
Positive buf = u8 buf 0 ≡ b'2'

fetch-granted :
    (replies : List (Option (List ℕ))) (stays fails refused : Session)
    (goes : List ℕ → List (Option (List ℕ)) → Session)
    → stays.result ≢ granted
    → fails.result ≢ granted
    → refused.result ≢ granted
    → (fetch replies stays fails refused goes).result ≡ granted
    → (buf : List ℕ) × (rest : List (Option (List ℕ))) × (replies ≡ some buf ∷ rest)
      × Positive buf
      × (fetch replies stays fails refused goes ≡ goes buf rest)
      × ((goes buf rest).result ≡ granted)
unfolding fetch
fetch-granted [] stays fails refused goes a b c h = absurd (a h)
fetch-granted (none ∷ replies) stays fails refused goes a b c h = absurd (b h)
fetch-granted (some buf ∷ replies) stays fails refused goes a b c h =
    elim (Bool-cases (u8 buf 0 == b'2')) [
      | inr e ↦ absurd (c (rw e at h))
      | inl e ↦ (
        buf,
        replies,
        refl,
        (==_iff _ _).0 e,
        if_past (not (u8 buf 0 == b'2')) refused (ap not e) refl,
        rw e at h,
      )
    ]

granted_past :
    (c : Bool) (x y : Session)
    → x.result ≢ granted
    → (if c then x else y).result ≡ granted
    → (c ≡ false) × ((if c then x else y) ≡ y) × (y.result ≡ granted)
granted_past true x y n h = absurd (n h)
granted_past false x y n h = (refl, refl, h)

-- What the client says when all goes well.
abbrev transcript : (List ℕ → List ℕ) → Client → List ℕ → List (List ℕ)
transcript md5_string c challenge =
    c.identification
    ∷ end_line (codes "get unixtime")
    ∷ end_line (codes "username " ++ c.username)
    ∷ end_line (codes "challenge md5")
    ∷ end_line (codes "authenticate md5 " ++ signature md5_string c.password challenge)
    ∷ []

-- The six replies of a login that is granted: welcome, client, time, name, challenge, signature.
abbrev pub IsLogin : (List ℕ → List ℕ) → Client → ℕ → List (Option (List ℕ)) → Session → Type 0
IsLogin md5_string c now replies session =
    (w i t u h s : List ℕ) × (rest : List (Option (List ℕ))) × (replies
      ≡ some w ∷ some i ∷ some t ∷ some u ∷ some h ∷ some s ∷ rest)
    × Positive w
    × Positive i
    × Positive t
    × Positive u
    × Positive h
    × Positive s
    × (check_time now (atoi (drop 4 t)) ≡ 0)
    × (session ≡ stay (transcript md5_string c (drop 4 h)) granted)

failed-ne : failed ≢ granted
failed-ne h = cc

waiting-ne : waiting ≢ granted
waiting-ne h = cc

invalid_user-ne : invalid_user ≢ granted
invalid_user-ne h = cc

invalid_pwd-ne : invalid_pwd ≢ granted
invalid_pwd-ne h = cc

no_tic_connection-ne : no_tic_connection ≢ granted
no_tic_connection-ne h = cc

client_not_up_to_date-ne : client_not_up_to_date ≢ granted
client_not_up_to_date-ne h = cc

no_time_sync-ne : no_time_sync ≢ granted
no_time_sync-ne h = cc

-- A login is granted only if the server gives a positive reply to each of the six questions and its clock
-- is in the allowed range; the client has then said just what the transcript has, the hash of the challenge
-- and of the password's hash in place of the password, and stays connected.
pub login-IsLogin :
    (md5_string : List ℕ → List ℕ) (c : Client) (connects : Bool) (now : ℕ)
    (replies : List (Option (List ℕ)))
    → (login md5_string c connects now replies).result ≡ granted
    → IsLogin md5_string c now replies (login md5_string c connects now replies)
unfolding login identify request_time send_username pick_challenge authenticate stay logout
login-IsLogin md5_string c false now replies g = absurd (failed-ne g)
login-IsLogin md5_string c true now replies g =
    let (w, r1, e1, p1, q1, g1) =
      fetch-granted replies _ _ _ _ waiting-ne failed-ne no_tic_connection-ne g in
    let (i, r2, e2, p2, q2, g2) =
      fetch-granted r1 _ _ _ _ waiting-ne failed-ne client_not_up_to_date-ne g1 in
    let (t, r3, e3, p3, q3, g3) = fetch-granted r2 _ _ _ _ waiting-ne failed-ne failed-ne g2 in
    let (z, q, g') = granted_past _ _ _ no_time_sync-ne g3 in
    let (u, r4, e4, p4, q4, g4) =
      fetch-granted r3 _ _ _ _ waiting-ne failed-ne invalid_user-ne g' in
    let (h, r5, e5, p5, q5, g5) = fetch-granted r4 _ _ _ _ waiting-ne failed-ne failed-ne g4 in
    let (s, r6, e6, p6, q6, g6) = fetch-granted r5 _ _ _ _ waiting-ne failed-ne invalid_pwd-ne g5 in
    (
      w,
      i,
      t,
      u,
      h,
      s,
      r6,
      e1
          ∙ ap (◌∷◌ (some w)) (
              e2
              ∙ ap (◌∷◌ (some i))
                  (e3 ∙ ap (◌∷◌ (some t)) (e4 ∙ ap (◌∷◌ (some u)) (e5 ∙ ap (◌∷◌ (some h)) e6)))),
      p1,
      p2,
      p3,
      p4,
      p5,
      p6,
      (==_iff _ _).0 (passed _ z),
      q1 ∙ q2 ∙ q3 ∙ q ∙ q4 ∙ q5 ∙ q6,
    )
