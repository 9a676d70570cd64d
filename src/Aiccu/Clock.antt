-- ===== src/Aiccu/Clock.antt =====
-- aiccu/tic.c: `tic_checktime`.
use maiccu.Base.{ℕ, ◌+◌, ◌-◌, ◌%◌, ◌^◌, ◌≤◌, ◌<◌, ◌≡◌, ◌↔◌, ltb, ◌==◌, if◌then◌else◌, arith}

abbrev pub clock_off : ℕ
clock_off = 120

-- `tic_checktime`: both times are cut to 32 bits, and their difference is an `int` that wraps around,
-- also where its sign is flipped. The result is the number of seconds, 0 if that is allowed.
unfoldable pub check_time : ℕ → ℕ → ℕ
check_time now epoch =
    let d = (now % 2 ^ 32 + 2 ^ 32 - epoch % 2 ^ 32) % 2 ^ 32 in
    let i = if ltb d (2 ^ 31) then d else 2 ^ 32 - d in
    if d == 2 ^ 31 then 0 else if ltb clock_off i then i else 0

-- Of two times before the year 2038 each is within two minutes of the other exactly if the check gives 0.
pub check_time_iff :
    (now epoch : ℕ)
    → now < 2 ^ 31
    → epoch < 2 ^ 31
    → (check_time now epoch ≡ 0) ↔ ((now ≤ epoch + clock_off) × (epoch ≤ now + clock_off))
unfolding check_time
check_time_iff now epoch h k = ground arith
