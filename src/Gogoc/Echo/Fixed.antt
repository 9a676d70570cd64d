-- ===== src/Gogoc/Echo/Fixed.antt =====
-- gogoc/gogoc-tsp/src/net/icmp_echo_engine.c: what reading leaves as it was.
use maiccu.Base.{
  ℕ, ◌+◌, ◌-◌, ◌%◌, ◌^◌, Bool, not, ◌&&◌, [], ◌∷◌, none, some, ◌==◌, ltb, leb, if◌then◌else◌, ◌≡◌,
  refl, ◌∙◌, if_both,
}
use maiccu.Gogoc.Echo.{
  micro, Engine, EngineMode, mode_other, mode_ka, mode_acd, Family, remove_echo_event,
}
use maiccu.Gogoc.Echo.Packet.{
  Host, ReadStatus, read_select_error, read_select_timeout, read_socket_closed, read_recv_error,
  packet_bad, packet_ignored, general_echo_error, pingin_late, pingin_ontime,
}
use maiccu.Gogoc.Echo.Process.{
  Status, connectivity_assessed, iee_success, Poll, heed, stop, check_last, time_out, count_reply,
  react, check_threshold, do_read, poll_once,
}

-- The limit of requests, their interval, their count, and what replies are compared with.
pub record Fixed : Type 0 where
  pub echo_num : ℕ
  pub send_interval : ℕ
  pub count_send : ℕ
  pub eng_mode : EngineMode
  pub icmp_echo_id : ℕ
  pub icmp_saf : Family

abbrev pub fixed : Engine → Fixed
fixed e = record {
  echo_num = e.echo_num;
  send_interval = e.send_interval;
  count_send = e.count_send;
  eng_mode = e.eng_mode;
  icmp_echo_id = e.icmp_echo_id;
  icmp_saf = e.icmp_saf;
}

fixed-if :
    {f : Fixed} (b : Bool) (x y : Engine)
    → fixed x ≡ f
    → fixed y ≡ f
    → fixed (if b then x else y) ≡ f
fixed-if {f} b x y p q = if_both (λ e. fixed e ≡ f) b x y p q

fixed-check_last : (e : Engine) → fixed (check_last e) ≡ fixed e
unfolding check_last
fixed-check_last e = fixed-if (not (e.echo_num == 0) && leb e.echo_num e.count_send) _ _ refl refl

fixed-time_out : (ref before delay : ℕ) (e : Engine) → fixed (time_out ref before delay e) ≡ fixed e
unfolding time_out
fixed-time_out ref before delay e =
    elim e.event_list
      as (λ ws. fixed (time_out ref before delay (record e { event_list = ws })) ≡ fixed e) [
        | [] ↦ refl
        | w ∷ ws ↦ fixed-if (ltb (micro w.tv_timeout + before) (ref + delay)) _ _ refl refl
      ]

fixed-count_reply : (seq : ℕ) (e : Engine) → fixed (count_reply seq e) ≡ fixed e
unfolding count_reply
fixed-count_reply seq e =
    elim (remove_echo_event seq e.event_list)
      as (λ o.
        fixed (elim o as (λ o'. Engine) [
          | none ↦ record e {
            count_consec_late = 0;
            count_ontime = (e.count_ontime + 1) % 2 ^ 32;
            count_late = (e.count_late + 2 ^ 32 - 1) % 2 ^ 32;
          }
          | some events ↦ record e {
            count_consec_late = 0;
            count_ontime = (e.count_ontime + 1) % 2 ^ 32;
            event_list = events;
          }
        ])
        ≡ fixed e) [ none ↦ refl | some events ↦ refl ]

fixed-react :
    (ref before delay : ℕ) (r : ReadStatus) (e : Engine)
    → fixed (react ref before delay r e).0 ≡ fixed e
unfolding react
fixed-react ref before delay packet_bad e = refl
fixed-react ref before delay packet_ignored e = refl
fixed-react ref before delay read_select_timeout e = fixed-time_out ref before delay e
fixed-react ref before delay (pingin_ontime seq) e =
    elim e.eng_mode
      as (λ m.
        fixed
          (elim m as (λ m'. Engine × Status) [
            | mode_acd ↦ (check_last (stop (count_reply seq e)), connectivity_assessed)
            | mode_ka ↦ (check_last (count_reply seq e), iee_success)
            | mode_other ↦ (check_last (count_reply seq e), iee_success)
          ]).0
        ≡ fixed e) [
          | mode_acd ↦ fixed-check_last (stop (count_reply seq e)) ∙ fixed-count_reply seq e
          | mode_ka ↦ fixed-check_last (count_reply seq e) ∙ fixed-count_reply seq e
          | mode_other ↦ fixed-check_last (count_reply seq e) ∙ fixed-count_reply seq e
        ]
fixed-react ref before delay (pingin_late seq) e = fixed-check_last e
fixed-react ref before delay read_socket_closed e = refl
fixed-react ref before delay read_select_error e = refl
fixed-react ref before delay read_recv_error e = refl
fixed-react ref before delay general_echo_error e = refl

fixed-check_threshold : (r : Engine × Status) → fixed (check_threshold r).0 ≡ fixed r.0
unfolding check_threshold
fixed-check_threshold (e, s) =
    if_both {A = Engine × Status} (λ r. fixed r.0 ≡ fixed e)
      (leb e.echo_timeout_threshold e.count_consec_late) _ _ refl refl

pub fixed-poll_once :
    (h : Host) (ref before : ℕ) (p : Poll) (e : Engine)
    → fixed (poll_once h ref before p e).0 ≡ fixed e
unfolding poll_once
fixed-poll_once h ref before p e =
    fixed-check_threshold
      (react ref before p.now_delay (do_read h (heed p.stopped e) p) (heed p.stopped e))
    ∙ fixed-react ref before p.now_delay (do_read h (heed p.stopped e) p) (heed p.stopped e)
