-- ===== src/Invite/Reports.antt =====
-- The callbacks of a session over its life.
use libgb.Base.{
  ℕ, ◌+◌, ◌≡◌, refl, Bool, true, false, Option, none, some, List, [], ◌∷◌, ◌++◌, arith, of_some,
  guard_inv,
}
use libgb.Message.{Text}
use libgb.Sip.{SipCodes}
use libgb.Sdp.{SdpDescription, SdpFormat}
use libgb.Invite.{
  Action, replied, info_replied, InviteRequest, to_bye, ack, bye, cancel, failed, get_invite,
  add_invite, no_reason, they_bye, they_cancel, wait_ack_timeout, recv_teardown, rejected,
  local_sdp_error,
}
use libgb.Invite.Steps.{
  to_invite_request, offer, with_ssrc, started, on_recv_bye, on_recv_cancel, on_recv_ack,
  on_recv_message, Info, on_recv_info, unreadable_after, play, pause, teardown_info, no_info,
  no_method, answer_info,
}
use libgb.Invite.Incoming.{handle_reply, on_ack_timer, accept}
use libgb.Invite.Run.{
  Event, step, run, answer, close, teardown_call, sent, reply, bye_request, cancel_request,
  message_request, ack_timer, platform_gone, ack_request, info_request,
}
use libgb.Invite.Results.{
  results, last_status, results-append, due, Accounted, set_status-Accounted, one-Accounted,
  same-Accounted, to_bye-Accounted, to_teardown-Accounted, on_sent-Accounted,
  on_invite_reply-Accounted, replying-Accounted, then_do-Accounted,
}

on_recv_bye-Accounted : (i : InviteRequest) → Accounted i (on_recv_bye i)
unfolding on_recv_bye get_invite
on_recv_bye-Accounted i =
    let found = (replying-Accounted (replied 200 none) bye they_bye i refl (λ s. refl)).0 in
    let missing = one-Accounted (replied 481 none) i refl (λ s. refl) in ground arith

on_recv_cancel-Accounted : (i : InviteRequest) → Accounted i (on_recv_cancel i)
unfolding on_recv_cancel get_invite
on_recv_cancel-Accounted i =
    let found = (replying-Accounted (replied 200 none) cancel they_cancel i refl (λ s. refl)).0 in
    let missing = one-Accounted (replied 481 none) i refl (λ s. refl) in ground arith

on_recv_message-Accounted : (i : InviteRequest) → Accounted i (on_recv_message i)
unfolding on_recv_message get_invite
on_recv_message-Accounted i =
    let found = one-Accounted (replied 404 none) i refl (λ s. refl) in
    let missing = one-Accounted (replied 481 none) i refl (λ s. refl) in ground arith

on_recv_ack-Accounted : (dialog : Bool) (i : InviteRequest) → Accounted i (on_recv_ack dialog i)
unfolding on_recv_ack get_invite
on_recv_ack-Accounted dialog i =
    let found = set_status-Accounted ack no_reason i in
    let missing = same-Accounted i in ground arith

answer_info-Accounted : (info : Info) (i : InviteRequest) → Accounted i (answer_info info i)
answer_info-Accounted no_info i = one-Accounted (replied 400 none) i refl (λ s. refl)
answer_info-Accounted no_method i = one-Accounted (replied 400 none) i refl (λ s. refl)
answer_info-Accounted (unreadable_after seq) i =
    let plain = one-Accounted (replied 400 none) i refl (λ s. refl) in
    let told = one-Accounted (info_replied 400) i refl (λ s. refl) in ground arith
answer_info-Accounted (play seq) i = one-Accounted (info_replied 406) i refl (λ s. refl)
answer_info-Accounted (pause seq) i = one-Accounted (info_replied 406) i refl (λ s. refl)
answer_info-Accounted (teardown_info seq) i =
    then_do-Accounted i (i, info_replied 200 ∷ []) (to_bye recv_teardown)
      (one-Accounted (info_replied 200) i refl (λ s. refl)) (to_bye-Accounted recv_teardown i)

on_recv_info-Accounted : (info : Info) (i : InviteRequest) → Accounted i (on_recv_info info i)
unfolding on_recv_info get_invite
on_recv_info-Accounted info i =
    let found = answer_info-Accounted info i in
    let missing = one-Accounted (replied 481 none) i refl (λ s. refl) in ground arith

on_ack_timer-Accounted : (i : InviteRequest) → Accounted i (on_ack_timer i)
unfolding on_ack_timer
on_ack_timer-Accounted i =
    let closing = to_bye-Accounted wait_ack_timeout i in let same = same-Accounted i in ground arith

accept-Accounted : (code : ℕ) (text : Text) (i : InviteRequest) → Accounted i (accept code text i)
unfolding add_invite results last_status
accept-Accounted code [] i =
    (replying-Accounted (replied 400 none) failed local_sdp_error i refl (λ s. refl)).1
accept-Accounted code (x ∷ xs) i = (omega arith, refl, λ cb. refl)

handle_reply-Accounted :
    (codes : SipCodes) (f : SdpFormat) (code : ℕ) (sdp : Option SdpDescription) (i : InviteRequest)
    → Accounted i (handle_reply codes f code sdp i)
unfolding handle_reply
handle_reply-Accounted codes f code none i =
    let bad = (replying-Accounted (replied 400 none) failed local_sdp_error i refl (λ s. refl)).1 in
    let refused = (replying-Accounted (replied code none) failed rejected i refl (λ s. refl)).1 in
    ground arith
handle_reply-Accounted codes f code (some sdp) i =
    let taken = accept-Accounted code (f.generate sdp) (record i { local_sdp = some sdp }) in
    let refused = (replying-Accounted (replied code none) failed rejected i refl (λ s. refl)).1 in
    ground arith

step-Accounted :
    (codes : SipCodes) (f : SdpFormat) (e : Event) (i : InviteRequest)
    → Accounted i (step codes f e i)
unfolding step
step-Accounted codes f (sent ok err) i = on_sent-Accounted ok err i
step-Accounted codes f (reply code dialog payload acked) i =
    on_invite_reply-Accounted codes f code dialog payload acked i
step-Accounted codes f bye_request i = on_recv_bye-Accounted i
step-Accounted codes f cancel_request i = on_recv_cancel-Accounted i
step-Accounted codes f message_request i = on_recv_message-Accounted i
step-Accounted codes f ack_timer i = on_ack_timer-Accounted i
step-Accounted codes f platform_gone i = same-Accounted i
step-Accounted codes f (ack_request dialog) i = on_recv_ack-Accounted dialog i
step-Accounted codes f (info_request info) i = on_recv_info-Accounted info i
step-Accounted codes f (answer code sdp) i = handle_reply-Accounted codes f code sdp i
step-Accounted codes f (close e) i = to_bye-Accounted e i
step-Accounted codes f (teardown_call e) i = to_teardown-Accounted e i

run-Accounted :
    (codes : SipCodes) (f : SdpFormat) (es : List Event) (i : InviteRequest)
    → Accounted i (run codes f es i)
unfolding run
run-Accounted codes f [] i = same-Accounted i
run-Accounted codes f (e ∷ es) i =
    then_do-Accounted i (step codes f e i) (run codes f es) (step-Accounted codes f e i)
      (run-Accounted codes f es (step codes f e i).0)

-- Whatever happens to a session, its status is the one that its status callback was last called
-- with, or the one it had before if there was no call.
run-last_status :
    (codes : SipCodes) (f : SdpFormat) (es : List Event) (i : InviteRequest)
    → i.has_status_cb ≡ true
    → last_status i.status (run codes f es i).1 ≡ (run codes f es i).0.status
run-last_status codes f es i cb = (run-Accounted codes f es i).2 cb

offer_starts :
    (text : Text) (sdp : SdpDescription) (i j : InviteRequest) (acts : List Action)
    → i.has_rcb ≡ false
    → offer text sdp i ≡ (j, acts)
    → results acts + due j.has_rcb ≡ 1
unfolding add_invite results
offer_starts [] sdp i j acts h e = ground arith
offer_starts (x ∷ xs) sdp i j acts h e = ground arith

start_counts :
    (f : SdpFormat) (drawn : ℕ) (sdp : Option SdpDescription) (i j : InviteRequest)
    (acts : List Action)
    → i.has_rcb ≡ false
    → started f drawn sdp i ≡ some (j, acts)
    → results acts + due j.has_rcb ≡ 1
start_counts f drawn none i j acts h e = absurd (cc)
start_counts f drawn (some sdp) i j acts h e =
    offer_starts (f.generate (with_ssrc drawn sdp)) (with_ssrc drawn sdp) i j acts h (of_some e)

-- From the call that starts a session on, whatever happens to it: the result callback has been
-- called exactly once if it is no longer held, and not at all if it still is.
pub results-run :
    (codes : SipCodes) (f : SdpFormat) (drawn : ℕ) (es : List Event) (i j : InviteRequest)
    (acts : List Action)
    → i.has_rcb ≡ false
    → to_invite_request f drawn i ≡ some (j, acts)
    → results (acts ++ (run codes f es j).1) + due (run codes f es j).0.has_rcb ≡ 1
unfolding to_invite_request
results-run codes f drawn es i j acts h e =
    let (_, begun) = guard_inv i.has_platform (started f drawn i.local_sdp i) (j, acts) e in
    omega (
      arith,
      results-append acts (run codes f es j).1,
      (run-Accounted codes f es j).0,
      start_counts f drawn i.local_sdp i j acts h begun,
    )
