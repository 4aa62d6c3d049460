-- ===== src/Invite/Open.antt =====
-- The map of invite sessions holds open sessions only.
use libgb.Base.{ℕ, ◌≡◌, Bool, true, false, not, Option, none, some, [], ◌∷◌, arith}
use libgb.Message.{Text}
use libgb.Sip.{SipCodes}
use libgb.Sdp.{SdpDescription, SdpFormat}
use libgb.Invite.{
  InviteStatus, Reason, InviteRequest, to_bye, to_teardown, is_closed, set_status, trying, failed,
  get_invite, add_invite, no_reason, given, local_sdp_error, rejected, remote_code,
  wait_ack_timeout, sdp_not_parsed, no_remote_sdp, ack_not_sent, remove_invite,
}
use libgb.Invite.Steps.{
  on_sent, on_invite_reply, on_recv_bye, on_recv_cancel, on_recv_ack, on_recv_message, Info,
  on_recv_info, on_final, on_accepted, take_remote, reply_failed, unreadable_after, play, pause,
  teardown_info, no_info, no_method, answer_info,
}
use libgb.Invite.Incoming.{handle_reply, on_ack_timer, accept}
use libgb.Invite.Run.{
  Event, step, answer, close, teardown_call, sent, reply, bye_request, cancel_request,
  message_request, ack_timer, platform_gone, ack_request, info_request,
}

abbrev pub Open : InviteRequest → Type 0
Open i = i.registered ≡ true → is_closed i.status ≡ false

set_status-Open : (s : InviteStatus) (e : Reason) (i : InviteRequest) → Open (set_status s e i).0
unfolding set_status remove_invite
set_status-Open s e i = ground arith

to_bye-Open : (e : Reason) (i : InviteRequest) → Open i → Open (to_bye e i).0
unfolding to_bye set_status remove_invite
to_bye-Open e i o = ground arith

to_teardown-Open : (e : Reason) (i : InviteRequest) → Open i → Open (to_teardown e i).0
unfolding to_teardown
to_teardown-Open e i o = ground arith

reply_failed-Open : (e : Reason) (i : InviteRequest) → Open (reply_failed e i).0
unfolding reply_failed set_status remove_invite
reply_failed-Open e i = ground arith

take_remote-Open :
    (sdp : Option SdpDescription) (acked : Bool) (i : InviteRequest)
    → Open (take_remote sdp acked i).0
unfolding take_remote
take_remote-Open none acked i = reply_failed-Open sdp_not_parsed (to_bye (given []) i).0
take_remote-Open (some sdp) true i = ground arith
take_remote-Open (some sdp) false i =
    reply_failed-Open ack_not_sent (to_bye (given []) (record i { remote_sdp = some sdp })).0

on_accepted-Open :
    (f : SdpFormat) (payload : Option Text) (acked : Bool) (i : InviteRequest)
    → Open (on_accepted f payload acked i).0
unfolding on_accepted
on_accepted-Open f none acked i = reply_failed-Open no_remote_sdp (to_bye (given []) i).0
on_accepted-Open f (some []) acked i = reply_failed-Open no_remote_sdp (to_bye (given []) i).0
on_accepted-Open f (some (x ∷ xs)) acked i = take_remote-Open (f.parse (x ∷ xs)) acked i

on_final-Open :
    (codes : SipCodes) (f : SdpFormat) (code : ℕ) (dialog : Bool) (payload : Option Text)
    (acked : Bool) (i : InviteRequest)
    → Open (on_final codes f code dialog payload acked i).0
unfolding on_final
on_final-Open codes f code true payload acked i =
    let j : InviteRequest = record i { has_transaction = false; has_dialog = true } in
    let accepted = on_accepted-Open f payload acked j in
    let refused = reply_failed-Open (remote_code code) j in ground arith
on_final-Open codes f code false payload acked i =
    let j : InviteRequest = record i { has_transaction = false } in
    let accepted = on_accepted-Open f payload acked j in
    let refused = reply_failed-Open (remote_code code) j in ground arith

on_sent-Open : (ok : Bool) (err : Text) (i : InviteRequest) → Open i → Open (on_sent ok err i).0
unfolding on_sent set_status remove_invite
on_sent-Open ok err i o = ground arith

on_invite_reply-Open :
    (codes : SipCodes) (f : SdpFormat) (code : ℕ) (dialog : Bool) (payload : Option Text)
    (acked : Bool) (i : InviteRequest)
    → Open i
    → Open (on_invite_reply codes f code dialog payload acked i).0
unfolding on_invite_reply get_invite
on_invite_reply-Open codes f code dialog payload acked i o =
    let provisional = set_status-Open trying no_reason i in
    let final = on_final-Open codes f code dialog payload acked i in ground arith

on_recv_bye-Open : (i : InviteRequest) → Open (on_recv_bye i).0
unfolding on_recv_bye get_invite set_status remove_invite
on_recv_bye-Open i = ground arith

on_recv_cancel-Open : (i : InviteRequest) → Open (on_recv_cancel i).0
unfolding on_recv_cancel get_invite set_status remove_invite
on_recv_cancel-Open i = ground arith

on_recv_message-Open : (i : InviteRequest) → Open i → Open (on_recv_message i).0
unfolding on_recv_message get_invite
on_recv_message-Open i o = ground arith

on_recv_ack-Open : (dialog : Bool) (i : InviteRequest) → Open i → Open (on_recv_ack dialog i).0
unfolding on_recv_ack get_invite set_status remove_invite
on_recv_ack-Open dialog i o = ground arith

answer_info-Open : (info : Info) (i : InviteRequest) → Open i → Open (answer_info info i).0
answer_info-Open no_info i o = o
answer_info-Open no_method i o = o
answer_info-Open (unreadable_after seq) i o = ground arith
answer_info-Open (play seq) i o = o
answer_info-Open (pause seq) i o = o
answer_info-Open (teardown_info seq) i o = to_bye-Open _ i o

on_recv_info-Open : (info : Info) (i : InviteRequest) → Open i → Open (on_recv_info info i).0
unfolding on_recv_info get_invite
on_recv_info-Open info i o = let h = answer_info-Open info i o in ground arith

on_ack_timer-Open : (i : InviteRequest) → Open i → Open (on_ack_timer i).0
unfolding on_ack_timer
on_ack_timer-Open i o = let closing = to_bye-Open wait_ack_timeout i o in ground arith

accept-Open :
    (code : ℕ) (text : Text) (i : InviteRequest)
    → is_closed i.status ≡ false
    → Open (accept code text i).0
unfolding add_invite set_status remove_invite
accept-Open code [] i h = ground arith
accept-Open code (x ∷ xs) i h = λ r. h

handle_reply-Open :
    (codes : SipCodes) (f : SdpFormat) (code : ℕ) (sdp : Option SdpDescription) (i : InviteRequest)
    → is_closed i.status ≡ false
    → Open (handle_reply codes f code sdp i).0
unfolding handle_reply
handle_reply-Open codes f code none i h =
    let bad = set_status-Open failed local_sdp_error i in
    let refused = set_status-Open failed rejected i in ground arith
handle_reply-Open codes f code (some sdp) i h =
    let taken = accept-Open code (f.generate sdp) (record i { local_sdp = some sdp }) h in
    let refused = set_status-Open failed rejected i in ground arith

-- An answer is given to an open session only.
abbrev pub is_timely : Event → InviteRequest → Bool
is_timely (answer code sdp) i = not (is_closed i.status)
is_timely _ i = true

pub step-Open :
    (codes : SipCodes) (f : SdpFormat) (e : Event) (i : InviteRequest)
    → is_timely e i ≡ true
    → Open i
    → Open (step codes f e i).0
unfolding step
step-Open codes f (sent ok err) i t o = on_sent-Open ok err i o
step-Open codes f (reply code dialog payload acked) i t o =
    on_invite_reply-Open codes f code dialog payload acked i o
step-Open codes f bye_request i t o = on_recv_bye-Open i
step-Open codes f cancel_request i t o = on_recv_cancel-Open i
step-Open codes f message_request i t o = on_recv_message-Open i o
step-Open codes f ack_timer i t o = on_ack_timer-Open i o
step-Open codes f platform_gone i t o = o
step-Open codes f (ack_request dialog) i t o = on_recv_ack-Open dialog i o
step-Open codes f (info_request info) i t o = on_recv_info-Open info i o
step-Open codes f (answer code sdp) i t o = handle_reply-Open codes f code sdp i (ground arith)
step-Open codes f (close e) i t o = to_bye-Open e i o
step-Open codes f (teardown_call e) i t o = to_teardown-Open e i o
