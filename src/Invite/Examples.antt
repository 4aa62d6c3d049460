-- ===== src/Invite/Examples.antt =====
-- Invite sessions at work, and the theorems at concrete sessions.
use libgb.Base.{◌+◌, ◌≡◌, refl, true, false, none, some, List, [], ◌∷◌, ◌++◌}
use libgb.Sip.{rfc_codes}
use libgb.Sdp.{SdpDescription, SdpFormat, SessionType}
use libgb.Invite.{
  cancel, no_reason, they_bye, status_called, replied, sent_invite, InviteRequest,
  new_invite_request, is_closed, to_bye,
}
use libgb.Invite.Steps.{to_invite_request, on_invite_reply}
use libgb.Invite.Incoming.{on_recv_invite, received}
use libgb.Invite.Run.{
  Event, run, Call, happened, invited, run_calls, reply, bye_request, cancel_request,
}
use libgb.Invite.Life.{are_timely, is_sound, run_calls-is_sound}
use libgb.Invite.Results.{results, due}
use libgb.Invite.Reports.{results-run}
use libgb.Invite.Closing.{all_from_peer, to_bye-to_bye, run-Ended, farewell, all_refusals}
use libgb.Invite.Outcome.{on_invite_reply-Concluded, cancel-on_recv_invite, Concluded}

-- A format in which a text is the rest of a description.
abbrev plain_format : SdpFormat
plain_format = record {
  parse = λ t. some (record { session_type = SessionType.play; ssrc = 0; rest = t });
  generate = λ sdp. sdp.rest;
}

abbrev offered_sdp : SdpDescription
offered_sdp = record { session_type = SessionType.play; ssrc = 0; rest = 118 ∷ [] }

abbrev outgoing : InviteRequest
outgoing = new_invite_request (some offered_sdp) true true

abbrev started_call : InviteRequest
started_call = record outgoing {
  local_sdp = some (record offered_sdp { ssrc = 7 });
  has_transaction = true;
  has_rcb = true;
  registered = true;
}

abbrev incoming : InviteRequest
incoming = received offered_sdp

abbrev conversation : List Event
conversation = reply 100 false none true ∷ reply 200 true (some (97 ∷ [])) true ∷ bye_request ∷ []

-- A session that is started, answered and ended.
abbrev calls : List Call
calls = invited 7 ∷ happened (reply 200 true (some (97 ∷ [])) true) ∷ happened bye_request ∷ []

abbrev ended : InviteRequest
ended =
    (run rfc_codes plain_format (reply 200 true (some (97 ∷ [])) true ∷ bye_request ∷ [])
      started_call).0

run_calls-is_sound_example : is_sound ended ≡ true
unfolding new_invite_request are_timely run_calls run
run_calls-is_sound_example =
    run_calls-is_sound rfc_codes plain_format calls outgoing ended refl refl refl

results-run_example :
    results
        ((sent_invite (118 ∷ []) ∷ []) ++ (run rfc_codes plain_format conversation started_call).1)
      + due (run rfc_codes plain_format conversation started_call).0.has_rcb
    ≡ 1
unfolding to_invite_request new_invite_request
results-run_example =
    results-run rfc_codes plain_format 7 conversation outgoing started_call
      (sent_invite (118 ∷ []) ∷ []) refl refl

to_bye-to_bye_example :
    let (j, acts) = to_bye they_bye started_call in
    (is_closed j.status ≡ true)
    × (j.registered ≡ false)
    × (j.error ≡ they_bye)
    × (acts ≡ farewell started_call ++ status_called j.status they_bye ∷ [])
    × (to_bye no_reason j ≡ (j, []))
unfolding new_invite_request
to_bye-to_bye_example = to_bye-to_bye they_bye no_reason started_call refl

run-Ended_example :
    let i : InviteRequest = record outgoing { status = cancel } in
    ((run rfc_codes plain_format conversation i).0 ≡ i)
    × (all_refusals (run rfc_codes plain_format conversation i).1 ≡ true)
unfolding new_invite_request all_from_peer
run-Ended_example =
    run-Ended rfc_codes plain_format conversation (record outgoing { status = cancel }) refl refl
      refl

on_invite_reply-Concluded_example :
    Concluded
      (plain_format.parse (97 ∷ []))
      true
      (on_invite_reply rfc_codes plain_format 200 true (some (97 ∷ [])) true started_call).0
unfolding new_invite_request
on_invite_reply-Concluded_example =
    on_invite_reply-Concluded rfc_codes plain_format 200 true (some (97 ∷ [])) true started_call
      refl refl

cancel-on_recv_invite_example :
    run rfc_codes plain_format (cancel_request ∷ bye_request ∷ []) incoming
    ≡ (incoming, replied 481 none ∷ replied 481 none ∷ [])
unfolding on_recv_invite
cancel-on_recv_invite_example =
    cancel-on_recv_invite rfc_codes plain_format false true (118 ∷ []) incoming refl refl
