-- ===== src/Answer/Examples.antt =====
-- Queries of a superior platform, and the theorems at them. A response is a number, and the timer's is 0.
use libgb.Base.{ℕ, ◌≡◌, refl, true, false, some, none, List, [], ◌∷◌, ◌++◌, length}
use libgb.Message.{catalog, device_control, i_frame_cmd, MessageRootType}
use libgb.Sip.{rfc_codes}
use libgb.Sdp.Types.{pos}
use libgb.Request.Select.{request_type}
use libgb.Answer.{listens}
use libgb.Answer.One
use libgb.Answer.One.{process}
use libgb.Answer.Many
use libgb.Answer.Many.{respond}
use libgb.Answer.Dispatch.{
  query_handler, on_control, control_elements, fits, is_handled, handlers-request_type,
}
use libgb.Answer.Once.{run-process}
use libgb.Answer.Sent.{new_sending, waiting, run-respond}

-- The listener does not answer; it does later, twice, and the timer runs in between.
abbrev later_events : List (One.Event ℕ)
later_events = One.answered true 7 ∷ (One.timed_out true ∷ (One.answered true 8 ∷ []))

run-process_example : length (One.run 0 later_events (process 0 true (listens [] ∷ [])).1).sent ≡ 1
unfolding process One.run
run-process_example = run-process 0 true (listens [] ∷ []) later_events refl refl refl

answered_sent : (One.run 0 later_events (process 0 true (listens [] ∷ [])).1).sent ≡ 7 ∷ []
unfolding process One.run
answered_sent = refl

-- Three responses in two chains: both start, and one response is replied to.
abbrev chain_events : List (Many.Event ℕ)
chain_events = Many.started true ∷ (Many.started true ∷ (Many.completed true true 200 ∷ []))

run-respond_example :
    (Many.run rfc_codes 0 chain_events
        (respond (1 ∷ (2 ∷ (3 ∷ []))) (pos 2) false new_sending)).sent
      ++ waiting rfc_codes 0 (
          Many.run rfc_codes 0 chain_events
            (respond (1 ∷ (2 ∷ (3 ∷ []))) (pos 2) false new_sending))
    ≡ 1 ∷ (2 ∷ (3 ∷ []))
run-respond_example = run-respond rfc_codes 0 (1 ∷ (2 ∷ (3 ∷ []))) 2 false chain_events refl

handlers-request_type_example :
    (fits (query_handler catalog) (request_type MessageRootType.query catalog none) ≡ true)
    × (fits
          (on_control device_control (control_elements i_frame_cmd))
          (request_type MessageRootType.control device_control (some i_frame_cmd))
        ≡ true)
    × (is_handled (on_control device_control (control_elements i_frame_cmd)) ≡ true)
handlers-request_type_example = handlers-request_type catalog i_frame_cmd
