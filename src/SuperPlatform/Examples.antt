-- ===== src/SuperPlatform/Examples.antt =====
-- A registration at a superior platform, and the theorems at it.
use libgb.Base.{ℕ, ◌≤◌, ◌≡◌, refl, true, List, [], ◌∷◌}
use libgb.Message.{Text}
use libgb.Sip.{rfc_codes}
use libgb.SuperPlatform.{
  is_address, SuperPlatform, new_super_platform, sent_register, keepalive_queued,
}
use libgb.SuperPlatform.Steps.{Reply, no_contact, Event, started, reply, due, refresh_due, run}
use libgb.SuperPlatform.Live.{attempts, attempts-run}
use libgb.SuperPlatform.Stopped.{no_start, all_logouts, run-all_logouts}

abbrev fresh : SuperPlatform
fresh = new_super_platform 3600 30 3

abbrev says : ℕ → Text → Reply
says code authorization = record {
  is_there = true;
  code = code;
  expires = 0;
  contact = no_contact;
  authorization = authorization;
}

-- The logout at the start is challenged and then accepted, and so is the registration after it.
abbrev life : List (ℕ × Event)
life =
    (0, started is_address)
    ∷ (1, reply is_address 0 (says 401 (7 ∷ [])))
    ∷ (2, due 0)
    ∷ (3, reply is_address 0 (says 200 []))
    ∷ (4, due 0)
    ∷ (5, reply is_address 0 (says 200 []))
    ∷ (6, refresh_due)
    ∷ []

life_sends :
    (run rfc_codes life fresh).1
    ≡ sent_register 0 []
      ∷ sent_register 0 (7 ∷ [])
      ∷ sent_register 3600 []
      ∷ keepalive_queued
      ∷ sent_register 3600 []
      ∷ []
unfolding run new_super_platform
life_sends = refl

attempts-run_example : 1 ≤ attempts (run rfc_codes life fresh).0
unfolding run new_super_platform
attempts-run_example = attempts-run rfc_codes life fresh refl refl

abbrev afterlife : List (ℕ × Event)
afterlife = (1, due 0) ∷ (2, refresh_due) ∷ (3, reply is_address 0 (says 408 [])) ∷ (4, due 0) ∷ []

abbrev shut : SuperPlatform
shut = record fresh {
  in_flight = 0 ∷ [];
  waiting = record { delay = 3000; expires = 3600; authorization = [] } ∷ [];
}

run-all_logouts_example : all_logouts (run rfc_codes afterlife shut).1 ≡ true
unfolding new_super_platform no_start
run-all_logouts_example = run-all_logouts rfc_codes afterlife shut refl refl
