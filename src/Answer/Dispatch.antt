-- ===== src/Answer/Dispatch.antt =====
-- src/super_platform_impl.cpp: on_query, on_control and on_notify, which choose how a message of the
-- superior platform is answered.
use libgb.Base.{
  ◌≡◌, refl, Bool, true, false, ◌||◌, Option, none, some, List, [], ◌∷◌, if◌then◌else◌, text_eq,
  codes,
}
use libgb.Message.{
  Text, MessageRootType, MessageCmdType, device_control, device_config, device_status, catalog,
  device_info, record_info, config_download, preset_query, home_position_query,
  cruise_track_list_query, cruise_track_query, ptz_position, sd_card_status, broadcast, alarm,
  mobile_position, keepalive, media_status, upload_snap_shot_finished, video_upload_notify,
  device_upgrade_result, DeviceControlType, ptz_cmd, tele_boot, record_cmd, guard_cmd, alarm_cmd,
  i_frame_cmd, drag_zoom_in, drag_zoom_out, home_position, ptz_precise_ctrl, device_upgrade,
  format_sd_card, target_track,
}
use libgb.Request.{RequestType, no_response, one_response, multiple_responses}
use libgb.Request.Select.{request_type}

-- The three handlers: of one response, of several, and of none.
pub data Handler : Type 0 where
  one_handler many_handler no_handler : Handler

-- on_query. No handler: the reply is 404.
unfoldable pub query_handler : MessageCmdType → Option Handler
query_handler device_status = some one_handler
query_handler catalog = some many_handler
query_handler device_info = some one_handler
query_handler record_info = some many_handler
query_handler config_download = some many_handler
query_handler preset_query = some many_handler
query_handler home_position_query = some one_handler
query_handler cruise_track_list_query = some many_handler
query_handler cruise_track_query = some many_handler
query_handler ptz_position = some one_handler
query_handler sd_card_status = some one_handler
query_handler _ = none

-- The elements of the message that say what it is controlling.
abbrev pub is_one : Text → Bool
is_one name =
    text_eq name (codes "RecordCmd")
    || text_eq name (codes "HomePosition")
    || text_eq name (codes "AlarmCmd")
    || text_eq name (codes "GuardCmd")
    || text_eq name (codes "DeviceUpgrade")

abbrev pub is_none : Text → Bool
is_none name =
    text_eq name (codes "PTZCmd")
    || text_eq name (codes "IFrameCmd")
    || text_eq name (codes "IFameCmd")
    || text_eq name (codes "DragZoomIn")
    || text_eq name (codes "DragZoomOut")
    || text_eq name (codes "TargetTrack")
    || text_eq name (codes "PTZPreciseCtrl")
    || text_eq name (codes "TeleBoot")
    || text_eq name (codes "FormatSDCard")

-- The loop over the elements: the first that is known.
unfoldable pub control_handler : List Text → Option Handler
control_handler [] = none
control_handler (name ∷ more) =
    let later = control_handler more in
    if is_one name then some one_handler else if is_none name then some no_handler else later

-- on_control, of the command and the names of the elements.
unfoldable pub on_control : MessageCmdType → List Text → Option Handler
unfolding control_handler
on_control device_control names = control_handler names
on_control device_config names = some one_handler
on_control _ names = none

-- on_notify.
abbrev pub on_notify : MessageCmdType → Option Handler
on_notify broadcast = some one_handler
on_notify _ = none

-- The element that parse_detail of each control request writes (in the classes of
-- src/message/device_control_message.cpp). That of an i-frame is written under two names.
abbrev pub element_names : DeviceControlType → List Text
element_names ptz_cmd = codes "PTZCmd" ∷ []
element_names tele_boot = codes "TeleBoot" ∷ []
element_names record_cmd = codes "RecordCmd" ∷ []
element_names guard_cmd = codes "GuardCmd" ∷ []
element_names alarm_cmd = codes "AlarmCmd" ∷ []
element_names i_frame_cmd = codes "IFrameCmd" ∷ (codes "IFameCmd" ∷ [])
element_names drag_zoom_in = codes "DragZoomIn" ∷ []
element_names drag_zoom_out = codes "DragZoomOut" ∷ []
element_names home_position = codes "HomePosition" ∷ []
element_names ptz_precise_ctrl = codes "PTZPreciseCtrl" ∷ []
element_names device_upgrade = codes "DeviceUpgrade" ∷ []
element_names format_sd_card = codes "FormatSDCard" ∷ []
element_names target_track = codes "TargetTrack" ∷ []

-- A handler sends as many responses as the requesting end waits for; a message without one is refused.
abbrev pub fits : Option Handler → Option RequestType → Bool
fits none type = true
fits (some one_handler) (some one_response) = true
fits (some many_handler) (some multiple_responses) = true
fits (some no_handler) (some no_response) = true
fits _ _ = false

abbrev pub is_handled : Option Handler → Bool
is_handled none = false
is_handled (some _) = true

-- The elements of a control message, behind those of every message.
abbrev pub control_elements : DeviceControlType → List Text
control_elements c = codes "CmdType" ∷ (codes "SN" ∷ (codes "DeviceID" ∷ element_names c))

queries :
    (cmd : MessageCmdType)
    → fits (query_handler cmd) (request_type MessageRootType.query cmd none) ≡ true
unfolding query_handler request_type
queries MessageCmdType.invalid = refl
queries device_control = refl
queries device_config = refl
queries device_status = refl
queries catalog = refl
queries device_info = refl
queries record_info = refl
queries alarm = refl
queries config_download = refl
queries preset_query = refl
queries mobile_position = refl
queries home_position_query = refl
queries cruise_track_list_query = refl
queries cruise_track_query = refl
queries ptz_position = refl
queries sd_card_status = refl
queries keepalive = refl
queries media_status = refl
queries broadcast = refl
queries upload_snap_shot_finished = refl
queries video_upload_notify = refl
queries device_upgrade_result = refl

controls :
    (c : DeviceControlType)
    → fits
        (on_control device_control (control_elements c))
        (request_type MessageRootType.control device_control (some c))
      ≡ true
unfolding on_control request_type
controls ptz_cmd = refl
controls tele_boot = refl
controls record_cmd = refl
controls guard_cmd = refl
controls alarm_cmd = refl
controls i_frame_cmd = refl
controls drag_zoom_in = refl
controls drag_zoom_out = refl
controls home_position = refl
controls ptz_precise_ctrl = refl
controls device_upgrade = refl
controls format_sd_card = refl
controls target_track = refl

handled :
    (c : DeviceControlType) → is_handled (on_control device_control (control_elements c)) ≡ true
unfolding on_control
handled ptz_cmd = refl
handled tele_boot = refl
handled record_cmd = refl
handled guard_cmd = refl
handled alarm_cmd = refl
handled i_frame_cmd = refl
handled drag_zoom_in = refl
handled drag_zoom_out = refl
handled home_position = refl
handled ptz_precise_ctrl = refl
handled device_upgrade = refl
handled format_sd_card = refl
handled target_track = refl

-- The two ends agree: a query that a platform of this library handles is answered in as many messages
-- as newRequestProxy has the requesting end wait for, and every device control is handled, with a
-- response exactly if the requesting end waits for one.
pub handlers-request_type :
    (cmd : MessageCmdType) (c : DeviceControlType)
    → (fits (query_handler cmd) (request_type MessageRootType.query cmd none) ≡ true)
      × (fits
            (on_control device_control (control_elements c))
            (request_type MessageRootType.control device_control (some c))
          ≡ true)
      × (is_handled (on_control device_control (control_elements c)) ≡ true)
handlers-request_type cmd c = (queries cmd, controls c, handled c)
