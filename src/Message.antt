-- ===== src/Message.antt =====
-- include/gb28181/type_define.h and include/gb28181/message/device_control_message.h: the roots and
-- the commands of messages, with the numbers that stand for them.
use libgb.Base.{ℕ, List}

-- A text, as the codes of its characters.
abbrev pub Text : Type 0
Text = List ℕ

pub data MessageRootType : Type 0 where
  invalid query control notify response : MessageRootType

pub data MessageCmdType : Type 0 where
  invalid device_control device_config device_status catalog device_info record_info alarm
        config_download preset_query mobile_position home_position_query cruise_track_list_query
        cruise_track_query ptz_position sd_card_status keepalive media_status broadcast
        upload_snap_shot_finished video_upload_notify device_upgrade_result :
      MessageCmdType

abbrev pub cmd_code : MessageCmdType → ℕ
cmd_code MessageCmdType.invalid = 0
cmd_code device_control = 1
cmd_code device_config = 2
cmd_code device_status = 3
cmd_code catalog = 4
cmd_code device_info = 5
cmd_code record_info = 6
cmd_code alarm = 7
cmd_code config_download = 8
cmd_code preset_query = 9
cmd_code mobile_position = 10
cmd_code home_position_query = 11
cmd_code cruise_track_list_query = 12
cmd_code cruise_track_query = 13
cmd_code ptz_position = 14
cmd_code sd_card_status = 15
cmd_code keepalive = 16
cmd_code media_status = 17
cmd_code broadcast = 18
cmd_code upload_snap_shot_finished = 19
cmd_code video_upload_notify = 20
cmd_code device_upgrade_result = 21

pub data DeviceControlType : Type 0 where
  ptz_cmd tele_boot record_cmd guard_cmd alarm_cmd i_frame_cmd drag_zoom_in drag_zoom_out
        home_position ptz_precise_ctrl device_upgrade format_sd_card target_track :
      DeviceControlType

abbrev pub control_code : DeviceControlType → ℕ
control_code ptz_cmd = 1
control_code tele_boot = 2
control_code record_cmd = 3
control_code guard_cmd = 4
control_code alarm_cmd = 5
control_code i_frame_cmd = 6
control_code drag_zoom_in = 7
control_code drag_zoom_out = 8
control_code home_position = 9
control_code ptz_precise_ctrl = 10
control_code device_upgrade = 11
control_code format_sd_card = 12
control_code target_track = 13
