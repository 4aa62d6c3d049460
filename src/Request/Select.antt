-- ===== src/Request/Select.antt =====
-- src/request/RequestProxyImpl.cpp: newRequestProxy_ chooses the type and the class of a request by
-- bit masks over the numbers of the commands.
use libgb.Base.{
  ℕ, ◌^◌, ◌≡◌, ◌≢◌, refl, ap, ◌∙◌, Bool, true, false, not, Option, none, some, bit_and, bit_or,
  if◌then◌else◌, ◌==◌, arith,
}
use libgb.Message.{
  MessageRootType, query, control, notify, response, MessageCmdType, device_control, catalog,
  config_download, record_info, preset_query, cruise_track_query, cruise_track_list_query, alarm,
  cmd_code, DeviceControlType, ptz_cmd, tele_boot, i_frame_cmd, drag_zoom_in, drag_zoom_out,
  ptz_precise_ctrl, format_sd_card, target_track, control_code,
}
use libgb.Request.{
  Kind, plain, list, config, RequestType, no_response, one_response, multiple_responses, Proxy,
  new_proxy,
}
use libgb.Request.Progress.{Fits}

-- 1ULL << n
abbrev pub bit_of : ℕ → ℕ
bit_of n = 2 ^ n

abbrev pub mask_has : ℕ → ℕ → Bool
mask_has mask n = not (bit_and mask (bit_of n) == 0)

abbrev pub multi_response_cmds : ℕ
multi_response_cmds = bit_or (bit_of (cmd_code catalog)) (
    bit_or (bit_of (cmd_code config_download)) (
      bit_or (bit_of (cmd_code record_info)) (
        bit_or (bit_of (cmd_code preset_query)) (
          bit_or (bit_of (cmd_code cruise_track_query))
            (bit_of (cmd_code cruise_track_list_query))))))

abbrev pub no_response_cmds : ℕ
no_response_cmds = bit_or (bit_of (control_code ptz_cmd)) (
    bit_or (bit_of (control_code tele_boot)) (
      bit_or (bit_of (control_code i_frame_cmd)) (
        bit_or (bit_of (control_code drag_zoom_in)) (
          bit_or (bit_of (control_code drag_zoom_out)) (
            bit_or (bit_of (control_code ptz_precise_ctrl)) (
              bit_or (bit_of (control_code format_sd_card))
                (bit_of (control_code target_track))))))))

abbrev is_device_control : MessageCmdType → Bool
is_device_control device_control = true
is_device_control _ = false

abbrev is_alarm : MessageCmdType → Bool
is_alarm alarm = true
is_alarm _ = false

abbrev control_request_type : Option DeviceControlType → RequestType
control_request_type none = one_response
control_request_type (some c) =
    if mask_has no_response_cmds (control_code c) then no_response else one_response

-- The type of a request by its root and command; a control request that casts to a device control
-- request has the type of its control. There is none for the other roots.
unfoldable pub request_type :
    MessageRootType → MessageCmdType → Option DeviceControlType → Option RequestType
request_type query cmd ctrl =
    some (if mask_has multi_response_cmds (cmd_code cmd) then multiple_responses else one_response)
request_type control cmd ctrl =
    some (if is_device_control cmd then control_request_type ctrl else one_response)
request_type notify cmd ctrl = some (if is_alarm cmd then one_response else no_response)
request_type response cmd ctrl = some no_response
request_type MessageRootType.invalid cmd ctrl = none

abbrev is_config_download : MessageCmdType → Bool
is_config_download config_download = true
is_config_download _ = false

abbrev request_kind : RequestType → MessageCmdType → Kind
request_kind multiple_responses cmd = if is_config_download cmd then config else list
request_kind _ cmd = plain

abbrev make_proxy : MessageCmdType → ℕ → ℕ → Bool → Bool → Option RequestType → Option Proxy
make_proxy cmd sn config_type reply_cb response_cb none = none
make_proxy cmd sn config_type reply_cb response_cb (some t) =
    some (new_proxy (request_kind t cmd) t sn config_type reply_cb response_cb)

pub new_request_proxy :
    MessageRootType → MessageCmdType → Option DeviceControlType → ℕ → ℕ → Bool → Bool → Option Proxy
unfolding request_type
new_request_proxy root cmd ctrl sn config_type reply_cb response_cb =
    make_proxy cmd sn config_type reply_cb response_cb (request_type root cmd ctrl)

-- The commands that the standard answers with several messages.
abbrev pub answers_many : MessageCmdType → Bool
answers_many catalog = true
answers_many config_download = true
answers_many record_info = true
answers_many preset_query = true
answers_many cruise_track_query = true
answers_many cruise_track_list_query = true
answers_many _ = false

-- The controls that the standard does not answer.
abbrev pub unanswered : DeviceControlType → Bool
unanswered ptz_cmd = true
unanswered tele_boot = true
unanswered i_frame_cmd = true
unanswered drag_zoom_in = true
unanswered drag_zoom_out = true
unanswered ptz_precise_ctrl = true
unanswered format_sd_card = true
unanswered target_track = true
unanswered _ = false

multi_mask : (cmd : MessageCmdType) → mask_has multi_response_cmds (cmd_code cmd) ≡ answers_many cmd
multi_mask catalog = refl
multi_mask _ = refl

no_response_mask :
    (c : DeviceControlType) → mask_has no_response_cmds (control_code c) ≡ unanswered c
no_response_mask ptz_cmd = refl
no_response_mask _ = refl

-- The bit masks select the commands that are listed by name: a query is given several responses
-- exactly for six commands, and a device control none exactly for eight controls.
request_type_masks :
    (cmd : MessageCmdType) (c : DeviceControlType)
    → (request_type query cmd (some c)
        ≡ some (if answers_many cmd then multiple_responses else one_response))
      × (request_type control device_control (some c)
          ≡ some (if unanswered c then no_response else one_response))
unfolding request_type
request_type_masks cmd c = (rw (multi_mask cmd), rw (no_response_mask c))

kind_fits :
    (t : RequestType) (cmd : MessageCmdType) → t ≢ RequestType.invalid → Fits (request_kind t cmd) t
kind_fits RequestType.invalid cmd h = absurd (h refl)
kind_fits no_response cmd h = ground arith
kind_fits one_response cmd h = ground arith
kind_fits multiple_responses cmd h = ground arith

request_type_valid :
    (root : MessageRootType) (cmd : MessageCmdType) (ctrl : Option DeviceControlType)
    → request_type root cmd ctrl ≢ some RequestType.invalid
unfolding request_type
request_type_valid query cmd ctrl h = ground arith
request_type_valid control cmd none h = ground arith
request_type_valid control cmd (some c) h = ground arith
request_type_valid notify cmd ctrl h = ground arith
request_type_valid response cmd ctrl h = cc
request_type_valid MessageRootType.invalid cmd ctrl h = cc

request_type_some :
    (root : MessageRootType) (cmd : MessageCmdType) (ctrl : Option DeviceControlType)
    → root ≢ MessageRootType.invalid
    → request_type root cmd ctrl ≢ none
unfolding request_type
request_type_some MessageRootType.invalid cmd ctrl valid h = valid refl
request_type_some _ cmd ctrl valid h = cc

-- Every request that is made has a class that fits its type: one or no response for the plain
-- class, several for the list and the configuration. Only an invalid root makes none.
new_request_proxy-Fits :
    (root : MessageRootType) (cmd : MessageCmdType) (ctrl : Option DeviceControlType)
    (sn config_type : ℕ) (reply_cb response_cb : Bool)
    → root ≢ MessageRootType.invalid
    → (p : Proxy) × (new_request_proxy root cmd ctrl sn config_type reply_cb response_cb ≡ some p)
      × Fits p.kind p.request_type
unfolding new_request_proxy new_proxy
new_request_proxy-Fits root cmd ctrl sn config_type reply_cb response_cb valid =
    made (request_type root cmd ctrl) refl
  where
    made :
        (o : Option RequestType)
        → request_type root cmd ctrl ≡ o
        → (p : Proxy) × (new_request_proxy root cmd ctrl sn config_type reply_cb response_cb
            ≡ some p)
          × Fits p.kind p.request_type
    made none e = absurd (request_type_some root cmd ctrl valid e)
    made (some t) e = (
      new_proxy (request_kind t cmd) t sn config_type reply_cb response_cb,
      rw (new_request_proxy, e),
      kind_fits t cmd (λ bad. request_type_valid root cmd ctrl (e ∙ ap some bad)),
    )
