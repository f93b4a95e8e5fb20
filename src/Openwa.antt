-- ===== src/Openwa.antt =====
-- src/openwa/openwa.service.ts: the client of the OpenWA server.
pub mod Bounds
use api_wa_automation.Base.{
  ℕ, Bool, true, false, ◌&&◌, Option, none, some, List, [], ◌∷◌, ◌++◌, String, ltb, leb, ◌==◌,
  if◌then◌else◌,
}
use api_wa_automation.Base.Text.{Text, codes, digits, includes, truthy}
use api_wa_automation.Value.{Value, str, Props, end, prop}
use api_wa_automation.World.{Action, Result, ok, err, http, Call}
use api_wa_automation.Workspaces.{OpenwaCredentials}

-- How axios settles a request: with the body of a response, or with an error that carries the
-- status of a response, if there was one.
pub data Reply : Type 0 where
  answered : Props → Reply
  refused : Option ℕ → Reply

-- The OpenWA server: its reply to a request may depend on those before it.
pub record Server : Type 0 where
  pub reply : List Call → Call → Reply

-- `replace(/\/$/, '')`
unfoldable pub strip_slash : Text → Text
strip_slash [] = []
strip_slash (c ∷ []) = if c == b'/' then [] else c ∷ []
strip_slash (c ∷ d ∷ s) = c ∷ strip_slash (d ∷ s)

-- `axiosErr.response?.status || 502`
abbrev status_or_502 : Option ℕ → ℕ
status_or_502 none = 502
status_or_502 (some status) = if status == 0 then 502 else status

unfoldable pub error_status : Option ℕ → ℕ
error_status response =
    let status = status_or_502 response in if leb 400 status && ltb status 600 then status else 502

unfoldable pub to_chat_id : Text → Text
to_chat_id phone = if includes phone (codes "@") then phone else digits phone ++ codes "@c.us"

-- The message of the exception.
abbrev pub failure : String → Text
failure method = codes "OpenWA '" ++ codes method ++ codes "' failed"

abbrev pub outcome : String → Reply → Result Props
outcome method (answered body) = ok body
outcome method (refused response) = err (http (error_status response) (failure method))

abbrev pub request : OpenwaCredentials → String → Props → Text → Call
request creds method args session_id = record {
  base_url = strip_slash creds.base_url;
  api_key = creds.api_key;
  method = method;
  session = truthy (some session_id);
  args = args;
}

abbrev pub text_args : Text → Text → Props
text_args phone message =
    prop (codes "to") (str (to_chat_id phone)) (prop (codes "content") (str message) end)

abbrev pub media_args : Text → Value → Text → Text → Props
media_args phone url filename caption = prop (codes "to") (str (to_chat_id phone)) (
    prop (codes "url") url
      (prop (codes "filename") (str filename) (prop (codes "caption") (str caption) end)))

module _ ⦃server : Server⦄ where
  unfoldable pub call : OpenwaCredentials → String → Props → Text → Action Props
  call creds method args session_id w =
      let sent = request creds method args session_id in
      (outcome method (server.reply w.calls sent), record w { calls = w.calls ++ sent ∷ [] })

  unfoldable pub start_session : OpenwaCredentials → Text → Action Props
  unfolding call
  start_session creds session_id = call creds "start" end session_id

  unfoldable pub terminate_session : OpenwaCredentials → Text → Action Props
  unfolding call
  terminate_session creds session_id = call creds "kill" end session_id

  unfoldable pub get_connection_state : OpenwaCredentials → Text → Action Props
  unfolding call
  get_connection_state creds session_id = call creds "getConnectionState" end session_id

  unfoldable pub get_qr_code : OpenwaCredentials → Text → Action Props
  unfolding call
  get_qr_code creds session_id = call creds "getQrPng" end session_id

  unfoldable pub send_text : OpenwaCredentials → Text → Text → Text → Action Props
  unfolding call
  send_text creds session_id phone message =
      call creds "sendText" (text_args phone message) session_id

  unfoldable pub send_image : OpenwaCredentials → Text → Text → Value → Text → Text → Action Props
  unfolding call
  send_image creds session_id phone image_url caption filename =
      call creds "sendImage" (media_args phone image_url filename caption) session_id

  unfoldable pub send_file : OpenwaCredentials → Text → Text → Value → Text → Text → Action Props
  unfolding call
  send_file creds session_id phone file_url filename caption =
      call creds "sendFile" (media_args phone file_url filename caption) session_id
