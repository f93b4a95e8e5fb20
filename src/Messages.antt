-- ===== src/Messages.antt =====
-- src/modules/messages: the service that queues and logs messages, and the processor of its queue.
pub mod Delivery
pub mod Controller
use api_wa_automation.Base.{
  ℕ, ◌+◌, ◌*◌, Bool, true, false, ◌&&◌, ◌||◌, leb, Option, none, some, List, [], ◌∷◌, ◌++◌, ◌==◌,
  length, if◌then◌else◌,
}
use api_wa_automation.Base.Text.{Text, codes, char_length, or_else, truthy}
use api_wa_automation.Value.{
  Value, undefined, null, str, Props, own, is_nullish, is_truthy, value_or_null,
}
use api_wa_automation.Orm.{Orm}
use api_wa_automation.Encryption.{Crypto}
use api_wa_automation.Data.Tenancy.{Key, Session}
use api_wa_automation.Data.Messaging.{
  MessageLog, MessageType, outbound, MessageStatus, SendType, SendMessageJob, Queued,
}
use api_wa_automation.World.{
  World, Action, Result, ok, err, Exception, message_of, not_found, plain, pure, throw, gets,
  modify, or_throw, ◌>>=◌, ◌>>◌,
}
use api_wa_automation.Workspaces.{OpenwaCredentials, given, assert_member, get_openwa_credentials}
use api_wa_automation.Sessions
use api_wa_automation.Openwa.{Server, send_text, send_image, send_file}
use api_wa_automation.Gateway.{emit_message_sent}

pub record SendMessageDto : Type 0 where
  pub session_id : Key
  pub to : Text
  pub type : Option SendType
  pub content : Option Text
  pub media_url : Option Text
  pub caption : Option Text
  pub filename : Option Text

pub record SendBulkDto : Type 0 where
  pub session_id : Key
  pub recipients : List Text
  pub content : Text
  pub delay_ms : Option ℕ

-- `v || ''`
abbrev pub or_empty : Option Text → Text
or_empty none = []
or_empty (some s) = s

-- `v || d`
abbrev pub or_text : Option Text → Text → Text
or_text none d = d
or_text (some s) d = or_else s d

-- `a || b || c || null`
abbrev pub first_text : Option Text → Option Text → Option Text → Option Text
first_text (some (c ∷ s)) _ _ = some (c ∷ s)
first_text _ (some (c ∷ s)) _ = some (c ∷ s)
first_text _ _ z = truthy z

abbrev message_type : SendType → MessageType
message_type SendType.text = MessageType.text
message_type SendType.image = MessageType.image
message_type SendType.file = MessageType.file

abbrev pub media_value : Option Text → Value
media_value none = undefined
media_value (some url) = str url

-- `res?.response || res.messageId || null`
abbrev pub wa_message_id_of : Props → Value
wa_message_id_of res =
    let response = own (codes "response") res in
    if is_truthy response then response else value_or_null (own (codes "messageId") res)

-- `queue.add('send', job, { delay })`
pub add_message_job : SendMessageJob → ℕ → World → World
add_message_job job delay w = record w {
  message_jobs = w.message_jobs ++ record { job = job; delay = delay; attempts = none } ∷ [];
}

-- `varchar(20)`, which the database checks.
abbrev pub phone_fits : Option Text → Bool
phone_fits none = true
phone_fits (some phone) = leb (char_length phone) 20

module _ ⦃orm : Orm⦄ where
  -- `varchar(100)`
  abbrev id_fits : Option Value → Bool
  id_fits none = true
  id_fits (some id) = is_nullish id || leb (char_length (orm.column_text id)) 100

  abbrev pub log_fits : MessageLog → Bool
  log_fits log = phone_fits log.from_phone && phone_fits log.to_phone && id_fits log.wa_message_id

  -- `repo.save`: it throws if a text is too long for its column. The database gives every new row a
  -- key of its own.
  unfoldable pub record_log : MessageLog → Action (Unit {0})
  record_log log w = (
    if log_fits log then ok tt else err (plain (codes "value too long for type character varying")),
    record w { logs = if log_fits log then orm.save (λ _ _. false) log w.logs else w.logs },
  )

  unfoldable pub send : Key → Key → SendMessageDto → Action (Unit {0})
  send workspace_id user_id dto = do
    assert_member workspace_id user_id
    s ← Sessions.find_one dto.session_id workspace_id user_id
    modify (
        add_message_job
          (record {
            workspace_id = workspace_id;
            session_id = s.id;
            openwa_session_id = s.session_id;
            to = dto.to;
            type = given dto.type SendType.text;
            content = dto.content;
            media_url = dto.media_url;
            caption = dto.caption;
            filename = dto.filename;
            automation_id = none;
            broadcast_id = none;
          })
          0)

  abbrev pub bulk_job : Key → Session → Text → Text → SendMessageJob
  bulk_job workspace_id s content to = record {
    workspace_id = workspace_id;
    session_id = s.id;
    openwa_session_id = s.session_id;
    to = to;
    type = SendType.text;
    content = some content;
    media_url = none;
    caption = none;
    filename = none;
    automation_id = none;
    broadcast_id = none;
  }

  -- The loop of `sendBulk`, from the `i`-th recipient on.
  pub add_bulk : (Text → SendMessageJob) → ℕ → ℕ → List Text → World → World
  add_bulk job delay i [] w = w
  add_bulk job delay i (to ∷ recipients) w =
      add_bulk job delay (i + 1) recipients (add_message_job (job to) (i * delay) w)

  unfoldable pub send_bulk : Key → Key → SendBulkDto → Action ℕ
  send_bulk workspace_id user_id dto = do
    assert_member workspace_id user_id
    s ← Sessions.find_one dto.session_id workspace_id user_id
    modify
        (add_bulk (bulk_job workspace_id s dto.content) (given dto.delay_ms 3000) 0 dto.recipients)
    pure (length dto.recipients)

  -- The log that `process` writes for a job, sent or failed.
  abbrev pub log_of : SendMessageJob → MessageStatus → Option Value → Option Text → MessageLog
  log_of job status wa_message_id error_message = record {
    workspace_id = job.workspace_id;
    session_id = some job.session_id;
    automation_id = job.automation_id;
    broadcast_id = job.broadcast_id;
    direction = outbound;
    from_phone = none;
    to_phone = some job.to;
    message_type = message_type job.type;
    content = first_text job.content job.caption job.media_url;
    status = status;
    wa_message_id = wa_message_id;
    error_message = error_message;
  }

module _ ⦃orm : Orm⦄ ⦃c : Crypto⦄ ⦃server : Server⦄ (enc_key : Text) where
  -- The `if … else if … else` of `process`.
  pub send_by_type : SendType → OpenwaCredentials → SendMessageJob → Action Props
  send_by_type SendType.image creds job =
      send_image creds job.openwa_session_id job.to (media_value job.media_url)
        (or_empty job.caption) (or_text job.filename (codes "image.jpg"))
  send_by_type SendType.file creds job =
      send_file creds job.openwa_session_id job.to (media_value job.media_url)
        (or_text job.filename (codes "file")) (or_empty job.caption)
  send_by_type SendType.text creds job =
      send_text creds job.openwa_session_id job.to (or_empty job.content)

  -- The `catch` block, in which `record` may throw again.
  pub fail_job : SendMessageJob → Exception → Action Value
  fail_job job e = do
    record_log (log_of job MessageStatus.failed none (some (message_of e)))
    throw e

  -- The end of the `try` block behind `record`.
  pub finish_job : SendMessageJob → Value → Result (Unit {0}) → Action Value
  finish_job job id (ok _) = do
    modify (emit_message_sent job.workspace_id job.session_id job.to id)
    pure id
  finish_job job id (err e) = fail_job job e

  -- What follows the call: the end of the `try` block, or the `catch` block.
  pub settle_job : SendMessageJob → Result Props → Action Value
  settle_job job (ok res) w =
      let id = wa_message_id_of res in
      let (recorded, w') = record_log (log_of job MessageStatus.sent (some id) none) w in
      finish_job job id recorded w'
  settle_job job (err e) w = fail_job job e w

  pub process : SendMessageJob → Action Value
  process job = do
    creds ← get_openwa_credentials enc_key job.workspace_id
    λ w. let (res, w') = send_by_type job.type creds job w in settle_job job res w'
