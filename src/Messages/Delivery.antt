-- ===== src/Messages/Delivery.antt =====
-- src/modules/messages/message.processor.ts and `sendBulk` of messages.service.ts: what a job of the
-- message queue does, and what a bulk request queues.
use api_wa_automation.Base.{
  ℕ, zero, suc, ◌+◌, ◌*◌, ◌≡◌, refl, sym, ap, subst, ◌∙◌, Bool, false, if◌then◌else◌, Option, none,
  some, List, [], ◌∷◌, ◌++◌, ◌⊎◌, inl, inr, Bool-cases, append-nil, append_assoc, length, get_elem?,
  arith,
}
use api_wa_automation.Base.Text.{Text, codes, truthy}
use api_wa_automation.Value.{Value, str, Props, own}
use api_wa_automation.Orm.{Orm}
use api_wa_automation.Encryption.{Crypto}
use api_wa_automation.Data.Messaging.{MessageLog, MessageStatus, SendMessageJob, SendType, Queued}
use api_wa_automation.World.{World, Exception, plain, Result, ok, err, Call, message_of}
use api_wa_automation.Workspaces.{OpenwaCredentials, get_openwa_credentials}
use api_wa_automation.Openwa.{Server, send_text, send_image, send_file, to_chat_id}
use api_wa_automation.Gateway.{emit_message_sent}
use api_wa_automation.Messages.{
  record_log, log_of, phone_fits, log_fits, wa_message_id_of, send_by_type, fail_job, finish_job,
  settle_job, process, add_bulk, add_message_job,
}

-- The request is made with the credentials, of the session and to the recipient of the job.
abbrev pub IsCallOf : SendMessageJob → OpenwaCredentials → Call → Type 0
IsCallOf job creds sent =
    (sent.api_key ≡ creds.api_key)
    × (sent.session ≡ truthy (some job.openwa_session_id))
    × (own (codes "to") sent.args ≡ str (to_chat_id job.to))

-- What a log says of the result of its job.
abbrev pub IsLogOf : MessageLog → Result Value → Type 0
IsLogOf log (ok id) =
    (log.status ≡ MessageStatus.sent) × (log.wa_message_id ≡ some id) × (log.error_message ≡ none)
IsLogOf log (err e) =
    (log.status ≡ MessageStatus.failed) × (log.error_message ≡ some (message_of e))

-- The job of the queue for the `i`-th recipient.
abbrev pub bulk_entry :
    (Text → SendMessageJob) → ℕ → ℕ → Option Text → Option (Queued SendMessageJob)
bulk_entry job delay i none = none
bulk_entry job delay i (some to) =
    some (record { job = job to; delay = i * delay; attempts = none })

entry-each :
    (job : Text → SendMessageJob) (delay i : ℕ) (to : Text) (recipients : List Text)
    (queue : List (Queued SendMessageJob))
    → ((k : ℕ) → get_elem? queue k ≡ bulk_entry job delay (i + 1 + k) (get_elem? recipients k))
    → (k : ℕ)
    → get_elem? (record { job = job to; delay = i * delay; attempts = none } ∷ queue) k
      ≡ bulk_entry job delay (i + k) (get_elem? (to ∷ recipients) k)
entry-each job delay i to recipients queue each zero =
    let e : i + 0 ≡ i = omega arith in ap (λ (n : ℕ). bulk_entry job delay n (some to)) (sym e)
entry-each job delay i to recipients queue each (suc k) =
    let e : i + 1 + k ≡ i + suc k = omega arith in
    each k ∙ ap (λ (n : ℕ). bulk_entry job delay n (get_elem? recipients k)) e

module _ ⦃orm : Orm⦄ where
  add_bulk_from :
      (job : Text → SendMessageJob) (delay i : ℕ) (recipients : List Text) (w : World)
      → (queue : List (Queued SendMessageJob)) × ((add_bulk job delay i recipients w).message_jobs
          ≡ w.message_jobs ++ queue)
        × (length queue ≡ length recipients)
        × ((k : ℕ) → get_elem? queue k ≡ bulk_entry job delay (i + k) (get_elem? recipients k))
  unfolding add_bulk add_message_job
  add_bulk_from job delay i [] w = ([], sym (append-nil w.message_jobs), refl, λ k. refl)
  add_bulk_from job delay i (to ∷ recipients) w =
      let entry : Queued SendMessageJob = record {
        job = job to;
        delay = i * delay;
        attempts = none;
      } in
      let (queue, jobs, len, each) =
        add_bulk_from job delay (i + 1) recipients (add_message_job (job to) (i * delay) w) in
      (
        entry ∷ queue,
        jobs ∙ append_assoc w.message_jobs (entry ∷ []) queue,
        ap suc len,
        entry-each job delay i to recipients queue each,
      )

  -- What a bulk request queues, behind what was queued: one job for each recipient, in the order of
  -- the request, the `k`-th after `k` times the delay.
  pub add_bulk_lem :
      (job : Text → SendMessageJob) (delay : ℕ) (recipients : List Text) (w : World)
      → (queue : List (Queued SendMessageJob)) × ((add_bulk job delay 0 recipients w).message_jobs
          ≡ w.message_jobs ++ queue)
        × (length queue ≡ length recipients)
        × ((k : ℕ) → get_elem? queue k ≡ bulk_entry job delay k (get_elem? recipients k))
  add_bulk_lem job delay recipients w =
      let (queue, jobs, len, each) = add_bulk_from job delay 0 recipients w in
      (
        queue,
        jobs,
        len,
        λ k.
            let e : 0 + k ≡ k = omega arith in
            each k ∙ ap (λ (n : ℕ). bulk_entry job delay n (get_elem? recipients k)) e,
      )

module _ ⦃orm : Orm⦄ ⦃c : Crypto⦄ ⦃server : Server⦄ (enc_key : Text) where
  -- Whatever its type, a job makes one request, of its session, and leaves the logs alone.
  send_by_type_lem :
      (type : SendType) (creds : OpenwaCredentials) (job : SendMessageJob) (w : World)
      → (sent : Call) × IsCallOf job creds sent
        × ((send_by_type enc_key type creds job w).1.calls ≡ w.calls ++ sent ∷ [])
        × ((send_by_type enc_key type creds job w).1.logs ≡ w.logs)
  unfolding send_by_type send_text send_image send_file
  send_by_type_lem SendType.text creds job w = (_, (refl, refl, refl), refl, refl)
  send_by_type_lem SendType.image creds job w = (_, (refl, refl, refl), refl, refl)
  send_by_type_lem SendType.file creds job w = (_, (refl, refl, refl), refl, refl)

  -- How a job ends: with one log of its result, or, if the recipient is too long for a log, in an
  -- exception without a log.
  abbrev pub IsSettled : SendMessageJob → World → Result Value → World → Type 0
  IsSettled job v r w' =
      ((log : MessageLog) × (w'.logs ≡ orm.save (λ _ _. false) log v.logs) × IsLogOf log r)
      ⊎ ((phone_fits (some job.to) ≡ false) × (w'.logs ≡ v.logs) × ((e : Exception) × (r ≡ err e)))

  fail_job_lem :
      (job : SendMessageJob) (e : Exception) (v : World)
      → let (r, w') = fail_job enc_key job e v in (w'.calls ≡ v.calls) × IsSettled job v r w'
  unfolding fail_job record_log
  fail_job_lem job e v =
      let log = log_of job MessageStatus.failed none (some (message_of e)) in
      elim (Bool-cases (phone_fits (some job.to))) [
        | inl fits ↦
            let run : fail_job enc_key job e v
                ≡ (err e, record v { logs = orm.save (λ _ _. false) log v.logs }) =
              ground arith in
            subst (λ (z : Result Value × World). (z.1.calls ≡ v.calls) × IsSettled job v z.0 z.1)
              (sym run) (refl, inl (log, refl, (refl, refl)))
        | inr long ↦
            let run : fail_job enc_key job e v
                ≡ (err (plain (codes "value too long for type character varying")), v) =
              ground arith in
            subst (λ (z : Result Value × World). (z.1.calls ≡ v.calls) × IsSettled job v z.0 z.1)
              (sym run) (refl, inr (long, refl, (_, refl)))
      ]

  settle_job_lem :
      (job : SendMessageJob) (res : Result Props) (v : World)
      → let (r, w') = settle_job enc_key job res v in (w'.calls ≡ v.calls) × IsSettled job v r w'
  unfolding settle_job finish_job record_log emit_message_sent
  settle_job_lem job (err e) v = fail_job_lem job e v
  settle_job_lem job (ok res) v =
      let id = wa_message_id_of res in
      let log = log_of job MessageStatus.sent (some id) none in
      elim (Bool-cases (log_fits log)) [
        | inl fits ↦
            let run : settle_job enc_key job (ok res) v ≡ (
              ok id,
              emit_message_sent job.workspace_id job.session_id job.to id
                  (record v { logs = orm.save (λ _ _. false) log v.logs }),
            ) =
              ground arith in
            subst (λ (z : Result Value × World). (z.1.calls ≡ v.calls) × IsSettled job v z.0 z.1)
              (sym run) (refl, inl (log, refl, (refl, refl, refl)))
        | inr long ↦
            let x = plain (codes "value too long for type character varying") in
            let run : settle_job enc_key job (ok res) v ≡ fail_job enc_key job x v =
              ap
                (λ (b : Bool).
                  finish_job enc_key job id (if b then ok tt else err x)
                    (record v { logs = if b then orm.save (λ _ _. false) log v.logs else v.logs }))
                long in
            subst (λ (z : Result Value × World). (z.1.calls ≡ v.calls) × IsSettled job v z.0 z.1)
              (sym run) (fail_job_lem job x v)
      ]

  -- A job whose workspace has credentials makes exactly one request of the OpenWA server, of the
  -- job's session and to the chat of its recipient. It writes exactly one log, which agrees with how the
  -- job ends: with the id in the log, or with the exception whose message is in the log. If the
  -- recipient is longer than the 20 characters of a log's column, it may write no log, and then it ends
  -- in an exception, although the request has been made.
  pub process_lem :
      (job : SendMessageJob) (creds : OpenwaCredentials) (w : World)
      → get_openwa_credentials enc_key job.workspace_id w ≡ (ok creds, w)
      → let (r, w') = process enc_key job w in
        (sent : Call) × IsCallOf job creds sent
        × (w'.calls ≡ w.calls ++ sent ∷ [])
        × IsSettled job w r w'
  unfolding process
  process_lem job creds w h =
      let (res, v) = send_by_type enc_key job.type creds job w in
      let (sent, of_job, calls, logs) = send_by_type_lem job.type creds job w in
      let (settled, ends) = settle_job_lem job res v in
      let e : process enc_key job w ≡ settle_job enc_key job res v = ground arith in
      let here : IsSettled job w (settle_job enc_key job res v).0 (settle_job enc_key job res v).1 =
        elim ends [
          | inl (log, saved, agrees) ↦
              inl (log, saved ∙ ap (orm.save (λ _ _. false) log) logs, agrees)
          | inr (long, same, thrown) ↦ inr (long, same ∙ logs, thrown)
        ] in
      (
        sent,
        of_job,
        ap (λ (z : Result Value × World). z.1.calls) e ∙ settled ∙ calls,
        subst (λ (z : Result Value × World). IsSettled job w z.0 z.1) (sym e) here,
      )
