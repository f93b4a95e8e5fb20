-- ===== src/Tests.antt =====
-- Concrete data: a runtime, a cipher and servers that meet the laws that the model asks of them, and a
-- small state with two workspaces, at which the theorems are applied in the modules below.
mod Tenancy
mod Contacts
mod Campaign
mod Flows
mod Accounts
mod Keys
mod Hooks
mod Clocks
mod Tokens
mod Access
mod Reception
mod Statistics
mod Sockets
use Prim.Native.Nat.{◌-◌}
use api_wa_automation.Base.{
  ℕ, ◌+◌, Bool, true, false, ◌≡◌, refl, ap, Option, none, some, List, [], ◌∷◌, map, arith, All,
}
use api_wa_automation.Base.Text.{Text, codes, is_empty, IsFree}
use api_wa_automation.Value.{Js, Value, undefined, str, obj, Props, end, prop, own, is_nullish}
use api_wa_automation.Encryption.{Crypto, encrypt}
use api_wa_automation.Openwa.{Server, Reply, answered, refused}
use api_wa_automation.Data.Tenancy.{
  Workspace, WorkspaceMember, owner, admin, Session, connected, Contact,
}
use api_wa_automation.Data.Campaign.{
  Broadcast, BroadcastStatus, BroadcastRecipient, RecipientStatus,
}
use api_wa_automation.Data.Automation.{
  Automation, AutomationAction, ActionType, ActionConfig, ConditionConfig, ConditionOperator,
  TriggerConfig, TriggerType,
}
use api_wa_automation.World.{World, Call}
use api_wa_automation.Workspaces.{OpenwaCredentials}
use api_wa_automation.Base.Int.{pos}

abbrev text_of : Value → Text
text_of (str s) = s
text_of _ = []

abbrev member_of : Value → Text → Value
member_of (obj ps) k = own k ps
member_of _ k = undefined

instance abbrev pub plain_js : Js
plain_js = record {
  to_string = text_of;
  member = member_of;
  to_lower_case = λ s. s;
  regex_test = λ pattern s. none;
  number_gt = λ a b. false;
  to_string-str = λ s. refl;
  member-obj = λ k ps v h given. h;
}

-- Each byte as one unit behind the separator.
abbrev shift : Text → Text
shift [] = []
shift (c ∷ s) = (c + 59) ∷ shift s

abbrev unshift : Text → Text
unshift [] = []
unshift (c ∷ s) = (c - 59) ∷ unshift s

pub unshift-shift : (s : Text) → unshift (shift s) ≡ s
unshift-shift [] = refl
unshift-shift (c ∷ s) = ground (arith, unshift-shift s)

pub shift-IsFree : (s : Text) → IsFree b':' (shift s)
shift-IsFree [] = tt
shift-IsFree (c ∷ s) = (ground arith, shift-IsFree s)

pub shift-empty : (s : Text) → is_empty (shift s) ≡ is_empty s
shift-empty [] = refl
shift-empty (c ∷ s) = refl

instance abbrev pub plain_crypto : Crypto
plain_crypto = record {
  sha256 = λ s. s;
  cipher = λ key iv bytes. (bytes, codes "tag");
  decipher = λ key iv tag bytes. some bytes;
  to_utf8 = λ s. s;
  of_utf8 = λ s. s;
  to_hex = shift;
  of_hex = unshift;
  decipher-cipher = λ key iv bytes. refl;
  cipher_empty = λ key iv bytes. refl;
  tag_present = λ key iv bytes. refl;
  of_hex-to_hex = unshift-shift;
  to_hex_free = shift-IsFree;
  to_hex_empty = shift-empty;
  to_utf8_empty = λ s. refl;
}

-- A server that answers every request, and one that refuses every request.
abbrev pub kind_server : Server
kind_server = record {
  reply = λ calls call. answered (prop (codes "response") (str (codes "CONNECTED")) end);
}

abbrev pub refusing_server : Server
refusing_server = record { reply = λ calls call. refused (some 404) }

abbrev pub secret : Text
secret = codes "secret"

abbrev pub iv : Text
iv = codes "iv"

abbrev pub shop : Workspace
shop = record {
  id = 1;
  name = codes "shop";
  owner_id = 1;
  openwa_base_url = codes "http://wa/";
  openwa_api_key = encrypt iv (codes "key") secret;
  is_active = true;
}

abbrev pub shop_credentials : OpenwaCredentials
shop_credentials = record { base_url = codes "http://wa/"; api_key = codes "key" }

abbrev pub shop_owner : WorkspaceMember
shop_owner = record { workspace_id = 1; user_id = 1; role = owner }

abbrev pub shop_admin : WorkspaceMember
shop_admin = record { workspace_id = 1; user_id = 2; role = admin }

abbrev pub phone_session : Session
phone_session = record {
  id = 5;
  workspace_id = 1;
  session_id = codes "s5";
  name = codes "phone";
  phone_number = none;
  status = connected;
  last_active_at = none;
}

abbrev pub sale : BroadcastStatus → Broadcast
sale status = record {
  id = 7;
  workspace_id = 1;
  session_id = 5;
  name = codes "sale";
  template = codes "Hi {{name}}";
  status = status;
  delay_ms = 3000;
  total = 1;
  sent_count = 0;
  failed_count = 0;
  scheduled_at = none;
  started_at = none;
  finished_at = none;
}

abbrev pub customer : BroadcastRecipient
customer = record {
  id = 9;
  broadcast_id = 7;
  phone = codes "628";
  variables = prop (codes "name") (str (codes "Ann")) end;
  status = RecipientStatus.pending;
  error_message = none;
  sent_at = none;
}

abbrev pub ann : Contact
ann = record {
  id = 3;
  workspace_id = 1;
  name = some (codes "Ann");
  phone = codes "628";
  tags = [];
  is_blacklisted = false;
  notes = none;
}

abbrev pub reply_action : AutomationAction
reply_action = record {
  order = pos 1;
  action_type = ActionType.send_text;
  action_config = record {
    message = some (codes "Hello");
    delay_ms = none;
    caption = none;
    image_url = none;
    file_url = none;
    filename = none;
    to = none;
    duration_ms = none;
    condition = record {
      field = codes "message";
      operator = ConditionOperator.equals;
      value = undefined;
      if_true_action_order = undefined;
      if_false_action_order = undefined;
    };
  };
}

abbrev pub hello_trigger : TriggerConfig
hello_trigger = record {
  keywords = some (codes "hello" ∷ []);
  match_type = none;
  from_phone = none;
  is_group = none;
  cron = none;
  timezone = none;
  target_phones = none;
  webhook_path = none;
  phone_field = none;
  message_template = none;
}

abbrev pub greeter : Automation
greeter = record {
  id = 4;
  workspace_id = 1;
  session_id = some 5;
  name = codes "greeter";
  description = none;
  is_active = true;
  trigger_type = TriggerType.message;
  trigger_config = hello_trigger;
  run_count = 0;
  last_run_at = none;
  actions = reply_action ∷ [];
}

-- The state with the broadcast in one status or another.
abbrev pub small_world : BroadcastStatus → World
small_world status = record {
  users = [];
  api_keys = [];
  refresh_tokens = [];
  workspaces = shop ∷ [];
  members = shop_owner ∷ shop_admin ∷ [];
  sessions = phone_session ∷ [];
  contacts = ann ∷ [];
  groups = [];
  automations = greeter ∷ [];
  broadcasts = sale status ∷ [];
  recipients = customer ∷ [];
  logs = [];
  webhooks = [];
  deliveries = [];
  message_jobs = [];
  broadcast_jobs = [];
  webhook_jobs = [];
  automation_jobs = [];
  emitted = [];
  calls = [];
}
