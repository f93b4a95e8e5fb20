-- ===== src/Tests/Clocks.antt =====
-- Keys in the form of texts and a schedule, with the laws that the automations rely on.
use api_wa_automation.Base.{◌+◌, ◌*◌, ◌/◌, ◌%◌, ◌==◌, refl, some, [], ◌∷◌, arith}
use api_wa_automation.Base.Text.{codes}
use api_wa_automation.Value.{Value, str}
use api_wa_automation.Data.Tenancy.{Key}
use api_wa_automation.World.{Result, ok, err, plain}
use api_wa_automation.Automations.Interface.{Uuid, Cron}

abbrev read_key : Value → Result Key
read_key (str (k ∷ [])) = ok k
read_key _ = err (plain (codes "invalid input syntax for type uuid"))

instance abbrev pub short_uuid : Uuid
short_uuid = record {
  value_of = λ k. str (k ∷ []);
  key_of = read_key;
  key_of-value_of = λ k. refl;
  is_truthy-value_of = λ k. refl;
}

-- The expression is not read: it fires on every minute.
instance abbrev pub every_minute : Cron
every_minute = record {
  fires = λ cron tz t. t % 60000 == 0;
  next = λ cron tz t. some ((t / 60000 + 1) * 60000);
  next_later = λ cron tz t n e. ground arith;
  next_fires = λ cron tz t n e. ground arith;
  next_first = λ cron tz t n f e fires later. ground arith;
}
