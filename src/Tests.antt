-- ===== src/Tests.antt =====
-- The theorems applied to one small gateway: customers by their addresses, a NoDogSplash that
-- answers the same to every invocation, and the states that they start from.
mod Gate
mod Customer
mod Debts
mod Notes
mod Mints
mod Invoices
mod Gateway
mod Radio
use tollgate_module_basic_go.Prelude.{
  ℕ, ◌*◌, Bool, true, false, Option, none, some, List, [], ◌∷◌, Str, codes, ◌==◌,
}
use tollgate_module_basic_go.Prelude.Words.{at_unix}
use tollgate_module_basic_go.Valve.State.{CloseStreak, Timer, DataBaseline, Valve}
use tollgate_module_basic_go.Valve.Ndsctl.{
  Command, auth, deauth, json_client, json_list, Answer, ok, failed, timed_out, ClientStats, Ndsctl,
}
use tollgate_module_basic_go.Merchant.Receive.{Token, ReceiveResult, Wallet}
use tollgate_module_basic_go.Merchant.State.{
  OwedGrantState, OwedGrantRecord, IntentState, ReceiveIntentRecord, Metric, milliseconds, bytes,
  CustomerSession, MintConfig, Config, Merchant,
}

abbrev pub mac : Str
mac = codes "02:00:00:00:00:0a"

abbrev pub raw_mac : Str
raw_mac = codes " 02:00:00:00:00:0A "

-- The counters that NoDogSplash reports, in kilobytes.
abbrev pub stats : ClientStats
stats = record { state = codes "Authenticated"; downloaded = 3; uploaded = 1 }

answers : Answer → Answer → Answer → ℕ → Command → Answer
answers on_auth on_deauth on_json calls (auth m) = on_auth
answers on_auth on_deauth on_json calls (deauth m) = on_deauth
answers on_auth on_deauth on_json calls (json_client m) = on_json
answers on_auth on_deauth on_json calls json_list = on_json

-- A NoDogSplash that does what it is asked, one that refuses everything, and one that does not
-- answer at all.
abbrev pub willing : Ndsctl
unfolding answers
willing = record {
  answer = answers (ok []) (ok []) (ok (codes "json"));
  unmarshal = λ s. some stats;
}

abbrev pub refusing : Ndsctl
unfolding answers
refusing = record { answer = answers (failed []) (failed []) (failed []); unmarshal = λ s. none }

abbrev pub silent : Ndsctl
unfolding answers
silent = record {
  answer = answers (timed_out []) (timed_out []) (timed_out []);
  unmarshal = λ s. none;
}

-- Nothing else happens meanwhile.
abbrev pub idle : Valve → Valve
idle v = v

abbrev pub no_gates : Valve
no_gates = record {
  auth_delay = 0;
  open_gates = [];
  pending_until = [];
  gate_epochs = [];
  close_streaks = [];
  pending_close_retries = [];
  data_baselines = [];
  gate_close_failures = 0;
  gate_closes_abandoned = 0;
  calls = 0;
}

abbrev pub timer : Timer
timer = record { deadline = 1600; epoch = 1; is_stopped = false }

abbrev pub one_gate : Valve
one_gate = record no_gates { open_gates = (mac, some timer) ∷ []; gate_epochs = (mac, 1) ∷ [] }

abbrev pub baseline : DataBaseline
baseline = record { downloaded = 1024; uploaded = 0; timestamp = at_unix 1000 }

abbrev pub metered_gate : Valve
metered_gate = record no_gates {
  open_gates = (mac, none) ∷ [];
  gate_epochs = (mac, 1) ∷ [];
  data_baselines = (mac, baseline) ∷ [];
}

abbrev pub spent_gate : Valve
spent_gate = record one_gate {
  close_streaks = (mac, record { attempts = 8; abandoned = true }) ∷ [];
}

abbrev pub mint_url : Str
mint_url = codes "https://mint"

abbrev pub mint : MintConfig
mint = record {
  url = mint_url;
  price_per_step = 2;
  min_purchase_steps = 3;
  price_unit = codes "sat";
}

abbrev pub by_time : Config
by_time = record { metric = milliseconds; step_size = 60000; accepted_mints = mint ∷ [] }

abbrev pub by_volume : Config
by_volume = record { metric = bytes; step_size = 1000; accepted_mints = mint ∷ [] }

abbrev pub customer : Metric → CustomerSession
customer metric = record {
  mac_address = mac;
  start_time = 1000;
  metric = metric;
  allotment = 5000;
  consumed = 100;
  attachment_usage = 4000;
  ticket_handle = [];
  ticket_expires_at = 0;
}

abbrev pub merchant : Config → Valve → Merchant
merchant c v = record {
  config = c;
  customer_sessions = (mac, customer c.metric) ∷ [];
  expired_sessions = [];
  unmetered_sessions = [];
  owed_grants = [];
  receive_intents = [];
  receive_in_flight = [];
  grant_file = [];
  intent_file = [];
  writes = 0;
  monitors = [];
  marked_unreachable = [];
  valve = v;
}

-- A note of 15 sat at the mint, and its reference.
abbrev pub note : Token
note = record { mint = mint_url; amount = 15; serialized = some (codes "note") }

abbrev pub ref : Str
ref = codes "note"

same_text : Str → Str
same_text s = s

decode_note : Str → Option Token
decode_note s = some note

no_fee : Token → Option ℕ
no_fee t = some 0

-- A wallet whose mint gives this answer to `Receive`, and this one about spent notes.
abbrev pub wallet : Option ReceiveResult → Option Bool → Wallet
unfolding same_text decode_note no_fee
wallet result answer = record {
  decode = decode_note;
  fingerprint = same_text;
  swap_fee = no_fee;
  receive = λ t. result;
  spent = λ s. answer;
  normalize = same_text;
}

-- A disk that takes every write, and one that takes the first.
abbrev pub sound_disk : ℕ → Bool
sound_disk k = true

abbrev pub torn_disk : ℕ → Bool
torn_disk k = k == 0

abbrev pub debt : OwedGrantRecord
debt = record {
  mac_address = mac;
  mint_url = mint_url;
  amount_sats = 15;
  allotment = 420000;
  metric = milliseconds;
  created_at = at_unix 1000;
  granted_at = none;
  expired_at = none;
  state = OwedGrantState.owed;
  attempts = 0;
  processing = false;
}

abbrev pub intent : IntentState → ReceiveIntentRecord
intent state = record {
  mac_address = mac;
  mint_url = mint_url;
  amount_sats = 15;
  token_serialized = codes "note";
  created_at = at_unix 1000;
  resolved_at = none;
  state = state;
}

abbrev pub with_debt : Merchant
with_debt = record (merchant by_time no_gates) { owed_grants = (ref, debt) ∷ [] }

abbrev pub with_intent : IntentState → Merchant
with_intent state = record (merchant by_time no_gates) {
  receive_intents = (ref, intent state) ∷ [];
}
