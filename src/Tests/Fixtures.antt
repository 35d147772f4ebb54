-- ===== src/Tests/Fixtures.antt =====
-- Test data: accounts, a scheduler, a gateway and the rounds of a request.
use grok2api.Prelude.{
  ℕ, ◌*◌, true, Option, none, List, [], ◌∷◌, Text, codes, map, refl, mem, text_eq, Distinct, Time,
  hour,
}
use grok2api.Account.{Account, ready, unavailable, no_reason, cooldown}
use grok2api.Scheduler.State.{Scheduler, new}
use grok2api.Upstream.Headers.{Header}
use grok2api.Gateway.State.{Gateway, new_gateway}
use grok2api.Gateway.Request.{Reply, replies, Round}

abbrev pub now : Time
now = 1000 * hour

abbrev pub account : Text → ℕ → ℕ → Account
account id priority max_active = record {
  id = id;
  access_token = codes "access";
  refresh_token = codes "refresh";
  expires_at = 2000 * hour;
  oidc_issuer = codes "issuer";
  oidc_client_id = codes "client";
  email = codes "a@example.com";
  user_id = codes "user";
  team_id = codes "team";
  pool = ready;
  unavailable_reason = no_reason;
  retry_at = 0;
  last_error_code = [];
  last_success_at = 0;
  quota_actual = 0;
  quota_limit = 0;
  request_count = 0;
  authentication_fails = 0;
  active = 0;
  max_active = max_active;
  priority = priority;
  created_at = 1 * hour;
  updated_at = 1 * hour;
}

-- `high` is preferred, and takes one request at a time.
abbrev pub high : Account
high = account (codes "high") 5 1

abbrev pub low : Account
low = account (codes "low") 1 2

-- Its quota is used up.
abbrev pub spent : Account
spent = record (account (codes "spent") 9 1) { quota_actual = 50; quota_limit = 50 }

abbrev pub accounts : List Account
accounts = high ∷ low ∷ spent ∷ []

abbrev pub pool_of_three : Scheduler
pool_of_three = new accounts

abbrev pub gateway : Gateway
gateway = new_gateway pool_of_three

-- No header is set, and no text is a date.
abbrev pub no_header : Header
no_header name = []

abbrev pub no_date : Text → Option Time
no_date text = none

abbrev reply : ℕ → Reply
reply status = record {
  status = status;
  header = no_header;
  body = codes "{}";
  parsed = none;
  read_ok = true;
  close_ok = true;
}

-- A round in which nobody else touches the scheduler.
abbrev pub answered : ℕ → Round
answered status = record {
  wakes = [];
  now = now;
  upstream = λ a. replies (reply status);
  meanwhile = λ s. s;
  save_ok = true;
}

-- `low`, out of service until `t`.
abbrev pub out_until : Time → Account
out_until t = record low { pool = unavailable; unavailable_reason = cooldown; retry_at = t }

pub accounts-Distinct : Distinct (map (λ a. a.id) accounts)
unfolding mem text_eq
accounts-Distinct = (refl, (refl, (refl, tt)))
