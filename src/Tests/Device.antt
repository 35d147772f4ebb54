-- ===== src/Tests/Device.antt =====
-- The theorem on the device flow at a concrete input.
use grok2api.Prelude.{true, false, none, some, [], ◌∷◌, All, codes, hour, second, ◌*◌, ◌+◌}
use grok2api.Account.{no_reason}
use grok2api.Device.Session.{DeviceSession, pending}
use grok2api.Device.Poll.{Around, judged, DeviceWorld}
use grok2api.Device.Lifecycle.{Codeless, polls, cancels, run_acts, run_acts-Codeless}
use grok2api.Tests.Fixtures.{now, pool_of_three}

abbrev asked : DeviceSession
asked = record {
  id = codes "das_1";
  status = pending;
  issuer = codes "https://auth.x.ai";
  client_id = codes "client";
  scope = codes "openid";
  user_code = codes "ABCD";
  verification_uri = codes "https://auth.x.ai/device";
  verification_uri_complete = [];
  device_code = codes "code";
  interval_sec = 5;
  expires_at = now + hour;
  last_error = [];
  account_id = [];
  created_at = now;
  updated_at = now;
  completed_at = 0;
}

-- The upstream grants the tokens, and the store takes everything.
abbrev granting : Around
granting = record {
  now = now + 10 * second;
  reply = λ s. record {
    access_token = codes "access";
    refresh_token = codes "refresh";
    expires_in = hour;
    is_pending = false;
    is_slow = false;
    is_denied = false;
    is_expired = false;
    error = [];
    error_description = [];
    call_error = none;
  };
  validator = some (λ a. judged no_reason []);
  writer = some (λ a. none);
  has_pool = true;
  reads = true;
  writes = true;
}

abbrev one_asked : DeviceWorld
one_asked = record { sessions = asked ∷ []; saved = []; sched = pool_of_three }

run_acts-Codeless_example :
    All Codeless
      (run_acts
        (polls granting (codes "das_1") ∷ cancels granting (codes "das_1") ∷ [])
        one_asked).sessions
run_acts-Codeless_example =
    run_acts-Codeless (polls granting (codes "das_1") ∷ cancels granting (codes "das_1") ∷ [])
      one_asked ((λ h. cc), tt)
