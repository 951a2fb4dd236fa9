-- ===== src/Operator/Renew/Tests.antt =====
-- Tests of a certificate that ends in three hours and is renewed an hour before.
use knxvault.Prelude.{◌*◌, ◌≡◌, refl, none, some, [], codes, true, false}
use knxvault.Operator.Renew.{
  forward, hour, Clock, SpecView, Decision, decided, invalid, common_name_required,
  validate_and_decide, prefer_renew, resolve_ca_id,
}
use knxvault.Operator.Renew.Timing.{IsTimely, validate_and_decide-IsTimely}

abbrev clock : Clock
clock = record {
  parse_rfc3339 = λ t. some (3 * hour);
  parse_rfc3339_nano = λ t. none;
  read_duration = λ t. some (forward hour);
  print_hours = λ d. codes "h";
}

abbrev view : SpecView
view = record {
  common_name = codes "web";
  secret_name = codes "tls";
  delivery = [];
  duration = [];
  renew_before = codes "1h";
  dns_names = [];
  ip_addresses = [];
  usages = [];
  key_bits = 256;
  status_serial = [];
  status_ca_id = [];
  status_not_after = codes "later";
  secret_exists = true;
}

abbrev decision : Decision
decision = record {
  delivery = codes "Secret";
  ttl = codes "h";
  renew_before = forward hour;
  need_issue = false;
  client_usage = false;
  key_bits = 256;
  requeue_after = 2 * hour;
  next_renew = some (2 * hour);
}

decide_test : validate_and_decide clock view 0 ≡ decided decision
unfolding validate_and_decide knxvault.Prelude.Text-discrete
decide_test = refl

validate_and_decide-IsTimely_example : IsTimely clock (codes "later") 0 decision
validate_and_decide-IsTimely_example =
    validate_and_decide-IsTimely clock view 0 decision decide_test refl

no_name_test :
    validate_and_decide clock (record view { common_name = [] }) 0 ≡ invalid common_name_required
unfolding validate_and_decide
no_name_test = refl

-- A renewal is tried first where both the serial and the authority are known.
prefer_renew_test : prefer_renew (codes "01") (resolve_ca_id [] [] (codes "ca")) ≡ true
unfolding prefer_renew resolve_ca_id
prefer_renew_test = refl
