-- ===== src/Webhooks/Tests.antt =====
-- Tests of the deliveries, and instances of their theorems.
use kepryx.Base.{
  ◌≡◌, refl, true, false, none, some, String, List, map, keep, length, ◌≤◌, ◌*◌, [], ◌∷◌, All, inr,
  arith,
}
use kepryx.Networks.Texts.{sample, read_address, show_address}
use kepryx.Webhooks.{
  Webhook, Net, Outside, response, http_error, other_error, gaierror, fire_event, dispatch_all,
  commit_hooks, all_fit, status_fits, status_text, first_chars, go_on, before_others, is_chosen,
  is_wanted, dispatch_one, dispatch_parsed, dispatch_url, deliver, target, target_of, after_decrypt,
  post_with_retry, next_answer, checked_response, after_post, after_delivery,
}
use kepryx.Pii.{null}
use kepryx.Webhooks.Requests.{Request, Libraries, Notice, host_header, request_of}
use kepryx.Webhooks.Delivery.{IsSound, IsProper, fire_event-safe}
use kepryx.Webhooks.Attempts.{fire_event_attempts}

abbrev names : Libraries
names = record {
  str = λ n. "n";
  isoformat = λ n. "n";
  dumps = λ p. p.event;
  hmac = λ key s. s;
  read_url = λ url. record { host = "10.1.2.7"; scheme = "https"; port = none };
}

-- Every address is global here, and every URL names the host 10.1.2.7.
abbrev outside : Outside
outside = record {
  texts = sample;
  libraries = names;
  is_global = λ a. true;
  urlparse = λ url.
      some
        (record { hostname = some "10.1.2.7"; scheme = "https"; username = none; password = none });
  getaddrinfo = λ name. gaierror;
  retry_error = λ o. "RetryError[<Future at 0x7f6c4f5e3f10 state=finished raised HTTPError>]";
  decrypt = λ text salt. some text;
}

abbrev hook : Webhook
hook = record {
  url = "https://10.1.2.7/x";
  secret_encrypted = "c";
  secret_salt = "s";
  event_types = "asset" ∷ [];
  severity_filter = [];
  enabled = true;
  last_delivery = none;
  delivery_count = 0;
  failure_count = 9;
  last_status = none;
}

abbrev net : Net
net = record { sent = []; answers = http_error ∷ response 302 ∷ response 500 ∷ [] }

abbrev notice : Notice
notice = record { now = 5; event = "asset"; content = null }

abbrev to : List Request → List String
to rs = map (λ r. r.address) rs

-- Three attempts; the text of the error is too wide, and the hook is on as before.
rolled_back :
    let r = fire_event outside notice "high" (hook ∷ []) net in
    (r.0 ≡ (false, hook ∷ [])) × (to r.1.sent ≡ "10.1.2.7" ∷ "10.1.2.7" ∷ "10.1.2.7" ∷ [])
unfolding fire_event dispatch_all commit_hooks all_fit status_fits status_text first_chars go_on
    before_others is_chosen is_wanted dispatch_one dispatch_parsed dispatch_url deliver target
    target_of after_decrypt post_with_retry next_answer checked_response after_post after_delivery
    read_address show_address request_of
rolled_back = (refl, refl)

abbrev short : Net
short = record { sent = []; answers = other_error "reset" ∷ [] }

-- One attempt, the tenth failure, and the hook is off.
switched_off :
    map (λ w. w.enabled) (fire_event outside notice "high" (hook ∷ []) short).0.1 ≡ false ∷ []
unfolding fire_event dispatch_all commit_hooks all_fit status_fits status_text first_chars go_on
    before_others is_chosen is_wanted dispatch_one dispatch_parsed dispatch_url deliver target
    target_of after_decrypt post_with_retry next_answer checked_response after_post after_delivery
    read_address show_address request_of
switched_off = refl

-- A port that is not the scheme's is kept, an IPv6 address stands in brackets.
host_headers :
    (host_header names "::1" "https" (some 8443) ≡ "[::1]:n")
    × (host_header names "example.com" "https" (some 443) ≡ "example.com")
unfolding host_header
host_headers = (refl, refl)

fire_event-safe_example :
    let r = fire_event outside notice "high" (hook ∷ []) short in
    All IsSound r.0.1
    × (r.0.0 ≡ false → r.0.1 ≡ hook ∷ [])
    × All (IsProper outside notice "high" (hook ∷ [])) r.1.sent
fire_event-safe_example =
    fire_event-safe outside notice "high" (hook ∷ []) short.answers (inr (omega arith), tt)

fire_event_attempts_example :
    length (fire_event outside notice "high" (hook ∷ hook ∷ []) net).1.sent
    ≤ 3 * length (keep (λ w. is_chosen outside w "asset" "high") (hook ∷ hook ∷ []))
fire_event_attempts_example =
    fire_event_attempts outside notice "high" (hook ∷ hook ∷ []) net.answers
