-- ===== src/Webhooks.antt =====
-- app/services/webhook_dispatcher.py: what a delivery sends and where it connects, its retries, and
-- switching a hook off. URL parsing, name resolution, `is_global`, the cipher and the servers'
-- answers are arguments. The one commit after the deliveries raises where a `last_status` is wider
-- than its column; other errors of the database are left out, as are the texts that `dispatch_one`
-- returns. One reading of the clock serves an event.
pub mod Requests
pub mod Targets
pub mod Delivery
pub mod Attempts
mod Tests
use kepryx.Base.{
  ℕ, zero, suc, String, Bool, true, false, not, ◌&&◌, ◌||◌, Option, none, some, List, [], ◌∷◌, ltb,
  leb, mem_text, str_eq, nonempty, or_else, append, codes, length, if◌then◌else◌,
}
use kepryx.Networks.{IpTexts, Address}
use kepryx.Pii.{Json}
use kepryx.Webhooks.Requests.{Request, Libraries, Notice, request_of}

-- `last_status`; a failure carries `str(e)`.
pub data Status : Type 0 where
  invalid_url ssrf_blocked decrypt_error : Status
  success : ℕ → Status
  delivery_failed : String → Status

pub record Webhook : Type 0 where
  pub url : String
  pub secret_encrypted : String
  pub secret_salt : String
  pub event_types : List String
  pub severity_filter : List String
  pub enabled : Bool
  pub last_delivery : Option ℕ
  pub delivery_count : ℕ
  pub failure_count : ℕ
  pub last_status : Option Status

-- `urlparse(url)`.
pub record Url : Type 0 where
  pub hostname : Option String
  pub scheme : String
  pub username : Option String
  pub password : Option String

-- What one POST ends in: a response, an HTTPError, or another exception with its text.
pub data Outcome : Type 0 where
  response : ℕ → Outcome
  http_error : Outcome
  other_error : String → Outcome

-- What a delivery ends in: the status code of a response, or an exception with its text.
pub data Posted : Type 0 where
  delivered : ℕ → Posted
  undelivered : String → Posted

-- What `getaddrinfo` gives: addresses, the error that is caught, or another one (a name that IDNA
-- cannot encode).
pub data Lookup : Type 0 where
  addresses : List String → Lookup
  gaierror other_lookup_error : Lookup

-- Where a delivery connects to: an address, nowhere, or an exception that leaves `dispatch_one`.
pub data Target : Type 0 where
  pinned : String → Target
  blocked unresolved : Target

-- The requests that were sent, the latest first, and the answers that are still to come.
pub record Net : Type 0 where
  pub sent : List Request
  pub answers : List Outcome

-- `urlparse` is empty where it raises; `retry_error` is the text of tenacity's RetryError around the
-- end of the last attempt.
pub record Outside : Type 0 where
  pub texts : IpTexts
  pub libraries : Libraries
  pub is_global : Address → Bool
  pub urlparse : String → Option Url
  pub getaddrinfo : String → Lookup
  pub retry_error : Outcome → String
  pub decrypt : String → String → Option String

-- One POST to the pinned address. Where no answer is left, the connection fails.
pub next_answer : List Outcome → Outcome × List Outcome
next_answer [] = (http_error, [])
next_answer (a ∷ rest) = (a, rest)

-- A redirect and an error status are HTTPErrors.
pub checked_response : Outcome → Outcome
checked_response (response code) =
    if leb 200 code && ltb code 300 then response code else http_error
checked_response http_error = http_error
checked_response (other_error text) = other_error text

pub after_post : Posted × Net → Outcome → Net → Posted × Net
after_post again (response code) n = (delivered code, n)
after_post again http_error n = again
after_post again (other_error text) n = (undelivered text, n)

pub first_chars : ℕ → String → String
first_chars zero s = String.[]
first_chars (suc n) String.[] = String.[]
first_chars (suc n) (String.◌∷◌ c s) = String.◌∷◌ c (first_chars n s)

module _ (X : Outside) where
  open X use {texts, libraries, is_global, urlparse, getaddrinfo, retry_error, decrypt}

  -- At most so many attempts, another one after an HTTPError only; the text is that of the error
  -- where no attempt is left.
  pub post_with_retry : ℕ → String → Request → Net → Posted × Net
  unfolding next_answer checked_response after_post
  post_with_retry zero text r n = (undelivered text, n)
  post_with_retry (suc k) text r n =
      let (o, rest) = next_answer n.answers in
      let n' : Net = record { sent = r ∷ n.sent; answers = rest } in
      let again = post_with_retry k (retry_error o) r n' in after_post again (checked_response o) n'

  pub pick_next : Option Address → Option String → Option String → Option String
  pick_next none skipped taken = skipped
  pick_next (some a) skipped taken = if is_global a then taken else none

  -- The loop over the resolved addresses: every one that can be read must be global, and the first of
  -- them is taken. `none` is a refusal.
  pub pick : Option String → List String → Option String
  unfolding pick_next
  pick found [] = nonempty found
  pick found (ip ∷ rest) =
      pick_next (texts.ip_address ip) (pick found rest) (pick (or_else found (some ip)) rest)

  pub picked : Option String → Target
  picked none = blocked
  picked (some ip) = pinned ip

  pub resolve_public_ip : Lookup → Target
  unfolding pick picked
  resolve_public_ip (addresses ips) = picked (pick none ips)
  resolve_public_ip gaierror = blocked
  resolve_public_ip other_lookup_error = unresolved

  -- The address to connect to, for the text of an address or a name.
  pub target_of : Option Address → String → Target
  unfolding resolve_public_ip
  target_of none hostname = resolve_public_ip (getaddrinfo hostname)
  target_of (some a) hostname = if is_global a then pinned (texts.print_address a) else blocked

  pub target : String → Target
  unfolding target_of
  target hostname = target_of (texts.ip_address hostname) hostname

  pub after_delivery : ℕ → Webhook → Posted → Webhook
  after_delivery now w (delivered code) = record w {
    last_delivery = some now;
    delivery_count = suc w.delivery_count;
    last_status = some (success code);
    failure_count = 0;
  }
  after_delivery now w (undelivered text) = record w {
    failure_count = suc w.failure_count;
    last_status = some (delivery_failed text);
    enabled = if leb 10 (suc w.failure_count) then false else w.enabled;
  }

  pub after_decrypt : Notice → Webhook → String → String → Option String → Net → Webhook × Net
  unfolding post_with_retry after_delivery
  after_decrypt e w hostname ip none n = (record w { last_status = some decrypt_error }, n)
  after_decrypt e w hostname ip (some secret) n =
      let r = request_of libraries e secret w.url hostname ip in
      let (end, n') = post_with_retry 3 "" r n in (after_delivery e.now w end, n')

  -- The hook and the network after a delivery; without a hook, an exception leaves `dispatch_one`.
  pub deliver : Notice → Webhook → String → Target → Net → Option Webhook × Net
  unfolding after_decrypt
  deliver e w hostname unresolved n = (none, n)
  deliver e w hostname blocked n = (some (record w { last_status = some ssrf_blocked }), n)
  deliver e w hostname (pinned ip) n =
      let (w', n') = after_decrypt e w hostname ip (decrypt w.secret_encrypted w.secret_salt) n in
      (some w', n')

  pub dispatch_url : Notice → Webhook → Url → Option String → Net → Option Webhook × Net
  unfolding deliver target
  dispatch_url e w u none n = (some (record w { last_status = some invalid_url }), n)
  dispatch_url e w u (some hostname) n =
      if (str_eq u.scheme "http" || str_eq u.scheme "https")
        && not (elim (nonempty u.username) [ none ↦ false | some s ↦ true ])
        && not (elim (nonempty u.password) [ none ↦ false | some s ↦ true ])
      then deliver e w hostname (target hostname) n
      else (some (record w { last_status = some invalid_url }), n)

  pub dispatch_parsed : Notice → Webhook → Option Url → Net → Option Webhook × Net
  unfolding dispatch_url
  dispatch_parsed e w none n = (none, n)
  dispatch_parsed e w (some u) n = dispatch_url e w u (nonempty u.hostname) n

  pub dispatch_one : Notice → Webhook → Net → Option Webhook × Net
  unfolding dispatch_parsed
  dispatch_one e w n = dispatch_parsed e w (urlparse w.url) n

  pub is_wanted : List String → String → Bool
  is_wanted [] x = true
  is_wanted (y ∷ ys) x = mem_text x (y ∷ ys)

  -- Whether the hook is selected for an event of this severity.
  pub is_chosen : Webhook → String → String → Bool
  unfolding is_wanted
  is_chosen w event severity =
      w.enabled && is_wanted w.event_types event && is_wanted w.severity_filter severity

  pub status_text : Status → String
  status_text invalid_url = "invalid_url"
  status_text ssrf_blocked = "ssrf_blocked"
  status_text decrypt_error = "decrypt_error"
  status_text (success code) = append "success_" (libraries.str code)
  status_text (delivery_failed text) = append "failed: " (first_chars 60 text)

  -- The column is a VARCHAR(32).
  pub status_fits : Option Status → Bool
  unfolding status_text first_chars
  status_fits none = true
  status_fits (some s) = leb (length (codes (status_text s))) 32

  pub all_fit : List Webhook → Bool
  unfolding status_fits
  all_fit [] = true
  all_fit (w ∷ ws) = status_fits w.last_status && all_fit ws

  pub before_others : Option Webhook → Option (List Webhook) → Option (List Webhook)
  before_others (some w) (some ws) = some (w ∷ ws)
  before_others (some w) none = none
  before_others none rest = none

  pub go_on : Option Webhook × Net → Option (List Webhook) × Net → Option (List Webhook) × Net
  unfolding before_others
  go_on (none, n) rest = (none, n)
  go_on (some w, n) rest = (before_others (some w) rest.0, rest.1)

  -- The loop over the rows; those that are not enabled are not selected.
  pub dispatch_all : Notice → String → List Webhook → Net → Option (List Webhook) × Net
  unfolding dispatch_one is_chosen go_on
  dispatch_all e severity [] n = (some [], n)
  dispatch_all e severity (w ∷ ws) n =
      let first = if is_chosen w e.event severity then dispatch_one e w n else (some w, n) in
      let rest = dispatch_all e severity ws first.1 in go_on first rest

  -- The rows after the commit, and whether it came to that: an exception, the commit's own
  -- included, rolls every row back.
  pub commit_hooks : List Webhook → Option (List Webhook) → Bool × List Webhook
  unfolding all_fit
  commit_hooks stored none = (false, stored)
  commit_hooks stored (some ws) = if all_fit ws then (true, ws) else (false, stored)

  pub fire_event : Notice → String → List Webhook → Net → (Bool × List Webhook) × Net
  unfolding dispatch_all commit_hooks
  fire_event e severity ws n =
      let (ends, n') = dispatch_all e severity ws n in (commit_hooks ws ends, n')
