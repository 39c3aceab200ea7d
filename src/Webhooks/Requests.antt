-- ===== src/Webhooks/Requests.antt =====
-- app/services/webhook_dispatcher.py: the request of a delivery, as the server gets it, and its
-- signature. The texts of numbers and times, `json.dumps` with sorted keys and compact separators,
-- HMAC-SHA256 and httpx's reading of a URL are arguments.
use kepryx.Base.{
  ℕ, String, not, ◌&&◌, Option, none, some, ◌==◌, append, codes, has_part, starts_with, str_eq,
  if◌then◌else◌,
}
use kepryx.Pii.{Json}

-- `httpx.URL(url)`.
pub record HttpUrl : Type 0 where
  pub host : String
  pub scheme : String
  pub port : Option ℕ

pub record Payload : Type 0 where
  pub event : String
  pub timestamp : String
  pub content : Json

-- A POST: its URL but for the host, the host connected to, the Host header, the name for TLS, the
-- X-Kepryx headers, and the payload that httpx serialises.
pub record Request : Type 0 where
  pub url : String
  pub address : String
  pub host : String
  pub sni_hostname : Option String
  pub event : String
  pub timestamp : String
  pub signature : String
  pub body : Payload

pub record Libraries : Type 0 where
  pub str : ℕ → String
  pub isoformat : ℕ → String
  pub dumps : Payload → String
  pub hmac : String → String → String
  pub read_url : String → HttpUrl

-- The call of `fire_event`, and the time of it, in seconds.
pub record Notice : Type 0 where
  pub now : ℕ
  pub event : String
  pub content : Json

module _ (L : Libraries) where
  open L use {str, isoformat, dumps, hmac, read_url}

  -- A port that is neither 0 nor the scheme's own is written out.
  pub with_port : String → String → Option ℕ → String
  with_port host scheme none = host
  with_port host scheme (some p) =
      if not (p == 0) && not (p == (if str_eq scheme "https" then 443 else 80))
      then append host (append ":" (str p))
      else host

  unfoldable pub host_header : String → String → Option ℕ → String
  unfolding with_port
  host_header hostname scheme port =
      let host =
        if has_part (codes ":") (codes hostname) && not (starts_with (codes "[") (codes hostname))
        then append "[" (append hostname "]")
        else hostname in
      with_port host scheme port

  -- The hexadecimal digest over the time, a dot and the text of the payload.
  pub sign_payload : ℕ → String → Payload → String × String
  sign_payload now secret p = (str now, hmac secret (append (str now) (append "." (dumps p))))

  -- What the transport makes of the request of a hook with this URL and host.
  pub pinned_request : String → String → String → Payload → String × String → Request
  unfolding host_header
  pinned_request url hostname ip p (ts, sig) =
      let u = read_url url in
      record {
        url = url;
        address = ip;
        host = host_header u.host u.scheme u.port;
        sni_hostname = if str_eq u.scheme "https" then some hostname else none;
        event = p.event;
        timestamp = ts;
        signature = append "sha256=" sig;
        body = p;
      }

  unfoldable pub request_of : Notice → String → String → String → String → Request
  unfolding sign_payload pinned_request
  request_of e secret url hostname ip =
      let p : Payload = record {
        event = e.event;
        timestamp = isoformat e.now;
        content = e.content;
      } in
      pinned_request url hostname ip p (sign_payload e.now secret p)
