-- ===== src/Webhooks/Delivery.antt =====
-- What deliveries send, and which hooks stay on.
use kepryx.Base.{
  ℕ, zero, suc, ◌<◌, ◌≡◌, refl, String, Bool, true, false, ◌⊎◌, Option, none, some, List, [], ◌∷◌,
  All, In, leb, append, nonempty, arith, Bool-cases, inl, inr, if◌then◌else◌,
}
use kepryx.Webhooks.Requests.{Request, Notice, request_of}
use kepryx.Webhooks.Targets.{IsPublic, target-IsPublic}
use kepryx.Webhooks.{
  Webhook, invalid_url, Net, Url, Outside, Outcome, response, http_error, other_error, Posted,
  delivered, undelivered, Target, pinned, blocked, unresolved, next_answer, checked_response,
  after_post, post_with_retry, after_delivery, after_decrypt, deliver, dispatch_url,
  dispatch_parsed, dispatch_one, go_on, before_others, dispatch_all, commit_hooks, all_fit,
  fire_event, target, is_chosen,
}

-- An enabled hook has failed fewer than ten times in a row.
abbrev pub IsSound : Webhook → Type 0
IsSound w = (w.enabled ≡ false) ⊎ (w.failure_count < 10)

after_delivery-IsSound :
    (X : Outside) (now : ℕ) (w : Webhook) (end : Posted)
    → IsSound w
    → IsSound (after_delivery X now w end)
unfolding after_delivery
after_delivery-IsSound X now w (delivered code) h = inr (omega arith)
after_delivery-IsSound X now w (undelivered text) h =
    elim (Bool-cases (leb 10 (suc w.failure_count))) [
      | inl e ↦ inl (rw e refl)
      | inr e ↦ inr (ground arith)
    ]

module _ (X : Outside) (P : Request → Type 0) where
  after_post-All :
      (again : Posted × Net) (o : Outcome) (n : Net)
      → All P again.1.sent
      → All P n.sent
      → All P (after_post again o n).1.sent
  unfolding after_post
  after_post-All again (response c) n a b = b
  after_post-All again http_error n a b = a
  after_post-All again (other_error text) n a b = b

  post-All :
      (k : ℕ) (text : String) (r : Request) (n : Net)
      → P r
      → All P n.sent
      → All P (post_with_retry X k text r n).1.sent
  unfolding post_with_retry
  post-All zero text r n p h = h
  post-All (suc k) text r n p h =
      let o = (next_answer n.answers).0 in
      let n' : Net = record { sent = r ∷ n.sent; answers = (next_answer n.answers).1 } in
      after_post-All (post_with_retry X k (X.retry_error o) r n') (checked_response o) n'
        (post-All k (X.retry_error o) r n' p (p, h)) (p, h)

-- A request that an event has a selected hook send: it connects to a global address that the name
-- of the hook's URL was resolved to, asks for that name in TLS, carries the event, and is signed
-- with the HMAC, under the hook's secret, of its time, a dot and the sorted text of its payload.
pub record IsProper (X : Outside) (e : Notice) (severity : String) (ws : List Webhook) (r : Request)
    : Type 0 where
  pub hook : Webhook
  pub listed : In hook ws
  pub chosen : is_chosen X hook e.event severity ≡ true
  pub parsed : Url
  pub parses : X.urlparse hook.url ≡ some parsed
  pub hostname : String
  pub named : nonempty parsed.hostname ≡ some hostname
  pub resolved : target X hostname ≡ pinned r.address
  pub public : IsPublic X r.address
  pub url : r.url ≡ hook.url
  pub sni : (X.libraries.read_url hook.url).scheme ≡ "https" → r.sni_hostname ≡ some hostname
  pub secret : String
  pub opened : X.decrypt hook.secret_encrypted hook.secret_salt ≡ some secret
  pub signed :
      r.signature
      ≡ append "sha256="
          (X.libraries.hmac secret (append r.timestamp (append "." (X.libraries.dumps r.body))))
  pub event : r.body.event ≡ e.event
  pub content : r.body.content ≡ e.content

module _ (X : Outside) (e : Notice) (severity : String) (all_ : List Webhook) where
  open X use {urlparse, decrypt, libraries}

  abbrev Proper : Request → Type 0
  Proper = IsProper X e severity all_

  request_of-IsProper :
      (w : Webhook) (u : Url) (hostname ip secret : String)
      → In w all_
      → is_chosen X w e.event severity ≡ true
      → urlparse w.url ≡ some u
      → nonempty u.hostname ≡ some hostname
      → target X hostname ≡ pinned ip
      → decrypt w.secret_encrypted w.secret_salt ≡ some secret
      → Proper (request_of libraries e secret w.url hostname ip)
  unfolding request_of
  request_of-IsProper w u hostname ip secret l c p q t d = record {
    hook = w;
    listed = l;
    chosen = c;
    parsed = u;
    parses = p;
    hostname = hostname;
    named = q;
    resolved = t;
    public = target-IsPublic X hostname ip t;
    url = refl;
    sni = λ s. rw s refl;
    secret = secret;
    opened = d;
    signed = refl;
    event = refl;
    content = refl;
  }

  -- What a delivery leaves: a sound hook, if any, and proper requests only.
  abbrev Safe : Option Webhook × Net → Type 0
  Safe r = elim r.0 [ none ↦ Unit {0} | some w ↦ IsSound w ] × All Proper r.1.sent

  if-Safe :
      (b : Bool) (x y : Option Webhook × Net)
      → (b ≡ true → Safe x)
      → Safe y
      → Safe (if b then x else y)
  if-Safe true x y a c = a refl
  if-Safe false x y a c = c

  module _ (w : Webhook) (n : Net) (s : IsSound w) (h : All Proper n.sent) (l : In w all_)
      (c : is_chosen X w e.event severity ≡ true) where
    decrypt-Safe :
        (u : Url) (hostname ip : String) (o : Option String)
        → urlparse w.url ≡ some u
        → nonempty u.hostname ≡ some hostname
        → target X hostname ≡ pinned ip
        → decrypt w.secret_encrypted w.secret_salt ≡ o
        → let r = after_decrypt X e w hostname ip o n in IsSound r.0 × All Proper r.1.sent
    unfolding after_decrypt
    decrypt-Safe u hostname ip none p q t d = (s, h)
    decrypt-Safe u hostname ip (some secret) p q t d =
        let r = request_of libraries e secret w.url hostname ip in
        (
          after_delivery-IsSound X e.now w (post_with_retry X 3 "" r n).0 s,
          post-All X Proper 3 "" r n (request_of-IsProper w u hostname ip secret l c p q t d) h,
        )

    deliver-Safe :
        (u : Url) (hostname : String) (o : Target)
        → urlparse w.url ≡ some u
        → nonempty u.hostname ≡ some hostname
        → target X hostname ≡ o
        → Safe (deliver X e w hostname o n)
    unfolding deliver
    deliver-Safe u hostname blocked p q t = (s, h)
    deliver-Safe u hostname unresolved p q t = (tt, h)
    deliver-Safe u hostname (pinned ip) p q t =
        decrypt-Safe u hostname ip (decrypt w.secret_encrypted w.secret_salt) p q t refl

    url-Safe :
        (u : Url) (o : Option String)
        → urlparse w.url ≡ some u
        → nonempty u.hostname ≡ o
        → Safe (dispatch_url X e w u o n)
    unfolding dispatch_url
    url-Safe u none p q = (s, h)
    url-Safe u (some hostname) p q =
        if-Safe _ (deliver X e w hostname (target X hostname) n)
          (some (record w { last_status = some invalid_url }), n)
          (λ b. deliver-Safe u hostname (target X hostname) p q refl) (s, h)

    parsed-Safe : (o : Option Url) → urlparse w.url ≡ o → Safe (dispatch_parsed X e w o n)
    unfolding dispatch_parsed
    parsed-Safe none p = (tt, h)
    parsed-Safe (some u) p = url-Safe u (nonempty u.hostname) p refl

    dispatch-Safe : Safe (dispatch_one X e w n)
    unfolding dispatch_one
    dispatch-Safe = parsed-Safe (urlparse w.url) refl

  abbrev SoundOnes : Option (List Webhook) → Type 0
  SoundOnes none = Unit {0}
  SoundOnes (some ws) = All IsSound ws

  -- What the loop leaves: sound hooks, if it ended, and proper requests only.
  abbrev AllSafe : Option (List Webhook) × Net → Type 0
  AllSafe r = SoundOnes r.0 × All Proper r.1.sent

  others-IsSound :
      (w : Webhook) (o : Option (List Webhook))
      → IsSound w
      → SoundOnes o
      → SoundOnes (before_others X (some w) o)
  unfolding before_others
  others-IsSound w none s h = tt
  others-IsSound w (some ws) s h = (s, h)

  go_on-AllSafe :
      (first : Option Webhook × Net) (rest : Option (List Webhook) × Net)
      → Safe first
      → AllSafe rest
      → AllSafe (go_on X first rest)
  unfolding go_on
  go_on-AllSafe (none, n) rest f r = (tt, f.1)
  go_on-AllSafe (some w, n) rest f r = (others-IsSound w rest.0 f.0 r.0, r.1)

  dispatch_all-AllSafe :
      (ws : List Webhook) (n : Net)
      → ((w : Webhook) → In w ws → In w all_)
      → All IsSound ws
      → All Proper n.sent
      → AllSafe (dispatch_all X e severity ws n)
  unfolding dispatch_all
  dispatch_all-AllSafe [] n m s h = (tt, h)
  dispatch_all-AllSafe (w ∷ ws) n m s h =
      let chosen = is_chosen X w e.event severity in
      let first = if chosen then dispatch_one X e w n else (some w, n) in
      let safe : Safe first =
        if-Safe chosen (dispatch_one X e w n) (some w, n)
          (λ c. dispatch-Safe w n s.0 h (m w (inl refl)) c) (s.0, h) in
      go_on-AllSafe first (dispatch_all X e severity ws first.1) safe
        (dispatch_all-AllSafe ws first.1 (λ v i. m v (inr i)) s.1 safe.1)

  commit_hooks-IsSound :
      (ws : List Webhook) (o : Option (List Webhook))
      → All IsSound ws
      → SoundOnes o
      → All IsSound (commit_hooks X ws o).1
  unfolding commit_hooks
  commit_hooks-IsSound ws none s h = s
  commit_hooks-IsSound ws (some vs) s h = elim (Bool-cases (all_fit X vs)) [
    | inl f ↦ rw f h
    | inr f ↦ rw f s
  ]

  commit_hooks-undone :
      (ws : List Webhook) (o : Option (List Webhook))
      → (commit_hooks X ws o).0 ≡ false
      → (commit_hooks X ws o).1 ≡ ws
  unfolding commit_hooks
  commit_hooks-undone ws none f = refl
  commit_hooks-undone ws (some vs) f = elim (Bool-cases (all_fit X vs)) [
    | inl q ↦ cc (rw q at f)
    | inr q ↦ rw q refl
  ]

-- Where every enabled hook has failed fewer than ten times in a row, an event keeps that for the
-- rows that it leaves, whatever the resolver, the cipher and the servers answer: where its one
-- commit is reached and succeeds, a hook that failed for the tenth time is switched off; otherwise
-- all rows are as before. Each request that it sends, retries included, is sent for a hook that it
-- selects, connects to a global address to which the name in the hook's URL was resolved, asks for
-- that name in TLS if the URL is https, carries the event, and is signed with the HMAC, under the
-- hook's secret, of its time, a dot and the sorted text of its payload.
pub fire_event-safe :
    (X : Outside) (e : Notice) (severity : String) (ws : List Webhook) (answers : List Outcome)
    → All IsSound ws
    → let n : Net = record { sent = []; answers = answers } in
      let r = fire_event X e severity ws n in
      All IsSound r.0.1 × (r.0.0 ≡ false → r.0.1 ≡ ws) × All (IsProper X e severity ws) r.1.sent
unfolding fire_event
fire_event-safe X e severity ws answers s =
    let n : Net = record { sent = []; answers = answers } in
    let loop = dispatch_all-AllSafe X e severity ws ws n (λ w i. i) s tt in
    let o = (dispatch_all X e severity ws n).0 in
    (
      commit_hooks-IsSound X e severity ws ws o s loop.0,
      commit_hooks-undone X e severity ws ws o,
      loop.1,
    )
