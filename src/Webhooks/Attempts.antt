-- ===== src/Webhooks/Attempts.antt =====
-- How many requests an event sends.
use kepryx.Base.{
  ℕ, zero, suc, ◌+◌, ◌*◌, ◌≤◌, String, Bool, true, false, Option, none, some, List, [], ◌∷◌, keep,
  length, arith, Bool-cases, inl, inr, if◌then◌else◌,
}
use kepryx.Webhooks.Requests.{Request, Notice, request_of}
use kepryx.Webhooks.{
  Webhook, invalid_url, Net, Url, Outside, Outcome, response, http_error, other_error, Posted,
  Target, pinned, blocked, unresolved, next_answer, checked_response, after_post, post_with_retry,
  after_decrypt, deliver, dispatch_url, dispatch_parsed, dispatch_one, go_on, dispatch_all,
  fire_event, target, is_chosen,
}

module _ (X : Outside) where
  after_post_most :
      (again : Posted × Net) (o : Outcome) (n : Net) (m : ℕ)
      → length again.1.sent ≤ m
      → length n.sent ≤ m
      → length (after_post again o n).1.sent ≤ m
  unfolding after_post
  after_post_most again (response c) n m a b = b
  after_post_most again http_error n m a b = a
  after_post_most again (other_error text) n m a b = b

  post_most :
      (k : ℕ) (text : String) (n : Net) (r : Request)
      → length (post_with_retry X k text r n).1.sent ≤ k + length n.sent
  unfolding post_with_retry
  post_most zero text n r = omega arith
  post_most (suc k) text n r =
      let o = (next_answer n.answers).0 in
      let n' : Net = record { sent = r ∷ n.sent; answers = (next_answer n.answers).1 } in
      let rest = post_most k (X.retry_error o) n' r in
      after_post_most (post_with_retry X k (X.retry_error o) r n') (checked_response o) n'
        (suc k + length n.sent) (omega (arith, rest)) (omega arith)

  module _ (e : Notice) (w : Webhook) (n : Net) where
    decrypt_most :
        (hostname ip : String) (o : Option String)
        → length (after_decrypt X e w hostname ip o n).1.sent ≤ 3 + length n.sent
    unfolding after_decrypt
    decrypt_most hostname ip none = omega arith
    decrypt_most hostname ip (some secret) =
        post_most 3 "" n (request_of X.libraries e secret w.url hostname ip)

    deliver_most :
        (hostname : String) (t : Target)
        → length (deliver X e w hostname t n).1.sent ≤ 3 + length n.sent
    unfolding deliver
    deliver_most hostname blocked = omega arith
    deliver_most hostname unresolved = omega arith
    deliver_most hostname (pinned ip) =
        decrypt_most hostname ip (X.decrypt w.secret_encrypted w.secret_salt)

    url_most :
        (u : Url) (o : Option String) → length (dispatch_url X e w u o n).1.sent ≤ 3 + length n.sent
    unfolding dispatch_url
    url_most u none = omega arith
    url_most u (some hostname) =
        if-most _ (deliver X e w hostname (target X hostname) n)
          (some (record w { last_status = some invalid_url }), n)
          (deliver_most hostname (target X hostname)) (omega arith)
      where
        if-most :
            (b : Bool) (x y : Option Webhook × Net)
            → length x.1.sent ≤ 3 + length n.sent
            → length y.1.sent ≤ 3 + length n.sent
            → length (if b then x else y).1.sent ≤ 3 + length n.sent
        if-most true x y p q = p
        if-most false x y p q = q

    parsed_most : (o : Option Url) → length (dispatch_parsed X e w o n).1.sent ≤ 3 + length n.sent
    unfolding dispatch_parsed
    parsed_most none = omega arith
    parsed_most (some u) = url_most u _

    dispatch_most : length (dispatch_one X e w n).1.sent ≤ 3 + length n.sent
    unfolding dispatch_one
    dispatch_most = parsed_most (X.urlparse w.url)

  go_on_most :
      (first : Option Webhook × Net) (rest : Option (List Webhook) × Net) (m : ℕ)
      → length first.1.sent ≤ m
      → length rest.1.sent ≤ m
      → length (go_on X first rest).1.sent ≤ m
  unfolding go_on
  go_on_most (none, n) rest m f r = f
  go_on_most (some w, n) rest m f r = r

  abbrev chosen_ones : Notice → String → List Webhook → List Webhook
  chosen_ones e severity ws = keep (λ w. is_chosen X w e.event severity) ws

  dispatch_all_most :
      (e : Notice) (severity : String) (ws : List Webhook) (n : Net)
      → length (dispatch_all X e severity ws n).1.sent
        ≤ 3 * length (chosen_ones e severity ws) + length n.sent
  unfolding dispatch_all
  dispatch_all_most e severity [] n = omega arith
  dispatch_all_most e severity (w ∷ ws) n = elim (Bool-cases (is_chosen X w e.event severity)) [
    | inl c ↦
        let first = dispatch_one X e w n in
        let one = dispatch_most e w n in
        let rest = dispatch_all_most e severity ws first.1 in
        rw c (
          go_on_most first (dispatch_all X e severity ws first.1) _ (omega (arith, one))
            (omega (arith, one, rest)))
    | inr c ↦ rw c (
        go_on_most (some w, n) (dispatch_all X e severity ws n) _ (omega arith)
          (dispatch_all_most e severity ws n))
  ]

-- An event sends at most three requests for each hook that it selects, whatever the resolver, the
-- cipher and the servers answer.
pub fire_event_attempts :
    (X : Outside) (e : Notice) (severity : String) (ws : List Webhook) (answers : List Outcome)
    → let n : Net = record { sent = []; answers = answers } in
      length (fire_event X e severity ws n).1.sent
      ≤ 3 * length (keep (λ w. is_chosen X w e.event severity) ws)
unfolding fire_event
fire_event_attempts X e severity ws answers =
    let most = dispatch_all_most X e severity ws (record { sent = []; answers = answers }) in
    omega (arith, most)
