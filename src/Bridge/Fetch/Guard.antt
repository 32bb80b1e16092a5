-- ===== src/Bridge/Fetch/Guard.antt =====
-- pkg/bridge/fetch.go: what a Fetch request of one client can do to the others.
use Prim.Native.String.{◌++◌}
use foxbridge.Common.{
  differ, string_discrete, ℕ, String, ◌≡◌, ◌≢◌, refl, sym, ◌∙◌, subst⁻¹, inl, inr, Bool, true,
  false, Option, none, some, ◌>>=◌, arith, string_key, Option-cases, is_some, ◌==◌, if◌then◌else◌,
  not, ◌&&◌,
}
use foxbridge.Dict.{get, dict_laws}
use foxbridge.Cdp.Message.{Message}
use foxbridge.Cdp.Session.{SessionManager}
use foxbridge.Bridge.Ownership.Requests.{request_owned, clear_request}
use foxbridge.Bridge.Fetch.{set_fetch_patterns, clear_fetch_patterns}
use foxbridge.Bridge.Fetch.Calls.{
  Params, continue_params, fulfill_params, fail_params, auth_params, response_params,
}
use foxbridge.Bridge.Fetch.Handler.{
  Codec, FetchState, Outcome, Reply, relay, owns_request, refused, handle_fetch, fetch_method,
  enable, disable, get_response_body, forward,
}

get_body-other :
    (◌≢◌ {A = String} "Fetch.getResponseBody" "Fetch.enable")
    × (◌≢◌ {A = String} "Fetch.getResponseBody" "Fetch.disable")
    × (◌≢◌ {A = String} "Fetch.getResponseBody" "Fetch.continueRequest")
    × (◌≢◌ {A = String} "Fetch.getResponseBody" "Fetch.fulfillRequest")
    × (◌≢◌ {A = String} "Fetch.getResponseBody" "Fetch.failRequest")
    × (◌≢◌ {A = String} "Fetch.getResponseBody" "Fetch.continueWithAuth")
unfolding string_discrete
get_body-other = (
  differ {K = String} _ _ refl,
  differ {K = String} _ _ refl,
  differ {K = String} _ _ refl,
  differ {K = String} _ _ refl,
  differ {K = String} _ _ refl,
  differ {K = String} _ _ refl,
)

module _ {Regexp B : Type 0} (codec : Codec Regexp) (is_bidi : Bool)
    (call : B → String → String → Params → B × Reply) (sessions : SessionManager) where
  abbrev handled : FetchState Regexp B → Option ℕ → Message → FetchState Regexp B × Outcome
  handled = handle_fetch codec is_bidi call sessions

  handle_fetch-refused :
      (s : FetchState Regexp B) (c : ℕ) (msg : Message)
      → msg.method ≢ "Fetch.enable"
      → msg.method ≢ "Fetch.disable"
      → ((id : String)
          → msg.params >>= codec.request_id ≡ some id
          → request_owned s.ownership msg.session_id id ≡ false)
      → handle_fetch codec is_bidi call sessions s (some c) msg
        ≡ (s, refused 31999 "request not found")
  unfolding handle_fetch
  handle_fetch-refused s c msg e d h = elim (Option-cases (msg.params >>= codec.request_id)) [
    | inl n ↦ ground arith
    | inr (id, i) ↦ ground (arith, h id i)
  ]

  module _ (k : String) (s : FetchState Regexp B) (msg : Message) (other : k ≢ msg.session_id) where
    record Keeps (out : FetchState Regexp B × Outcome) : Type 0 where
      kept : get out.0.fetch_patterns k ≡ get s.fetch_patterns k

    enable-Keeps : Keeps (enable codec is_bidi call sessions s msg)
    unfolding enable set_fetch_patterns clear_fetch_patterns
    enable-Keeps = record { kept = grind (arith, dict_laws) }

    disable-Keeps : Keeps (disable codec is_bidi call sessions s msg)
    unfolding disable clear_fetch_patterns
    disable-Keeps = record { kept = grind (arith, dict_laws) }

    get_response_body-Keeps : Keeps (get_response_body codec is_bidi call sessions s msg)
    unfolding get_response_body
    get_response_body-Keeps = record { kept = ground arith }

    relay-Keeps :
        {P : Type 0} (juggler_method bidi_method : String) (m : Message) (translate : P → Params)
        (decoded : Option P)
        → Keeps (relay codec is_bidi call sessions s m juggler_method bidi_method translate decoded)
    unfolding forward
    relay-Keeps juggler_method bidi_method m translate none = record { kept = refl }
    relay-Keeps juggler_method bidi_method m translate (some p) = record { kept = refl }

    unchanged-Keeps : (out : Outcome) → Keeps (s, out)
    unchanged-Keeps out = record { kept = refl }

    choice-Keeps :
        (b : Bool) (x y : FetchState Regexp B × Outcome)
        → Keeps x
        → Keeps y
        → Keeps (if b then x else y)
    choice-Keeps true x y h k = h
    choice-Keeps false x y h k = k

    fetch_method-Keeps : Keeps (fetch_method codec is_bidi call sessions s msg)
    unfolding fetch_method
    fetch_method-Keeps = choice-Keeps (msg.method == "Fetch.enable") _ _ enable-Keeps (
        choice-Keeps (msg.method == "Fetch.disable") _ _ disable-Keeps (
          choice-Keeps (msg.method == "Fetch.continueRequest") _ _
            (relay-Keeps "Network.resumeInterceptedRequest" "Browser.continueInterceptedRequest" msg
              continue_params (msg.params >>= codec.continue_request))
            (choice-Keeps (msg.method == "Fetch.fulfillRequest") _ _
              (relay-Keeps "Network.fulfillInterceptedRequest" "Browser.fulfillInterceptedRequest"
                msg fulfill_params (msg.params >>= codec.fulfill_request))
              (choice-Keeps (msg.method == "Fetch.failRequest") _ _
                (relay-Keeps "Network.abortInterceptedRequest" "Browser.abortInterceptedRequest" msg
                  fail_params (msg.params >>= codec.fail_request))
                (choice-Keeps (msg.method == "Fetch.continueWithAuth") _ _
                  (relay-Keeps "Browser.handleAuthRequest" "Browser.handleAuthRequest"
                    (record msg { session_id = "" }) auth_params (msg.params >>= codec.auth))
                  (choice-Keeps (msg.method == "Fetch.getResponseBody") _ _ get_response_body-Keeps
                    (choice-Keeps (msg.method == "Fetch.continueResponse") _ _
                      (relay-Keeps "Network.resumeInterceptedRequest"
                        "Browser.continueInterceptedRequest" msg response_params
                        (msg.params >>= codec.continue_response))
                      (unchanged-Keeps (refused 32600 ("method not found: " ++ msg.method))))))))))

    -- Whatever a Fetch message asks for and however the backend answers, the filters of every
    -- session other than the one that the message names stay as they were.
    pub handle_fetch-Keeps :
        (conn : Option ℕ)
        → get (handle_fetch codec is_bidi call sessions s conn msg).0.fetch_patterns k
          ≡ get s.fetch_patterns k
    unfolding handle_fetch
    handle_fetch-Keeps conn =
        (choice-Keeps
          (is_some conn
            && not (msg.method == "Fetch.enable")
            && not (msg.method == "Fetch.disable")
            && not
                (owns_request codec is_bidi call sessions s msg (msg.params >>= codec.request_id)))
          _ _ (unchanged-Keeps (refused 31999 "request not found")) fetch_method-Keeps).kept

  clear_request-unowned :
      (s : FetchState Regexp B) (session_id id : String)
      → request_owned (clear_request s.ownership id) session_id id ≡ false
  unfolding request_owned clear_request
  clear_request-unowned s session_id id = grind (arith, dict_laws)

  get_response_body-unowned :
      (s : FetchState Regexp B) (msg : Message) (id session_id : String)
      → msg.params >>= codec.request_id ≡ some id
      → (get_response_body codec is_bidi call sessions s msg).1.1 ≡ none
      → request_owned
          (get_response_body codec is_bidi call sessions s msg).0.ownership
          session_id
          id
        ≡ false
  unfolding get_response_body
  get_response_body-unowned s msg id session_id i ok =
      ground (arith, clear_request-unowned s session_id id)

  get_body-chosen :
      (s : FetchState Regexp B) (msg : Message)
      → msg.method ≡ "Fetch.getResponseBody"
      → fetch_method codec is_bidi call sessions s msg
        ≡ get_response_body codec is_bidi call sessions s msg
  unfolding fetch_method
  get_body-chosen s msg h =
      let (a, b, c, d, e, f) = get_body-other in ground (arith, a, b, c, d, e, f)

  guarded-passed :
      (s : FetchState Regexp B) (conn : Option ℕ) (msg : Message)
      → (handled s conn msg).1.1 ≡ none
      → handled s conn msg ≡ fetch_method codec is_bidi call sessions s msg
  unfolding handle_fetch
  guarded-passed s conn msg ok = ground arith

  -- In the state that `Fetch.getResponseBody` leaves after it has returned the body of a request
  -- without an error, a Fetch message of any client for that request, other than enable and
  -- disable, changes nothing and is answered by the error "request not found".
  pub get_response_body_once :
      (s : FetchState Regexp B) (conn : Option ℕ) (c : ℕ) (msg again : Message) (id : String)
      → msg.method ≡ "Fetch.getResponseBody"
      → msg.params >>= codec.request_id ≡ some id
      → (handle_fetch codec is_bidi call sessions s conn msg).1.1 ≡ none
      → again.method ≢ "Fetch.enable"
      → again.method ≢ "Fetch.disable"
      → again.params >>= codec.request_id ≡ some id
      → handle_fetch codec is_bidi call sessions
          (handle_fetch codec is_bidi call sessions s conn msg).0
          (some c)
          again
        ≡ (
          (handle_fetch codec is_bidi call sessions s conn msg).0,
          refused 31999 "request not found",
        )
  get_response_body_once s conn c msg again id h i ok e d j =
      let same = guarded-passed s conn msg ok ∙ get_body-chosen s msg h in
      let body = get_response_body codec is_bidi call sessions s msg in
      handle_fetch-refused (handled s conn msg).0 c again e d (λ id' k.
        let same_id : id ≡ id' = ground arith in
        subst⁻¹ (λ x. request_owned x.0.ownership again.session_id id' ≡ false) same
          (subst⁻¹ (λ x. request_owned body.0.ownership again.session_id x ≡ false) (sym same_id)
            (get_response_body-unowned s msg id again.session_id i
              (subst⁻¹ (λ x. x.1.1 ≡ none) (sym same) ok))))
