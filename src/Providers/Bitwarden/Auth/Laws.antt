-- ===== src/Providers/Bitwarden/Auth/Laws.antt =====
-- When a token exchange is a login.
use keyring_rs.Base.{ℕ, ◌≡◌, refl, ap, ◌↔◌, inl, inr, Bool-cases, Option, none, some, true, arith}
use keyring_rs.Base.Text.{Text}
use keyring_rs.Base.Result.{Result, ok, err, ok_or, and_then, continue}
use keyring_rs.Base.Run.{change_error}
use keyring_rs.Providers.Bitwarden.Auth.{
  BitwardenTokenResponse, success, two_factor, identity_failed, BitwardenTokenSuccessResponse,
  BitwardenAuthError, token_request, transport, identity_fail, two_factor_required,
  invalid_response, crypto_bootstrap, Http, HttpConfiguration, is_success, accept_token,
  refuse_token, judge_token, parse_token, token_post, request_api_key_token,
}

module _ {S E : Type 0} (http : Http S E) (C : Type 0) where
  judge_granted :
      (status : ℕ) (r : Result (BitwardenAuthError E C) BitwardenTokenSuccessResponse)
      {response : BitwardenTokenSuccessResponse}
      → judge_token status r ≡ ok response
      → (is_success status ≡ true) × (r ≡ ok response)
  unfolding judge_token refuse_token
  judge_granted status (ok a) h = elim (Bool-cases (is_success status)) [
    | inl e ↦ (e, ground arith)
    | inr e ↦ ground arith
  ]
  judge_granted status (err (token_request e')) h = ground arith
  judge_granted status (err (identity_fail e')) h = ground arith
  judge_granted status (err two_factor_required) h = ground arith
  judge_granted status (err invalid_response) h = ground arith
  judge_granted status (err (crypto_bootstrap e')) h = ground arith

  parse_granted :
      (body : http.Bytes) (o : Option BitwardenTokenResponse)
      {response : BitwardenTokenSuccessResponse}
      → http.decode_token body ≡ o
      → and_then (ok_or o invalid_response) (accept_token {E = E} {C = C}) ≡ ok response
      → http.decode_token body ≡ some (success response)
  unfolding accept_token
  parse_granted body none e h = cc h
  parse_granted body (some (success r)) e h = cc (e, h)
  parse_granted body (some (two_factor r)) e h = cc h
  parse_granted body (some (identity_failed r)) e h = cc h

  -- An exchange that was granted: the request was answered with a successful status, and with a body
  -- that decodes to the token.
  pub record Granted (config : HttpConfiguration) (client_id client_secret : Text) (st : S)
      (token : BitwardenTokenSuccessResponse) (st' : S) : Type 0 where
    pub response : http.Response
    pub between : S
    pub body : http.Bytes
    pub posted :
        http.post (token_post http C config client_id client_secret) st ≡ (ok response, between)
    pub read : http.bytes response between ≡ (ok body, st')
    pub successful : is_success (http.status response) ≡ true
    pub decoded : http.decode_token body ≡ some (success token)

  module _ (config : HttpConfiguration) (client_id client_secret : Text) where
    abbrev reading :
        http.Response
        → Result E http.Bytes × S
        → Result (BitwardenAuthError E C) BitwardenTokenSuccessResponse × S
    reading response r =
        continue (change_error (λ error. token_request (transport error)) r)
          (λ body s. (judge_token (http.status response) (parse_token http C body), s))

    read-Granted :
        (st between st' : S) (response : http.Response) (r : Result E http.Bytes × S)
        (token : BitwardenTokenSuccessResponse)
        → http.post (token_post http C config client_id client_secret) st ≡ (ok response, between)
        → http.bytes response between ≡ r
        → reading response r ≡ (ok token, st')
        → Granted config client_id client_secret st token st'
    unfolding parse_token
    read-Granted st between st' response (err e, st2) token q q' h = cc h
    read-Granted st between st' response (ok body, st2) token q q' h =
        let j = judge_granted (http.status response) (parse_token http C body) (ap (λ p. p.0) h) in
        record {
          response = response;
          between = between;
          body = body;
          posted = q;
          read = cc (q', h);
          successful = j.0;
          decoded = parse_granted body (http.decode_token body) refl j.1;
        }

    post-Granted :
        (st st' : S) (r : Result E http.Response × S) (token : BitwardenTokenSuccessResponse)
        → http.post (token_post http C config client_id client_secret) st ≡ r
        → continue
            (change_error (λ error. token_request (transport error)) r)
            (λ response s. reading response (http.bytes response s))
          ≡ (ok token, st')
        → Granted config client_id client_secret st token st'
    post-Granted st st' (err e, st1) token q h = cc h
    post-Granted st st' (ok response, st1) token q h =
        read-Granted st st1 st' response (http.bytes response st1) token q refl h

    Granted-request :
        (st st' : S) (token : BitwardenTokenSuccessResponse)
        → Granted config client_id client_secret st token st'
        → request_api_key_token http C config client_id client_secret st ≡ (ok token, st')
    unfolding request_api_key_token judge_token parse_token accept_token
    Granted-request st st' token g = simp (g.posted, g.read, g.successful, g.decoded)

    -- A token exchange succeeds exactly if the request is answered with a successful status and a body
    -- that decodes to a success payload, which is then the result.
    pub request_api_key_token-Granted :
        (st st' : S) (token : BitwardenTokenSuccessResponse)
        → (request_api_key_token http C config client_id client_secret st ≡ (ok token, st'))
          ↔ Granted config client_id client_secret st token st'
    unfolding request_api_key_token
    request_api_key_token-Granted st st' token = (
      λ h.
          post-Granted st st' (http.post (token_post http C config client_id client_secret) st)
            token refl h,
      λ g. Granted-request st st' token g,
    )
