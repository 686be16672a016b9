-- ===== src/Providers/Bitwarden/Session/Recovery.antt =====
-- How a sync can end.
use keyring_rs.Base.{
  ℕ, suc, ◌≡◌, ◌≢◌, ◌⊎◌, refl, sym, subst, Option-cases, inl, inr, true, false, Bool-cases, Option,
  none, some, ◌==◌, ==_iff,
}
use keyring_rs.Base.Text.{Text, text_eq, text_eq_iff}
use keyring_rs.Base.Result.{Result, ok, err, Run, ok_or, continue}
use keyring_rs.Base.Run.{change_error, change_error-ok, change_error-err, continue-elim}
use keyring_rs.Providers.Bitwarden.Config.{BitwardenProviderConfig}
use keyring_rs.Providers.Bitwarden.Models.{BitwardenSyncResponse}
use keyring_rs.Providers.Bitwarden.Auth.{is_success}
use keyring_rs.Providers.Bitwarden.KeyStore.{Crypto}
use keyring_rs.Providers.Bitwarden.Session.{
  State, login, token, sync_get, request_sync, retry, reject, read_sync, answer, attempts, sync,
  is_none, invalidate,
}
use keyring_rs.Providers.Bitwarden.Net.{
  Net, SyncError, auth_failed, request_failed, body_failed, still_unauthorized, bad_status,
  bad_json, missing_token, unreachable, Auth,
}

invalidate-token :
    (rejected : Text) (state : Auth)
    → ((invalidate rejected state).token ≡ none)
      ⊎ ((t : Text) × ((invalidate rejected state).token ≡ some t) × (text_eq t rejected ≡ false))
unfolding invalidate
invalidate-token rejected state = elim (Option-cases state.token) [
  | inl e ↦ inl (rw (invalidate, e) e)
  | inr (t, e) ↦ elim (Bool-cases (text_eq t rejected)) [
    | inl i ↦ inl (rw (invalidate, e, i) refl)
    | inr i ↦ inr (t, rw (invalidate, e, i) e, i)
  ]
]

invalidate-cleared :
    (rejected : Text) (state : Auth) → (invalidate rejected state).token ≢ some rejected
invalidate-cleared rejected state q = elim (invalidate-token rejected state) [
  | inl e ↦ cc (e, q)
  | inr (t, e, n) ↦ cc (e, q, n, (text_eq_iff rejected rejected).1 refl)
]

module _ {C : Crypto} {W E : Type 0} (net : Net C W E) where
  -- A vault came in a successful response.
  pub record Answered (vault : BitwardenSyncResponse) : Type 0 where
    pub response : net.http.Response
    pub body : net.http.Bytes
    pub before : State net
    pub after : State net
    pub successful : is_success (net.http.status response) ≡ true
    pub read : net.http.bytes response before ≡ (ok body, after)
    pub decoded : net.decode_sync body ≡ some vault

  -- The state `st` in which the answer 401 to a request has left the session: the request was made
  -- with the session's token, and in the state after the answer and the wait for the gate, that token is
  -- cleared, and nothing else.
  pub record Rejected (st : State net) : Type 0 where
    pub bearer : Text
    pub response : net.http.Response
    pub before : State net
    pub after : State net
    pub current : before.0.state.token ≡ some bearer
    pub requested : net.http.get (sync_get net before.0.api bearer) before ≡ (ok response, after)
    pub unauthorized : net.http.status response ≡ 401
    pub left : st ≡ reject net bearer (net.gate after)
    pub cleared : st.0.state.token ≢ some bearer

  -- The end of a sync: a vault that came in a success, a 401 whose token is cleared, or an error that is
  -- not the unreachable one.
  pub record Ended (r : Result (SyncError E) BitwardenSyncResponse × State net) : Type 0 where
    pub reached : r.0 ≢ err unreachable
    pub answered : (vault : BitwardenSyncResponse) → r.0 ≡ ok vault → Answered vault
    pub unauthorized : r.0 ≡ err still_unauthorized → Rejected r.1

  abbrev IsOther : SyncError E → Type 0
  IsOther e = (e ≢ unreachable) × (e ≢ still_unauthorized)

  Ended-other : (e : SyncError E) (st : State net) → IsOther e → Ended (err e, st)
  Ended-other e st h = record {
    reached = λ q. h.0 (cc q);
    answered = λ vault q. cc q;
    unauthorized = λ q. absurd (h.1 (cc q));
  }

  -- A failed part whose error is one of the others.
  IsOther-from :
      {F A : Type 0} (f : F → SyncError E)
      → ((x : F) → IsOther (f x))
      → (r : Result F A × State net) (e : SyncError E) → (change_error f r).0 ≡ err e
      → Ended (err e, (change_error f r).1)
  IsOther-from f other r e h =
      let q = change_error-err f r e h in
      Ended-other e (change_error f r).1 (subst IsOther (sym q.1) (other q.0))

  read_sync-Ended :
      (response : net.http.Response) (st : State net)
      → is_success (net.http.status response) ≡ true
      → Ended (read_sync net response st)
  unfolding read_sync
  read_sync-Ended response st good =
      continue-elim Ended (change_error body_failed (net.http.bytes response st)) _
        (λ body h.
          decode (net.decode_sync body) body
            (change_error body_failed (net.http.bytes response st)).1 refl
            (change_error-ok body_failed (net.http.bytes response st) body h))
        (λ e h.
          IsOther-from body_failed (λ x. (λ q. cc q, λ q. cc q)) (net.http.bytes response st) e h)
    where
      decode :
          (o : Option BitwardenSyncResponse) (body : net.http.Bytes) (after : State net)
          → net.decode_sync body ≡ o
          → net.http.bytes response st ≡ (ok body, after)
          → Ended (ok_or o bad_json, after)
      decode none body after d h = Ended-other bad_json after (λ q. cc q, λ q. cc q)
      decode (some vault) body after d h = record {
        reached = λ q. cc q;
        answered = λ v q. record {
          response = response;
          body = body;
          before = st;
          after = after;
          successful = good;
          read = h;
          decoded = cc (d, q);
        };
        unauthorized = λ q. cc q;
      }

  -- A response to a request with the token of the session.
  record Response (bearer : Text) (response : net.http.Response) (after : State net) : Type 0 where
    pub before : State net
    pub current : before.0.state.token ≡ some bearer
    pub requested : net.http.get (sync_get net before.0.api bearer) before ≡ (ok response, after)

  -- Only the second attempt says `still_unauthorized`, and only it ends after a 401.
  retry_last-Ended :
      (next : Run (State net) (SyncError E) BitwardenSyncResponse)
      (config : BitwardenProviderConfig) (rejected : Text) (response : net.http.Response)
      (st : State net)
      → Response rejected response st
      → net.http.status response ≡ 401
      → Ended (retry net next 1 config (reject net rejected (net.gate st)))
  unfolding retry
  retry_last-Ended next config rejected response st h e = record {
    reached = λ q. cc q;
    answered = λ vault q. cc q;
    unauthorized = λ _. record {
      bearer = rejected;
      response = response;
      before = h.before;
      after = st;
      current = h.current;
      requested = h.requested;
      unauthorized = e;
      left = refl;
      cleared = invalidate-cleared rejected (net.gate st).0.state;
    };
  }

  retry_first-Ended :
      (next : Run (State net) (SyncError E) BitwardenSyncResponse)
      (config : BitwardenProviderConfig) (st : State net)
      → ((st : State net) → Ended (next st))
      → Ended (retry net next 0 config st)
  unfolding retry
  retry_first-Ended next config (s, w) k = elim (Bool-cases (is_none s.state.token)) [
    | inl e ↦
        rw (retry, e)
          (continue-elim Ended (change_error auth_failed (login net config (s, w))) (λ _. next)
            (λ u h. k (change_error auth_failed (login net config (s, w))).1)
            (λ e h.
              IsOther-from auth_failed (λ x. (λ q. cc q, λ q. cc q)) (login net config (s, w)) e h))
    | inr e ↦ rw (retry, e) (k (s, w))
  ]

  answer-Ended :
      (next : Run (State net) (SyncError E) BitwardenSyncResponse) (attempt : ℕ)
      (config : BitwardenProviderConfig) (rejected : Text) (response : net.http.Response)
      (st : State net)
      → (net.http.status response ≡ 401
          → Ended (retry net next attempt config (reject net rejected (net.gate st))))
      → Ended (answer net next attempt config rejected response st)
  unfolding answer
  answer-Ended next attempt config rejected response st k =
      elim (Bool-cases (net.http.status response == 401)) [
        | inl e ↦ rw (answer, e) (k ((==_iff (net.http.status response) 401).0 e))
        | inr e ↦ elim (Bool-cases (is_success (net.http.status response))) [
          | inl q ↦ rw (answer, e, q) (read_sync-Ended response st q)
          | inr q ↦
              rw (answer, e, q)
                (Ended-other (bad_status (net.http.status response)) st (λ i. cc i, λ i. cc i))
        ]
      ]

  current-Ended :
      (f : Text → Run (State net) (SyncError E) BitwardenSyncResponse) (o : Option Text)
      (st : State net)
      → ((bearer : Text) → o ≡ some bearer → Ended (f bearer st))
      → Ended (continue (ok_or o missing_token, st) f)
  current-Ended f none st k = Ended-other missing_token st (λ q. cc q, λ q. cc q)
  current-Ended f (some bearer) st k = k bearer refl

  attempt-Ended :
      (n attempt : ℕ) (config : BitwardenProviderConfig)
      → ((rejected : Text) (response : net.http.Response) (st : State net)
          → Response rejected response st
          → Ended (
              answer net (attempts net n (suc attempt) config) attempt config rejected response st))
      → (st : State net) → Ended (attempts net (suc n) attempt config st)
  unfolding attempts request_sync
  attempt-Ended n attempt config k (s, w) =
      current-Ended _ s.state.token (s, w)
        (λ bearer current.
          let r = net.http.get (sync_get net s.api bearer) (s, w) in
          continue-elim Ended (change_error request_failed r) _
            (λ response h. k bearer response (change_error request_failed r).1 (record {
              before = (s, w);
              current = current;
              requested = change_error-ok request_failed r response h;
            }))
            (λ e h. IsOther-from request_failed (λ x. (λ q. cc q, λ q. cc q)) r e h))

  attempts-Ended :
      (config : BitwardenProviderConfig) (st : State net) → Ended (attempts net 2 0 config st)
  attempts-Ended config = attempt-Ended 1 0 config (λ rejected response st _.
      answer-Ended (attempts net 1 1 config) 0 config rejected response st (λ _.
        retry_first-Ended (attempts net 1 1 config) config (reject net rejected (net.gate st)) (
          attempt-Ended 0 1 config (λ rejected' response' st' h.
            answer-Ended (attempts net 0 2 config) 1 config rejected' response' st'
              (retry_last-Ended (attempts net 0 2 config) config rejected' response' st' h)))))

  -- Two attempts are enough: a sync returns a vault that was decoded from a successful response, or
  -- fails, and never leaves the loop without either. It fails as still unauthorized only where a request
  -- with the session's token was answered 401, and then it leaves the session as it was after that answer
  -- and the wait for the gate, with that token cleared.
  pub sync-Ended : (config : BitwardenProviderConfig) (st : State net) → Ended (sync net config st)
  unfolding sync
  sync-Ended config st =
      continue-elim Ended (change_error auth_failed (token net config st)) _
        (λ u h. attempts-Ended config (change_error auth_failed (token net config st)).1)
        (λ e h. IsOther-from auth_failed (λ x. (λ q. cc q, λ q. cc q)) (token net config st) e h)
