-- ===== src/Cli/Handle/Laws.antt =====
-- One response for each request, in order, and when the loop of `handle` ends.
use keyring_rs.Base.{
  ◌+◌, ◌≡◌, refl, ◌≢◌, inl, inr, ap, Bool, true, false, ◌||◌, List, [], ◌∷◌, ◌++◌, Option, none,
  some, leb, if◌then◌else◌, ◌∙◌, All, Option-cases, arith,
}
use keyring_rs.Base.Result.{Result, ok}
use keyring_rs.Cli.Handle.{
  Incoming, request, Round, HandleError, Response, finished, Served, to_response, wrote, ended,
  respond, handle, request_timeout,
}

-- The request of a round that is read and answered in time, if there is one.
abbrev pub served : {Req X : Type 0} → Round Req X → Option Req
served {Req} {X} round = go round.stopped round.changed round.incoming round.sent
  where
    go : Bool → Bool → Incoming Req X → Result X (Unit {0}) → Option Req
    go false false (request req) (ok u) =
        if leb (round.handle_time + round.send_time) request_timeout then some req else none
    go _ _ _ _ = none

-- The requests of the rounds up to the first that serves none.
abbrev pub all_served : {Req X : Type 0} → List (Round Req X) → List Req
all_served [] = []
all_served (round ∷ rounds) =
    let rest = all_served rounds in elim (served round) [ some req ↦ req ∷ rest | none ↦ [] ]

module _ {T Req Res X : Type 0} (answer : Req → T → Result (HandleError X) Res × T) where
  -- The responses to a list of requests, one after another, and the session after them.
  abbrev pub replies : List Req → T → List (Response Res)
  replies [] t = []
  replies (req ∷ reqs) t = to_response answer (answer req t).0 ∷ replies reqs (answer req t).1

  abbrev pub after : List Req → T → T
  after [] t = t
  after (req ∷ reqs) t = after reqs (answer req t).1

  respond-served :
      (round : Round Req X) (r : Result (HandleError X) Res × T) (rest : T → Served T Res X)
      → leb (round.handle_time + round.send_time) request_timeout ≡ true
      → round.sent ≡ ok tt
      → respond answer round r rest ≡ wrote answer (to_response answer r.0) (rest r.1)
  unfolding respond
  respond-served round r rest h e = ground arith

  -- A round that serves a request writes its response and goes on; any other round ends the loop
  -- with nothing more written.
  handle-cons :
      (round : Round Req X) (rounds : List (Round Req X)) (t : T)
      → ((req : Req)
          → served round ≡ some req
          → handle answer (round ∷ rounds) t
            ≡ wrote answer
                (to_response answer (answer req t).0)
                (handle answer rounds (answer req t).1))
        × (served round ≡ none
            → ((handle answer (round ∷ rounds) t).written ≡ [])
              × ((handle answer (round ∷ rounds) t).end ≢ none))
  unfolding handle
  handle-cons round rounds t = (λ req h. ground arith, λ h. ground arith)

  -- The responses written are the replies of the session to the requests served, in order: one for
  -- each, errors as failures, and none for a request that comes with or after the end of the loop.
  pub handle-replies :
      (rounds : List (Round Req X)) (t : T)
      → (handle answer rounds t).written ≡ replies (all_served rounds) t
  unfolding handle
  handle-replies [] t = refl
  handle-replies (round ∷ rounds) t = elim (Option-cases (served round)) [
    | inl ends ↦ rw (ends, all_served) ((handle-cons round rounds t).1 ends).0
    | inr (req, e) ↦
        rw (e, all_served, (handle-cons round rounds t).0 req e)
          (ap (λ rs. to_response answer (answer req t).0 ∷ rs)
            (handle-replies rounds (answer req t).1))
  ]

  handle-stopped :
      (round : Round Req X) (rounds : List (Round Req X)) (t : T)
      → (round.stopped || round.changed) ≡ true
      → handle answer (round ∷ rounds) t ≡ ended answer t finished
  unfolding handle
  handle-stopped round rounds t h = ground arith

  -- A stop lets the requests read before it be answered, and then ends the loop at once: later
  -- rounds, whatever the client has queued, are not read.
  pub handle_stop :
      (before : List (Round Req X)) (round : Round Req X) (rounds : List (Round Req X)) (t : T)
      → All (λ r. (req : Req) × (served r ≡ some req)) before
      → (round.stopped || round.changed) ≡ true
      → handle answer (before ++ round ∷ rounds) t ≡ record {
        session = after (all_served before) t;
        written = replies (all_served before) t;
        end = some finished;
      }
  handle_stop [] round rounds t h stop = handle-stopped round rounds t stop
  handle_stop (r ∷ before) round rounds t h stop =
      let (req, e) = h.0 in
      (handle-cons r (before ++ round ∷ rounds) t).0 req e
      ∙ rw (e, all_served)
          (ap (wrote answer (to_response answer (answer req t).0))
            (handle_stop before round rounds (answer req t).1 h.1 stop))
