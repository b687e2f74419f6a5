-- ===== src/Bff/Client.antt =====
-- client.go of pkg/bff: the requests to the services. The network is a parameter.
use Prim.Native.String.{String, len}
use hire_flow.Prelude.{
  ℕ, Bool, ◌||◌, Option, none, some, List, [], ◌∷◌, ◌==◌, if◌then◌else◌, ltb, leb, not,
}
use hire_flow.Prelude.Table.{is_some}
use hire_flow.Bff.Types.{
  Response, relayed, service_unavailable, Verb, Outgoing, Incoming, World, Handler,
}
use hire_flow.Bff.Auth.{write_error}

-- Whether `http.NewRequestWithContext` makes a request of the URL of
-- a service and a path; what `http.Client.Do` gives for the
-- next request after those that were sent, which is `none` if it fails; and whether the body of an
-- answer can be read to its end.
pub record Net : Type 0 where
  pub well_formed : String → String → Bool
  pub round_trip : List Outgoing → Outgoing → Option Incoming
  pub readable : Incoming → Bool

-- the header `X-User-ID` for the user in the context
abbrev pub user_header : String → Option String
user_header user = if len user == 0 then none else some user

-- What `Do` is given: no body, a body that was marshalled, or one that cannot be.
pub data Payload : Type 0 where
  no_body unmarshalable : Payload
  marshalled : String → Payload

-- What `Do` returns: an error, an `APIError`, or nothing, with what stands at `dest`.
pub data Fetched (A : Type 0) : Type 0 where
  failed : Fetched A
  api_error : ℕ → String → Fetched A
  fetched : A → Fetched A

module _ (net : Net) (service : String) where
  abbrev pub outgoing : Verb → String → Option String → String → Outgoing
  outgoing verb path body user = record {
    service = service;
    verb = verb;
    path = path;
    content_type_json = is_some body;
    user_header = user_header user;
    body = body;
  }

  abbrev pub log : {L : Type 0} → Outgoing → World L → World L
  log o w = record w { sent = o ∷ w.sent }

  module _ {A : Type 0} (decode : String → Option A) where
    abbrev decoded : Option A → Fetched A
    decoded none = failed
    decoded (some a) = fetched a

    abbrev received : Option Incoming → Fetched A
    received none = failed
    received (some i) =
        if not (net.readable i)
        then failed
        else if ltb i.status 200 || leb 300 i.status
        then api_error i.status i.body
        else decoded (decode i.body)

    abbrev send : {L : Type 0} → Outgoing → World L → Fetched A × World L
    send o w = (received (net.round_trip w.sent o), log o w)

    -- `Do`; without a `dest`, `decode` takes any text
    unfoldable pub service_do :
        {L : Type 0} → Verb → String → Payload → String → World L → Fetched A × World L
    service_do verb path unmarshalable user w = (failed, w)
    service_do verb path no_body user w =
        if not (net.well_formed service path)
        then (failed, w)
        else send (outgoing verb path none user) w
    service_do verb path (marshalled b) user w =
        if not (net.well_formed service path)
        then (failed, w)
        else send (outgoing verb path (some b) user) w

  abbrev passed : Option Incoming → Response
  passed none = write_error 502 (service_unavailable service)
  passed (some i) = record { status = i.status; cookies = []; body = relayed i.content_type i.body }

  -- `Forward`; a body that breaks off is passed on as far as it goes
  unfoldable pub forward : {L : Type 0} → Verb → String → Option String → Handler L
  forward verb path body r w =
      let o = outgoing verb path body r.user_id in
      if not (net.well_formed service path)
      then (write_error 502 (service_unavailable service), w)
      else (passed (net.round_trip w.sent o), log o w)
