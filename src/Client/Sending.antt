-- ===== src/Client/Sending.antt =====
-- What a request comes to, by the answer to it.
use kiln_cms.Prelude.{◌≡◌, refl, false, Option, none, some, Text, is_empty, Result, err, ok}
use kiln_cms.Json.{Json}
use kiln_cms.JsonApi.{Params, Signal}
use kiln_cms.Errors.{KilnHttpError, http, Thrown, http_error, new_http_error, parse_retry_after}
use kiln_cms.Client.{
  KilnClient, Platform, Request, Response, request_of, url_of, on_response, success_body, send,
  request, requested, error_body,
}

-- A request that is answered 200 with a JSON value.
abbrev pub IsAnswered : {S : Type 0} → Platform S → Request → S → S → Json → Type 0
IsAnswered platform req s t j =
    (text : Text) × (platform.fetch req s
      ≡ (t, ok (record { status = 200; retry_after = none; text = ok text })))
    × (is_empty text ≡ false)
    × (platform.parse_json text ≡ some j)

-- A request that is answered 503.
abbrev pub IsBusy : {S : Type 0} → Platform S → Request → S → S → Type 0
IsBusy platform req s t =
    (retry_after : Option Text) × (text : Result Thrown Text) × (platform.fetch req s
      ≡ (t, ok (record { status = 503; retry_after = retry_after; text = text })))

module _ {S : Type 0} (platform : Platform S) (client : KilnClient) where
  -- The request that a call of `request` sends.
  abbrev pub get_request : Text → Text → Params → Option Signal → Text → S → Request
  get_request method path params signal accept s =
      request_of client method path (requested params signal accept) (platform.now s)

  pub request-answered :
      (method path : Text) (params : Params) (signal : Option Signal) (accept : Text) (s t : S)
      (j : Json)
      → IsAnswered platform (get_request method path params signal accept s) s t j
      → request platform client method path params signal accept s ≡ (t, ok j)
  unfolding request send on_response success_body
  request-answered method path params signal accept s t j (text, sent, full, parsed) =
      rw (sent, full, parsed) refl

  pub request-busy :
      (method path : Text) (params : Params) (signal : Option Signal) (accept : Text) (s t : S)
      → IsBusy platform (get_request method path params signal accept s) s t
      → (error : KilnHttpError) × (request platform client method path params signal accept s
          ≡ (t, err (http error)))
        × (error.status ≡ 503)
  unfolding request send on_response http_error new_http_error
  request-busy method path params signal accept s t (retry_after, text, sent) =
      let response : Response = record { status = 503; retry_after = retry_after; text = text } in
      (
        http_error 503 (url_of client path params) (error_body platform response)
            (parse_retry_after platform.parse_date retry_after (platform.now t)),
        rw sent refl,
        refl,
      )
