-- ===== src/Kernel/JsonRpc/Dispatch.antt =====
-- What Dispatch of internal/kernel/jsonrpc/server.go answers.
use payme_mock.Base.{◌≡◌, refl, inl, inr, Bool-cases, Option, none, some, []}
use payme_mock.Base.Text.{Text, is_empty}
use payme_mock.Base.Dict.{lookup, text_eq}
use payme_mock.Kernel.Effect.{Error, Result, ok, err}
use payme_mock.Kernel.JsonRpc.{
  Request, ErrorObject, Response, Json, Router, Handler, dispatch, run_handler, dispatch_request,
  error_from, answered,
}

abbrev pub request_id : Option Request → Text
request_id none = []
request_id (some req) = req.id

module _ {R : Type 0} where
  -- One of the two is set, and the other is not.
  abbrev pub OneSet : Option R → Option ErrorObject → Type 0
  OneSet (some r) none = Unit {0}
  OneSet none (some e) = Unit {0}
  OneSet _ _ = ⊥

abbrev pub Reply : {R : Type 0} → Text → Response R → Type 0
Reply id r = OneSet r.result r.error × (r.id ≡ id)

error_from-Reply : (R : Type 0) (id : Text) (e : Error) → Reply id (error_from {R = R} id e)
unfolding error_from
error_from-Reply R id (Error.protocol e) = (tt, refl)
error_from-Reply R id Error.not_found = (tt, refl)
error_from-Reply R id Error.duplicate = (tt, refl)
error_from-Reply R id (Error.other s) = (tt, refl)

module _ {W R : Type 0} where
  abbrev pub Replies : Text → Response R × W → Type 0
  Replies id (r, w) = Reply id r

  answered-Replies : (id : Text) (r : Result R) (w : W) → Replies id (answered id r, w)
  answered-Replies id (ok a) w = (tt, refl)
  answered-Replies id (err e) w = error_from-Reply R id e

  run_handler-Replies :
      (req : Request) (found : Option (Handler W R)) (w : W)
      → Replies req.id (run_handler req found w)
  run_handler-Replies req none w = (tt, refl)
  run_handler-Replies req (some handler) w =
      let (r, w') = handler req.params w in answered-Replies req.id r w'

  dispatch_request-Replies :
      (router : Router W R) (req : Option Request) (w : W)
      → Replies (request_id req) (dispatch_request router req w)
  dispatch_request-Replies router none w = (tt, refl)
  dispatch_request-Replies router (some req) w = elim (Bool-cases (is_empty req.method)) [
    | inl e ↦ rw (e, dispatch_request) (tt, refl)
    | inr e ↦ rw (e, dispatch_request) (run_handler-Replies req (lookup req.method router) w)
  ]

  -- Whatever the body, exactly one of `result` and `error` is set in the answer, and its id is the
  -- one that the request carried, which is empty where the body does not parse.
  pub dispatch-Replies :
      (json : Json R) (router : Router W R) (body : Text) (w : W)
      → Replies (request_id (json.request_of body)) (dispatch json router body w)
  unfolding dispatch
  dispatch-Replies json router body w = dispatch_request-Replies router (json.request_of body) w
