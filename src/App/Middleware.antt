-- ===== src/App/Middleware.antt =====
-- `request_observability` and the exception handlers of src/feishu_dify_gateway/app.py, and what the
-- application does when it starts.
use feishu_dify_gateway.Base.{◌/◌, not, ◌&&◌, ◌||◌, some, ltb, if◌then◌else◌, length}
use feishu_dify_gateway.Text.{Text, is_blank, is_ascii}
use feishu_dify_gateway.Errors.{Exn, gateway, other}
use feishu_dify_gateway.Metrics.{Update}
use feishu_dify_gateway.Store.{prune}
use feishu_dify_gateway.Service.Monad.{Action, pure, raise, catch, modify, inc, time, ◌>>=◌, ◌>>◌}
use feishu_dify_gateway.Service.Synthetic.{uuid4}
use feishu_dify_gateway.App.Http.{
  App, Request, Response, not_found, gateway_error_response, is_internal, is_local,
}
use feishu_dify_gateway.App.Endpoints.{endpoint}

-- A GatewayError becomes its response, any other exception is raised on.
unfoldable pub by_exception : Exn → Action Response
by_exception (gateway e) = pure (gateway_error_response e)
by_exception other = raise other

-- `await call_next(request)`
unfoldable pub call_next : App → Request → Action Response
unfolding by_exception
call_next app req = catch (endpoint app req (app.match req.method req.path)) by_exception

-- The header X-Request-ID, if it is there, short and ASCII, or a new identity.
unfoldable pub request_id : App → Request → Action Text
request_id app req =
    let given = req.header "X-Request-ID" in
    if ltb 64 (length given) || not (is_ascii given) || is_blank given
    then uuid4 app.env
    else pure given

abbrev pub with_request_id : Text → Response → Response
with_request_id id response = record response { request_id = some id }

-- What follows the response.
abbrev pub observed : App → Request → (id : Text) → Response → Action Response
observed app req id response = do
  inc (Update.http_requests req.method (app.route_label req) (response.status_code / 100))
  pure (with_request_id id response)

unfoldable pub handled : App → Request → (id : Text) → Action Response
unfolding call_next
handled app req id = call_next app req >>= observed app req id

unfoldable pub request_observability : App → Request → Action Response
unfolding handled request_id
request_observability app req = do
  id ← request_id app req
  if is_internal req.url_path && not (is_local app req)
      then pure (with_request_id id not_found)
      else handled app req id

-- The part of `lifespan` before the application serves requests, less the long connection.
unfoldable pub start : App → Action (Unit {0})
start app = do
  now ← time app.env
  modify (λ s. (prune s app.settings.event_retention_seconds now).1)
