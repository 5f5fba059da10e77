-- ===== src/Billing/Http.antt =====
-- Requests to the billing worker, its responses, and who is calling (billing/src/index.ts, lines
-- 363 to 418).
use secure_collab_app.Prelude.{
  ℕ, not, ◌&&◌, String, Option, none, some, List, [], ◌∷◌, ◌==◌, if◌then◌else◌, is_empty,
  split_first, strip_first,
}
use secure_collab_app.Prelude.Int.{Num}
use secure_collab_app.Exec.{Result, ok, err, Exec, pure, throw}
use secure_collab_app.Billing.Services.{Env, Reply, body, refused, failed, Services, World, ask}
use secure_collab_app.Billing.Sweep.{Summary}

-- What `req.json()` gives where an object with a token is expected.
pub data JsonBody : Type 0 where
  unreadable json_null : JsonBody
  token_body : (access_token matrix_server_name : Option String) → JsonBody

pub record Request : Type 0 where
  pub method : String
  pub pathname : String
  pub query : List (String × String)
  pub authorization : Option String
  pub stripe_signature : Option String
  pub json : JsonBody
  pub text : String

pub data Standing : Type 0 where
  unknown locked active : Standing
  trial : Num → Standing

pub data Body : Type 0 where
  no_body : Body
  text_body : String → Body
  location : String → Body
  url_body : String → Body
  error_body : String → Body
  deactivate_failed : ℕ → Body
  deleted_body : (subscriptions_cancelled identities_unlinked : ℕ) → Body
  standing_body : Standing → Body
  success_page : String → Body
  summary_body : Summary → Body

pub record Response : Type 0 where
  pub status : ℕ
  pub content : Body

abbrev pub respond : ℕ → Body → Response
respond status content = record { status = status; content = content }

-- `url.searchParams.get(key)`
unfoldable pub query_get : String → List (String × String) → Option String
query_get key [] = none
query_get key ((k, v) ∷ rest) = if k == key then some v else query_get key rest

pub data Caller : Type 0 where
  known : String → Caller
  turned_away : Response → Caller

-- The localpart of an MXID: no leading `@`, and nothing from the first `:` on.
unfoldable pub localpart : String → String
localpart sub = (split_first b':' (strip_first b'@' sub)).0

abbrev verification_failed : Caller
verification_failed = turned_away (respond 401 (error_body "verification_failed"))

caller_of : Option String → Caller
unfolding localpart
caller_of none = verification_failed
caller_of (some sub) =
    if is_empty (localpart sub) then verification_failed else known (localpart sub)

-- `body.access_token` is there, and the server name is the configured one.
abbrev pub pinned : Env → Option String → Option String → Option String
pinned env none server = none
pinned env (some token) none = none
pinned env (some token) (some server) =
    if not (is_empty token) && (server == env.matrix_server_name) then some token else none

pub read_caller : Reply (Option String) → Result Caller
unfolding caller_of
read_caller (body sub) = ok (caller_of sub)
read_caller (refused status) = ok verification_failed
read_caller (failed e) = err e

module _ {W : Type 0} (svc : Services W) where
  unfoldable pub verify : String → Exec (World W) Caller
  verify token w = let r = ask (svc.get_userinfo token) w in (read_caller r.0, r.1)

  abbrev pub by_pinned : Option String → Exec (World W) Caller
  by_pinned none = pure (turned_away (respond 401 (error_body "invalid_token")))
  by_pinned (some t) = verify t

  abbrev pub by_body : Env → JsonBody → Exec (World W) Caller
  by_body env unreadable = pure (turned_away (respond 400 (error_body "bad_request")))
  by_body env json_null = throw "TypeError"
  by_body env (token_body token server) = by_pinned (pinned env token server)

  unfoldable pub authenticate : Env → Request → Exec (World W) Caller
  unfolding verify read_caller
  authenticate env req = by_body env req.json
