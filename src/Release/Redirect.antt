-- ===== src/Release/Redirect.antt =====
-- `ReleaseRedirect` of release.py, and the requests of the opener that uses it.
pub mod Chain
use aura_server.Base.{
  ℕ, zero, suc, String, Bool, true, false, not, ◌&&◌, ◌||◌, Option, none, some, List, [], ◌∷◌, ◌==◌,
  nat_eq, string_eq, ltb, any, Error, Result, ok, err, ◌>>=◌, ◌>>◌, raise_if, invalid_release,
  type_error, if◌then◌else◌,
}

-- The attributes of `urlsplit`'s result. Asking for a port that is no number, or too large, raises
-- `ValueError`.
pub record Url : Type 0 where
  pub scheme : String
  pub hostname : Option String
  pub port : Result (Option ℕ)
  pub username : Option String
  pub password : Option String
  pub query : String
  pub fragment : String

-- Whether a text is neither `None` nor empty.
abbrev pub is_given : Option String → Bool
is_given none = false
is_given (some s) = not (s == "")

abbrev pub same_host : Option String → Option String → Bool
same_host none none = true
same_host none (some _) = false
same_host (some _) none = false
same_host (some a) (some b) = a == b

abbrev pub is_https_port : Option ℕ → Bool
is_https_port none = true
is_https_port (some port) = port == 443

pub record Handler : Type 0 where
  pub original : Url
  pub count : ℕ

-- The set `allowed`
unfoldable pub allowed : Url → List (Option String)
allowed original =
    if same_host original.hostname (some "github.com")
    then original.hostname ∷ some "release-assets.githubusercontent.com" ∷ []
    else original.hostname ∷ []

abbrev pub forbidden : Error
forbidden = invalid_release "Release redirect outside the permitted HTTPS delivery hosts"

-- The first part of the test of a redirect, with the handler's count as it is by then.
abbrev pub is_misdirected : Handler → Url → Bool
is_misdirected handler target =
    ltb 3 handler.count
    || not (handler.original.scheme == "https")
    || not (target.scheme == "https")
    || not (any (same_host target.hostname) (allowed handler.original))

-- The second part, with the port.
abbrev pub is_unfit : Url → Option ℕ → Bool
is_unfit target port =
    not (is_https_port port)
    || is_given target.username
    || is_given target.password
    || not (target.fragment == "")

-- `or` stops at the first operand that holds, so the port is asked for only after the first part.
unfoldable pub check_redirect : Handler → Url → Result (Unit {0})
check_redirect handler target = do
  raise_if (is_misdirected handler target) forbidden
  port ← target.port
  raise_if (is_unfit target port) forbidden

-- The new request's URL, and the handler.
unfoldable pub redirect_request : (String → Result Url) → Handler → String → Result String × Handler
redirect_request urlsplit handler newurl = elim (urlsplit newurl) [
  | err e ↦ (err e, handler)
  | ok target ↦
      let counted = record handler { count = suc handler.count } in
      ((check_redirect counted target >> ok newurl), counted)
]

-- What comes after the headers: bytes with the time at which they were read, the end, or a fault.
pub data Body : Type 0 where
  end : Body
  fault : Error → Body
  chunk : List ℕ → ℕ → Body → Body

pub record Response : Type 0 where
  pub status : ℕ
  pub body : Body

-- A server's answer to a request.
pub data Answer : Type 0 where
  respond : Response → Answer
  redirect : String → Answer
  refuse : Error → Answer

-- The requests made, the first first, and the last answer.
pub record Exchange : Type 0 where
  pub requests : List String
  pub outcome : Result Response

abbrev pub stop : String → Result Response → Exchange
stop url r = record { requests = url ∷ []; outcome = r }

abbrev pub go_on : (Handler → String → Exchange) → String → Result String × Handler → Exchange
go_on again url (err e, handler) = stop url (err e)
go_on again url (ok newurl, handler) =
    let rest = again handler newurl in record rest { requests = url ∷ rest.requests }

-- `again` makes the next request.
unfoldable pub answered :
    (String → Result Url) → (Handler → String → Exchange) → Handler → String → Answer → Exchange
answered urlsplit again handler url (respond r) = stop url (ok r)
answered urlsplit again handler url (refuse e) = stop url (err e)
answered urlsplit again handler url (redirect newurl) =
    go_on again url (redirect_request urlsplit handler newurl)

-- `opener.open(url)`: asks `server`, and goes where the handler lets it, for at most `fuel` requests.
unfoldable pub open_url :
    ℕ → (String → Result Url) → (String → Answer) → Handler → String → Exchange
open_url zero urlsplit server handler url = record { requests = []; outcome = err type_error }
open_url (suc fuel) urlsplit server handler url =
    answered urlsplit (open_url fuel urlsplit server) handler url (server url)
