-- ===== src/Release/Redirect/Chain.antt =====
-- Where the redirects of a download lead.
use aura_server.Base.{
  ℕ, zero, suc, ◌+◌, ◌≤◌, ◌≡◌, refl, ◌⊎◌, inl, inr, ◌∙◌, ap, String, true, false, Option, none,
  some, List, [], ◌∷◌, ◌==◌, string_eq, length, All, ltb, any, Error, Result, Result-cases, ok, err,
  bind-eq-ok, raise_if-then, raise_if-ok, Bool-cases, arith,
}
use text.Mathlib.TextEquality.{eq_iff}
use aura_server.Release.Redirect.{
  Url, is_given, same_host, is_https_port, Handler, allowed, check_redirect, redirect_request,
  is_misdirected, is_unfit, Answer, respond, redirect, refuse, Exchange, answered, open_url,
}

-- A redirect that may be followed.
pub record IsPermitted (urlsplit : String → Result Url) (original : Url) (url : String)
    : Type 0 where
  pub target : Url
  pub parsed : urlsplit url ≡ ok target
  pub from_https : original.scheme ≡ "https"
  pub to_https : target.scheme ≡ "https"
  pub host :
      (target.hostname ≡ original.hostname)
      ⊎ ((original.hostname ≡ some "github.com")
          × (target.hostname ≡ some "release-assets.githubusercontent.com"))
  pub port : (target.port ≡ ok none) ⊎ (target.port ≡ ok (some 443))
  pub no_username : is_given target.username ≡ false
  pub no_password : is_given target.password ≡ false
  pub no_fragment : target.fragment ≡ ""

same_host-eq : (a b : Option String) → same_host a b ≡ true → a ≡ b
same_host-eq none none h = refl
same_host-eq none (some b) h = absurd (cc h)
same_host-eq (some a) none h = absurd (cc h)
same_host-eq (some a) (some b) h = ap some ((eq_iff a b).0 h)

allowed-host :
    (original : Url) (host : Option String)
    → any (same_host host) (allowed original) ≡ true
    → (host ≡ original.hostname)
      ⊎ ((original.hostname ≡ some "github.com")
          × (host ≡ some "release-assets.githubusercontent.com"))
unfolding allowed
allowed-host original host h = elim (Bool-cases (same_host original.hostname (some "github.com"))) [
  | inr e ↦ inl (same_host-eq host original.hostname (ground (arith, rw e at h)))
  | inl e ↦ elim (Bool-cases (same_host host original.hostname)) [
    | inl f ↦ inl (same_host-eq host original.hostname f)
    | inr f ↦ inr (
      same_host-eq original.hostname (some "github.com") e,
      same_host-eq host (some "release-assets.githubusercontent.com")
          (ground (arith, f, rw e at h)),
    )
  ]
]

is_https_port-cases :
    (target : Url) (port : Option ℕ)
    → target.port ≡ ok port
    → is_https_port port ≡ true
    → (target.port ≡ ok none) ⊎ (target.port ≡ ok (some 443))
is_https_port-cases target none e h = inl e
is_https_port-cases target (some n) e h =
    let same : n ≡ 443 = ground arith in inr (e ∙ ap (λ n. ok (some n)) same)

module _ (urlsplit : String → Result Url) where
  check_redirect-IsPermitted :
      (handler : Handler) (target : Url) (url : String)
      → urlsplit url ≡ ok target
      → check_redirect handler target ≡ ok tt
      → (ltb 3 handler.count ≡ false) × IsPermitted urlsplit handler.original url
  unfolding check_redirect
  check_redirect-IsPermitted handler target url parsed h =
      let (first, h') = raise_if-then (is_misdirected handler target) _ _ h in
      let (port, asked, h'') = bind-eq-ok target.port _ h' in
      let second = raise_if-ok (is_unfit target port) _ h'' in
      let tests : (ltb 3 handler.count ≡ false)
          × ((handler.original.scheme == "https") ≡ true)
          × ((target.scheme == "https") ≡ true)
          × (any (same_host target.hostname) (allowed handler.original) ≡ true) =
        ground (arith, first) in
      let later : (is_https_port port ≡ true)
          × (is_given target.username ≡ false)
          × (is_given target.password ≡ false)
          × ((target.fragment == "") ≡ true) =
        ground (arith, second) in
      (
        tests.0,
        record {
          target = target;
          parsed = parsed;
          from_https = (eq_iff handler.original.scheme "https").0 tests.1;
          to_https = (eq_iff target.scheme "https").0 tests.2;
          host = allowed-host handler.original target.hostname tests.3;
          port = is_https_port-cases target port asked later.0;
          no_username = later.1;
          no_password = later.2;
          no_fragment = (eq_iff target.fragment "").0 later.3;
        },
      )

  abbrev next : Handler → Handler
  next handler = record handler { count = suc handler.count }

  -- A redirect is refused, or it is permitted and the handler has one more.
  redirect_request_cases :
      (handler : Handler) (newurl : String)
      → ((e : Error) × (handler' : Handler) × (redirect_request urlsplit handler newurl
            ≡ (err e, handler')))
        ⊎ ((redirect_request urlsplit handler newurl ≡ (ok newurl, next handler))
            × IsPermitted urlsplit handler.original newurl
            × (suc handler.count ≤ 3))
  unfolding redirect_request
  redirect_request_cases handler newurl = elim (Result-cases (urlsplit newurl)) [
    | inr (e, p) ↦ inl (e, handler, rw (p, redirect_request) refl)
    | inl (target, p) ↦ elim (Result-cases (check_redirect (next handler) target)) [
      | inr (e, q) ↦ inl (e, next handler, rw (p, redirect_request, q) refl)
      | inl (_, q) ↦
          let (few, permitted) = check_redirect-IsPermitted (next handler) target newurl p q in
          inr (rw (p, redirect_request, q) refl, permitted, ground (arith, few))
    ]
  ]

  module _ (server : String → Answer) where
    -- Requests from `url` on: those after the first are permitted, and with those before there are few.
    abbrev IsFew : Handler → String → Exchange → Type 0
    IsFew handler url exchange =
        (rest : List String) × (exchange.requests ≡ url ∷ rest)
        × All (IsPermitted urlsplit handler.original) rest
        × (length rest + handler.count ≤ 3)

    answered-IsFew :
        (again : Handler → String → Exchange) (handler : Handler) (url : String) (answer : Answer)
        → handler.count ≤ 3
        → ((newurl : String)
            → suc handler.count ≤ 3
            → ((again (next handler) newurl).requests ≡ [])
              ⊎ IsFew (next handler) newurl (again (next handler) newurl))
        → IsFew handler url (answered urlsplit again handler url answer)
    unfolding answered
    answered-IsFew again handler url (respond r) few ih = ([], refl, tt, omega (arith, few))
    answered-IsFew again handler url (refuse e) few ih = ([], refl, tt, omega (arith, few))
    answered-IsFew again handler url (redirect newurl) few ih =
        elim (redirect_request_cases handler newurl) [
          | inl (e, handler', p) ↦ rw p ([], refl, tt, omega (arith, few))
          | inr (p, permitted, fewer) ↦ rw p (elim (ih newurl fewer) [
            | inl none_left ↦ ([], ap (λ l. url ∷ l) none_left, tt, omega (arith, few))
            | inr (rest, made, good, bound) ↦
                (newurl ∷ rest, ap (λ l. url ∷ l) made, (permitted, good), omega (arith, bound))
          ])
        ]

    open_url_cases :
        (fuel : ℕ) (handler : Handler) (url : String)
        → handler.count ≤ 3
        → ((open_url fuel urlsplit server handler url).requests ≡ [])
          ⊎ IsFew handler url (open_url fuel urlsplit server handler url)
    unfolding open_url
    open_url_cases zero handler url few = inl refl
    open_url_cases (suc fuel) handler url few = inr (
        answered-IsFew (open_url fuel urlsplit server) handler url (server url) few
          (λ newurl fewer. open_url_cases fuel (next handler) newurl fewer))

    answered_again :
        (again again' : Handler → String → Exchange) (handler : Handler) (url : String)
        (answer : Answer)
        → ((newurl : String)
            → suc handler.count ≤ 3
            → again (next handler) newurl ≡ again' (next handler) newurl)
        → answered urlsplit again handler url answer ≡ answered urlsplit again' handler url answer
    unfolding answered
    answered_again again again' handler url (respond r) same = refl
    answered_again again again' handler url (refuse e) same = refl
    answered_again again again' handler url (redirect newurl) same =
        elim (redirect_request_cases handler newurl) [
          | inl (e, handler', p) ↦ rw p refl
          | inr (p, _, fewer) ↦ rw p (rw (same newurl fewer) refl)
        ]

    -- Fuel for the requests that the count leaves is enough.
    enough :
        (fuel more : ℕ) (handler : Handler) (url : String)
        → handler.count ≤ 3
        → 4 ≤ fuel + handler.count
        → 4 ≤ more + handler.count
        → open_url fuel urlsplit server handler url ≡ open_url more urlsplit server handler url
    unfolding open_url
    enough zero more handler url few h k = absurd (omega (arith, few, h))
    enough (suc fuel) zero handler url few h k = absurd (omega (arith, few, k))
    enough (suc fuel) (suc more) handler url few h k =
        answered_again (open_url fuel urlsplit server) (open_url more urlsplit server) handler url
          (server url)
          (λ newurl fewer.
            enough fuel more (next handler) newurl fewer (omega (arith, h)) (omega (arith, k)))

-- Opening a URL with a fresh handler asks for that URL and then for at most three others, each of
-- them permitted: an `https` URL without credentials and fragment, on port 443, of the same host,
-- or of the asset host if the original host is github.com, and only if the original URL was
-- `https`. Fuel beyond four requests changes nothing.
pub open_url_lem :
    (urlsplit : String → Result Url) (server : String → Answer) (original : Url) (url : String)
    (more : ℕ)
    → let first : Handler = record { original = original; count = 0 } in
      let exchange = open_url 4 urlsplit server first url in
      ((rest : List String) × (exchange.requests ≡ url ∷ rest)
        × All (IsPermitted urlsplit original) rest
        × (length rest ≤ 3))
      × (open_url (4 + more) urlsplit server first url ≡ exchange)
unfolding open_url
open_url_lem urlsplit server original url more =
    let first : Handler = record { original = original; count = 0 } in
    let (rest, made, good, bound) =
      answered-IsFew urlsplit server (open_url 3 urlsplit server) first url (server url)
        (omega arith)
        (λ newurl fewer. open_url_cases urlsplit server 3 (next urlsplit first) newurl fewer) in
    (
      (rest, made, good, omega (arith, bound)),
      enough urlsplit server (4 + more) 4 first url (omega arith) (omega arith) (omega arith),
    )
