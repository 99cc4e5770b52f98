-- ===== src/Watch/Observe.antt =====
-- `observe` of wan_watch.py.
use aura_server.Base.{
  ℕ, ◌≡◌, refl, inl, inr, Bool-cases, not, Option, Option-cases, none, some, List, [], ◌∷◌, ◌==◌,
  nat_eq, nat_equals_iff, take, All, Result, ok, err, value_error, if◌then◌else◌,
}
use aura_server.Address.{Parser, is_private, IsPrivate, is_private-IsPrivate}
use aura_server.Firewall.{Ipv4}
use aura_server.Watch.Table.{Event}
use aura_server.Watch.Address.{observed_ipv4}

-- The router's answer to a request for its status page, or the exception instead.
pub record Page : Type 0 where
  pub status : ℕ
  pub body : List ℕ

-- The addresses that were asked, and the result.
pub record Observation : Type 0 where
  pub asked : List ℕ
  pub result : Result (List ℕ)

-- A redirect is an exception, and at most 131073 bytes are read.
abbrev pub read_page : Parser → (List ℕ → Result (List Event)) → Result Page → Result (List ℕ)
read_page parse page (err e) = err e
read_page parse page (ok answer) =
    if not (answer.status == 200)
    then err (value_error "Router status unavailable")
    else observed_ipv4 parse page (take 131073 answer.body)

abbrev pub observe_at :
    Parser → (List ℕ → Result (List Event)) → (ℕ → Result Page) → Option ℕ → Observation
observe_at parse page router none = record { asked = []; result = err (value_error "") }
observe_at parse page router (some address) =
    if not (is_private address)
    then record { asked = []; result = err (value_error "Explicit LAN router IPv4 required") }
    else record { asked = address ∷ []; result = read_page parse page (router address) }

unfoldable pub observe :
    Ipv4 → Parser → (List ℕ → Result (List Event)) → (ℕ → Result Page) → List ℕ → Observation
observe ip parse page router value = observe_at parse page router (ip.address value)

read_page-ok :
    (parse : Parser) (page : List ℕ → Result (List Event)) (r : Result Page) (a : List ℕ)
    → read_page parse page r ≡ ok a
    → (answer : Page) × (r ≡ ok answer)
      × (answer.status ≡ 200)
      × (observed_ipv4 parse page (take 131073 answer.body) ≡ ok a)
read_page-ok parse page (err e) a h = absurd (cc h)
read_page-ok parse page (ok answer) a h = elim (Bool-cases (answer.status == 200)) [
  | inl e ↦ (answer, refl, (nat_equals_iff answer.status 200).0 e, rw e at h)
  | inr e ↦ absurd (cc (rw e at h))
]

-- `observe` asks no address outside RFC 1918; and where it gives an address, the router's text is
-- such an address, its answer has status 200, and `observed_ipv4` gives that address for the first
-- 131073 bytes of the answer.
pub observe_lem :
    (ip : Ipv4) (parse : Parser) (page : List ℕ → Result (List Event)) (router : ℕ → Result Page)
    (value : List ℕ)
    → let o = observe ip parse page router value in
      All IsPrivate o.asked
      × ((a : List ℕ)
          → o.result ≡ ok a
          → (address : ℕ) × (answer : Page) × (ip.address value ≡ some address)
            × IsPrivate address
            × (router address ≡ ok answer)
            × (answer.status ≡ 200)
            × (observed_ipv4 parse page (take 131073 answer.body) ≡ ok a))
unfolding observe
observe_lem ip parse page router value = elim (Option-cases (ip.address value)) [
  | inl e ↦ rw e (tt, λ a h. absurd (cc h))
  | inr (address, e) ↦ elim (Bool-cases (is_private address)) [
    | inr f ↦ rw (e, f) (tt, λ a h. absurd (cc h))
    | inl f ↦
        let near = (is_private-IsPrivate address).0 f in
        rw (e, f)
          (
            (near, tt),
            λ a h.
                let (answer, r, s, o) = read_page-ok parse page (router address) a h in
                (address, answer, refl, near, r, s, o),
          )
  ]
]
