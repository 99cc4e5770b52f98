-- ===== src/Prepare/Render.antt =====
-- `unit` and `render` of prepare.py.
use aura_server.Base.{
  ℕ, ◌/◌, ◌^◌, String, ◌<>◌, Bool, false, not, ◌&&◌, ◌||◌, Option, none, some, List, [], ◌∷◌, ◌++◌,
  length, all, leb, ltb, ◌==◌, nat_eq, string_eq, list_eq, codes, is_hex, if◌then◌else◌, Result, ok,
  err, ◌>>=◌, ◌>>◌, raise_if, value_error, type_error, key_error,
}
use aura_server.Base.Dict.{Dict, keys, lookup, same_set}
use aura_server.Json.{Value, bool, int, pos, str, array, object, nil, item, end, field, value_eq}
use aura_server.Address.{Parser, is_private}
use aura_server.Prepare.{hostname}

-- `ipaddress` and `json`: `ip_address` on a text, the IPv4 address that a text stands for, whether it
-- is global, `str` of it, and `json.dumps(value, indent=2)`.
pub record Library : Type 0 where
  pub parse : Parser
  pub ipv4 : String → Option ℕ
  pub is_global : ℕ → Bool
  pub show : ℕ → String
  pub dumps : Value → String

abbrev pub arguments : String → String → String
arguments role host =
    let derp = role == "derp" in
    "-listen 0.0.0.0:443 "
    <> ((if derp then "-host" else "-hosts")
        <> (" "
            <> (host
                <> (" -tls-cert %d/tls.crt -tls-key %d/tls.key"
                    <> (if derp then " -stun 0.0.0.0:3478" else " -admin 127.0.0.1:4789")))))

unfoldable pub unit : String → String → String
unit role host =
    let derp = role == "derp" in
    "[Unit]\nDescription=Aura public "
    <> (role
        <> (" infrastructure\nWants=network-online.target\nAfter=network-online.target\nStartLimitIntervalSec=120\nStartLimitBurst=5\n\n[Service]\nType=simple\nDynamicUser=yes\nExecStart=/opt/aura-infrastructure/current/aura-"
            <> (role
                <> (" "
                    <> (arguments role host
                        <> ("\nLoadCredential=tls.crt:/etc/letsencrypt/live/"
                            <> (host
                                <> ("/fullchain.pem\nLoadCredential=tls.key:/etc/letsencrypt/live/"
                                    <> (host
                                        <> ("/privkey.pem\nRestart=on-failure\nRestartSec=5\nTimeoutStopSec=10\nUMask=0077\nNoNewPrivileges=yes\nProtectSystem=strict\nProtectHome=yes\nPrivateTmp=yes\nPrivateDevices=yes\nProtectKernelTunables=yes\nProtectKernelModules=yes\nProtectControlGroups=yes\nProtectClock=yes\nRestrictSUIDSGID=yes\nLockPersonality=yes\nRestrictAddressFamilies=AF_INET AF_INET6 AF_UNIX\nCapabilityBoundingSet=CAP_NET_BIND_SERVICE\nAmbientCapabilities=CAP_NET_BIND_SERVICE\nMemoryMax="
                                            <> ((if derp then "256M" else "128M")
                                                <> ("\nCPUQuota="
                                                    <> ((if derp then "200%" else "100%")
                                                        <> ("\nTasksMax="
                                                            <> ((if derp then "256" else "128")
                                                            <> ("\nLimitNOFILE=256\nStandardOutput=journal\nStandardError=journal\nLogRateLimitIntervalSec=30s\nLogRateLimitBurst=20\n\n[Install]\nWantedBy=multi-user.target\n"))))))))))))))))

-- `config[key]`
unfoldable pub item_of : Dict Value → String → Result Value
item_of config key = elim (lookup key config) [ none ↦ err key_error | some value ↦ ok value ]

-- `ipaddress.IPv4Address(value)`: a text, or a number (a `bool` is one). The `str` of any other value is no
-- address.
unfoldable pub ipv4_address : Library → Value → Result ℕ
ipv4_address L (str s) = elim (L.ipv4 s) [ none ↦ err (value_error "") | some a ↦ ok a ]
ipv4_address L (int (pos n)) = if ltb n (2 ^ 32) then ok n else err (value_error "")
ipv4_address L (bool b) = ok (if b then 1 else 0)
ipv4_address L _ = err (value_error "")

-- 224.0.0.0/4
abbrev pub is_multicast : ℕ → Bool
is_multicast address = address / 2 ^ 28 == 14

unfoldable pub check_public : Library → Value → Result (Unit {0})
check_public L value = do
  address ← ipv4_address L value
  raise_if (not (L.is_global address) || is_multicast address)
      (value_error "Reviewed public IPv4 addresses are required")

abbrev pub is_one : Value → Bool
is_one (int (pos n)) = n == 1
is_one _ = false

-- `re.fullmatch(r"[0-9a-f]{32}", value)`
unfoldable pub server_id : Value → Result String
server_id (str s) = do
  raise_if (not (length (codes s) == 32 && all is_hex (codes s)))
      (value_error "Use an opaque 128-bit server label; never a user/account name")
  ok s
server_id _ = err type_error

abbrev pub region_id : Value → Result ℕ
region_id (int (pos n)) =
    raise_if (not (leb 1 n && leb n 65535)) (value_error "Invalid explicit relay region") >> ok n
region_id _ = err (value_error "Invalid explicit relay region")

abbrev pub required : List String
required =
    "version" ∷ "domain" ∷ "serverId" ∷ "derpIPv4" ∷ "rendezvousIPv4" ∷ "ownerLANIPv4" ∷ "regionId"
    ∷ []

-- What the tests leave of a configuration.
pub record Checked : Type 0 where
  pub domain : String
  pub id : String
  pub derp_ip : Value
  pub rendezvous_ip : Value
  pub lan : ℕ
  pub region : ℕ

-- The same, with the names of the hosts.
pub record Plan : Type 0 where
  pub given : Checked
  pub derp : String
  pub rendezvous : String
  pub owner : String

-- The tests on the addresses.
unfoldable pub check_addresses : Library → Value → Value → Value → Result ℕ
check_addresses L derp rendezvous owner = do
  check_public L derp
  check_public L rendezvous
  raise_if (value_eq derp rendezvous)
      (value_error "This layout uses separate service IPs on TCP 443")
  lan ← ipv4_address L owner
  raise_if (not (is_private lan)) (value_error "Owner listener must use a private LAN IPv4 address")
  ok lan

-- All tests on the configuration, in order.
unfoldable pub check_config : Library → Dict Value → Result Checked
check_config L config = do
  raise_if (not (same_set (keys config) required))
      (value_error "Unsupported configuration fields/version")
  version ← item_of config "version"
  raise_if (not (is_one version)) (value_error "Unsupported configuration fields/version")
  domain_value ← item_of config "domain"
  domain ← hostname L.parse domain_value
  id_value ← item_of config "serverId"
  id ← server_id id_value
  derp_ip ← item_of config "derpIPv4"
  rendezvous_ip ← item_of config "rendezvousIPv4"
  owner_ip ← item_of config "ownerLANIPv4"
  lan ← check_addresses L derp_ip rendezvous_ip owner_ip
  region_value ← item_of config "regionId"
  region ← region_id region_value
  ok (record {
    domain = domain;
    id = id;
    derp_ip = derp_ip;
    rendezvous_ip = rendezvous_ip;
    lan = lan;
    region = region;
  })

-- `hosts`
unfoldable pub name_hosts : Library → Checked → Result Plan
name_hosts L c = do
  derp ← hostname L.parse (str ("relay." <> c.domain))
  rendezvous ← hostname L.parse (str ("pairing." <> c.domain))
  owner ← hostname L.parse (str (c.id <> (".server." <> c.domain)))
  ok (record { given = c; derp = derp; rendezvous = rendezvous; owner = owner })

abbrev pub number : ℕ → Value
number n = int (pos n)

abbrev pub renewal : String → String → Value
renewal role host =
    object (field "version" (number 1) (field "role" (str role) (field "hostname" (str host) end)))

-- The loop over the three hosts.
unfoldable pub role_files : Library → List (String × String) → List (String × String)
role_files L [] = []
role_files L ((role, host) ∷ roles) =
    let rest = role_files L roles in
    (role <> "/renewal.json", L.dumps (renewal role host) <> "\n")
    ∷ (if role == "owner"
        then rest
        else (role <> ("/aura-" <> (role <> ".service")), unit role host) ∷ rest)

abbrev pub region_file : Plan → Value
region_file p = object (
    field "RegionID" (number p.given.region) (
      field "RegionCode" (str "aura") (
        field "RegionName" (str "Aura operated relay") (
          field "Nodes"
            (array (
              item
                (object (
                  field "Name" (str "aura-1") (
                    field "RegionID" (number p.given.region) (
                      field "HostName" (str p.derp)
                        (field "DERPPort" (number 443) (field "STUNPort" (number 3478) end))))))
                nil))
            end))))

abbrev pub review_file : Library → Plan → Value
review_file L p = object (
    field "ownerAddress" (str (L.show p.given.lan <> ":9443")) (
      field "ownerHost" (str (p.owner <> ":9443"))
        (field "rendezvous" (str ("https://" <> p.rendezvous)) end)))

abbrev pub dns_file : Library → Plan → Value
dns_file L p = object (
    field p.derp p.given.derp_ip (
      field p.rendezvous p.given.rendezvous_ip
        (field p.owner (object (field "LAN-only resolution" (str (L.show p.given.lan)) end)) end)))

-- The files under their names, in order; no name comes twice.
unfoldable pub plan_files : Library → Plan → List (String × String)
plan_files L p =
    role_files L (("derp", p.derp) ∷ ("rendezvous", p.rendezvous) ∷ ("owner", p.owner) ∷ [])
    ++ (("region.fresh-install.json", L.dumps (region_file p) <> "\n")
        ∷ ("owner/config-review.json", L.dumps (review_file L p) <> "\n")
        ∷ ("dns-review.json", L.dumps (dns_file L p) <> "\n")
        ∷ ("android-build-setting.txt", "-PauraPairingService=https://" <> (p.rendezvous <> "\n"))
        ∷ [])

unfoldable pub render : Library → Dict Value → Result (List (String × String))
render L config = do checked ← check_config L config; p ← name_hosts L checked; ok (plan_files L p)
