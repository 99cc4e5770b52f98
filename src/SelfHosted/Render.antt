-- ===== src/SelfHosted/Render.antt =====
-- `render` of self_hosted.py: the files.
use aura_server.Base.{
  ℕ, suc, zero, ◌-◌, String, ◌<>◌, Bool, true, false, ◌&&◌, List, [], ◌∷◌, ◌==◌, nat_eq,
  if◌then◌else◌, Result, ok, ◌>>=◌,
}
use Prim.Native.Char.{code}
use aura_server.Base.Dict.{Dict}
use aura_server.Json.{Value, str, array, object, nil, item, end, field}
use aura_server.Prepare.Render.{Library, unit, number}
use aura_server.Base.{Option, raise_if, ltb, length, value_error, ◌>>◌}
use aura_server.Prepare.Write.{read_config}
use aura_server.SelfHosted.{Home, check_config}

-- `s.startswith(old)`, and `len`
abbrev pub starts_with : String → String → Bool
starts_with s String.[] = true
starts_with String.[] (String.◌∷◌ d old) = false
starts_with (String.◌∷◌ c s) (String.◌∷◌ d old) = code c == code d && starts_with s old

abbrev pub len : String → ℕ
len String.[] = zero
len (String.◌∷◌ c s) = suc (len s)

-- `s.replace(old, new)` where `old` is not empty, with so many characters of the last hit to pass over.
abbrev pub replace_from : ℕ → String → String → String → String
replace_from skip old new String.[] = String.[]
replace_from (suc skip) old new (String.◌∷◌ c s) = replace_from skip old new s
replace_from zero old new (String.◌∷◌ c s) =
    let passed = replace_from (len old - 1) old new s in
    let kept = replace_from zero old new s in
    if starts_with (String.◌∷◌ c s) old then new <> passed else String.◌∷◌ c kept

unfoldable pub replace : String → String → String → String
replace old new s = replace_from zero old new s

-- The unit of prepare.py for this layout.
unfoldable pub home_unit : String → String → String → String → String → String
home_unit public lan media role port =
    let authority = public <> (":" <> port) in
    let u0 = unit role authority in
    let u1 = replace "-listen 0.0.0.0:443" ("-listen " <> (lan <> (":" <> port))) u0 in
    let u2 = replace "-stun 0.0.0.0:3478" ("-stun " <> (lan <> ":3478")) u1 in
    let u3 =
      replace ("/etc/letsencrypt/live/" <> (authority <> "/"))
        "/etc/aura-infrastructure/tls/current/" u2 in
    let u4 = replace "CapabilityBoundingSet=CAP_NET_BIND_SERVICE" "CapabilityBoundingSet=" u3 in
    let u5 = replace "AmbientCapabilities=CAP_NET_BIND_SERVICE" "AmbientCapabilities=" u4 in
    u5
    <> ("\n[Service]\nLogNamespace=aura-infrastructure\nInaccessiblePaths=-"
        <> (media
            <> " -/var/lib/aura-server -/var/lib/docker -/var/backups -/opt/aura-server -/etc/letsencrypt\n"))

abbrev pub renewal_file : String → Value
renewal_file public = object (
    field "version" (number 1)
      (field "publicIP" (str public) (field "certName" (str "aura-home-ip") end)))

abbrev pub region_file : ℕ → String → Value
region_file region public = object (
    field "RegionID" (number region) (
      field "RegionCode" (str "aura") (
        field "RegionName" (str "Aura home relay") (
          field "Nodes"
            (array (
              item
                (object (
                  field "Name" (str "aura-home") (
                    field "RegionID" (number region) (
                      field "HostName" (str public) (
                        field "IPv4" (str public) (
                          field "IPv6" (str "none") (
                            field "DERPPort" (number 8443)
                              (field "STUNPort" (number 3478) end))))))))
                nil))
            end))))

abbrev pub router_file : String → Value
router_file lan = object (
    field "destination" (str lan) (
      field "tcp" (array (item (number 80) (item (number 8443) (item (number 8444) nil)))) (
        field "udp" (array (item (number 3478) nil)) (
          field "owner"
            (str
              "not publicly admitted; separate LAN-only host firewall and hairpin qualification required")
            (field "neverForward"
              (array (
                item (number 4533)
                  (item (number 4534) (item (number 4789) (item (number 22) nil)))))
              end)))))

abbrev pub journald_conf : String
journald_conf =
    "[Journal]\nStorage=persistent\nSystemMaxUse=32M\nRuntimeMaxUse=16M\nMaxRetentionSec=7day\n"

abbrev pub acme_service : String
acme_service =
    "[Unit]\nDescription=Renew and validate Aura home IP certificate\nWants=network-online.target\nAfter=network-online.target\n\n[Service]\nType=oneshot\nUMask=0077\nExecStart=/opt/aura-infrastructure/acme-venv/bin/certbot renew --cert-name aura-home-ip --non-interactive --quiet --no-random-sleep-on-renew --deploy-hook \"/usr/bin/python3 /opt/aura-infrastructure/current/ip_deploy.py --config /etc/aura-infrastructure/ip-renewal.json\"\nTimeoutStartSec=300\nNoNewPrivileges=yes\nPrivateTmp=yes\nProtectHome=yes\nProtectSystem=strict\nReadWritePaths=/etc/letsencrypt /var/lib/letsencrypt /var/log/letsencrypt /etc/aura-infrastructure /run\nCapabilityBoundingSet=CAP_NET_BIND_SERVICE\nMemoryMax=256M\nTasksMax=64\n"

abbrev pub acme_timer : String
acme_timer =
    "[Unit]\nDescription=Check short-lived Aura IP certificate every hour\n\n[Timer]\nOnCalendar=hourly\nRandomizedDelaySec=300\nPersistent=true\n\n[Install]\nWantedBy=timers.target\n"

abbrev pub refresh_service : String
refresh_service =
    "[Unit]\nDescription=Refresh existing private Aura owner IP certificate\nAfter=aura-home-firewall.service\nRequires=aura-home-firewall.service\n\n[Service]\nType=oneshot\nUMask=0077\nExecStart=/usr/bin/python3 /opt/aura-infrastructure/current/owner_ip_refresh.py\nTimeoutStartSec=120\nNoNewPrivileges=yes\nPrivateTmp=yes\nProtectHome=yes\nProtectSystem=strict\nReadWritePaths=/var/lib/aura-server /run/lock\nCapabilityBoundingSet=CAP_SETUID CAP_SETGID CAP_CHOWN CAP_DAC_READ_SEARCH\nMemoryMax=256M\nTasksMax=64\n"

-- The files under their names, in order.
unfoldable pub home_files : Library → (List ℕ → String) → Home → List (String × String)
home_files L text home =
    let public = text home.public in
    let lan = L.show home.lan in
    ("aura-derp.service", home_unit public lan home.media "derp" "8443")
    ∷ ("aura-rendezvous.service", home_unit public lan home.media "rendezvous" "8444")
    ∷ ("ip-renewal.json", L.dumps (renewal_file public) <> "\n")
    ∷ ("region.fresh-enrollment.json", L.dumps (region_file home.region_number public) <> "\n")
    ∷ ("journald@aura-infrastructure.conf", journald_conf)
    ∷ ("aura-acme-renew.service", acme_service)
    ∷ ("aura-acme-renew.timer", acme_timer)
    ∷ ("aura-owner-tls-refresh.service", refresh_service)
    ∷ ("router-review.json", L.dumps (router_file lan) <> "\n")
    ∷ ("android-build-setting.txt", "-PauraPairingService=https://" <> (public <> ":8444\n"))
    ∷ []

-- `text` is the text with these code points.
unfoldable pub render_home :
    Library → (List ℕ → String) → Dict Value → Result (List (String × String))
render_home L text config = do home ← check_config L config; ok (home_files L text home)

-- From the bytes of the configuration to the files.
unfoldable pub prepared :
    Library
    → (List ℕ → String)
    → (List ℕ → Option Value)
    → Result (List ℕ)
    → Result (List (String × String))
prepared L text loads source = do
  raw ← source
  raise_if (ltb 4096 (length raw)) (value_error "Oversized configuration")
  config ← read_config loads raw
  render_home L text config
