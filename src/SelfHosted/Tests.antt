-- ===== src/SelfHosted/Tests.antt =====
-- self_hosted.py on a small configuration, and the theorem at it.
use aura_server.Base.{
  ℕ, ◌≡◌, ◌↔◌, refl, true, false, String, Option, some, List, [], ◌∷◌, ◌==◌, nat_eq, codes, ok,
}
use aura_server.Base.Dict.{Dict}
use aura_server.Json.{Value, str, object, Fields, end, field, to_dict}
use aura_server.Script.{Machine}
use aura_server.Prepare.Render.{Library, number}
use aura_server.Prepare.Write.{free}
use aura_server.SelfHosted.{Home}
use aura_server.SelfHosted.Render.{replace, home_files, render_home}
use aura_server.SelfHosted.Accepted.{IsHome, render_home-eq-ok}
use mathlib.Core.Path.{subst}
use aura_server.Base.{any, split}
use aura_server.Base.Dict.{lookup}
use aura_server.Address.{Address, public_ip, ip_address, is_private, in_network}
use aura_server.Prepare.Render.{item_of, ipv4_address}
use aura_server.SelfHosted.{check_config, public_ipv4, private_ipv4, region, media_root}
use aura_server.SelfHosted.Taken.{IsCanonical, IsTaken, render_home-IsTaken}
use aura_server.SelfHosted.Write.{main}
use aura_server.SelfHosted.Written.{IsPrepared, main-IsPrepared}

abbrev library : Library
library = record {
  parse = λ text. some (record {
    version = 4;
    is_global = true;
    is_multicast = false;
    is_mapped = false;
    text = text;
  });
  ipv4 = λ _. some 3232235778;
  is_global = λ _. true;
  show = λ _. "192.168.1.2";
  dumps = λ _. "{}";
}

abbrev fields : Fields
fields = field "version" (number 1) (
    field "publicIPv4" (str "203.0.113.7") (
      field "lanIPv4" (str "192.168.1.2")
        (field "regionId" (number 900) (field "mediaRoot" (str "/srv/media-1") end))))

abbrev config : Dict Value
config = to_dict fields

abbrev text : List ℕ → String
text _ = "203.0.113.7"

abbrev home : Home
home = record {
  public = codes "203.0.113.7";
  lan = 3232235778;
  region_number = 900;
  media = "/srv/media-1";
}

replaced : replace "ab" "c" "aababx" ≡ "accx"
unfolding replace
replaced = refl

render_home-eq-ok_example :
    (render_home library text config ≡ ok (home_files library text home)) ↔ (
      (found : Home) × IsHome library config found
      × (home_files library text found ≡ home_files library text home))
render_home-eq-ok_example = render_home-eq-ok library text config (home_files library text home)

-- A machine that refuses the fifth change.
abbrev halting : Machine
halting = record { refuses = λ n. n == 5; succeeds = λ _ _. true }

abbrev loads : List ℕ → Option Value
loads _ = some (object fields)

main-IsPrepared_example : IsPrepared library text loads (ok (1 ∷ [])) free [] (
    main halting 0o644 library text loads
      (ok (1 ∷ []))
      (record { now = free; past = []; commands = [] }))
main-IsPrepared_example = main-IsPrepared halting 0o644 library text loads (ok (1 ∷ [])) free []

-- An `ipaddress` that knows one address.
abbrev known : Address
known = record {
  version = 4;
  is_global = true;
  is_multicast = false;
  is_mapped = false;
  text = codes "203.0.113.7";
}

abbrev knowing : Library
knowing = record library { parse = λ _. some known }

known-IsCanonical : IsCanonical knowing.parse text
known-IsCanonical = record {
  again = λ value a e. e;
  unscoped = λ value a e four.
      let same : known ≡ a = cc in
      subst (λ (a : Address). any (λ c. c == b'%') a.text ≡ false) same refl;
  readable = λ value a e.
      let same : known ≡ a = cc in subst (λ (a : Address). codes (text a.text) ≡ a.text) same refl;
}

known_run : render_home knowing text config ≡ ok (home_files knowing text home)
unfolding render_home check_config item_of public_ipv4 public_ip ip_address private_ipv4
    ipv4_address is_private in_network region media_root lookup split
known_run = refl

render_home-IsTaken_example : IsTaken knowing (home_files knowing text home)
render_home-IsTaken_example =
    render_home-IsTaken knowing text config (home_files knowing text home) known-IsCanonical
      known_run
