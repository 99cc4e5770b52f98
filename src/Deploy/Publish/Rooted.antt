-- ===== src/Deploy/Publish/Rooted.antt =====
-- An absent directory lists nothing, in each state of ip_deploy.py's `publish`.
use aura_server.Base.{
  ℕ, ◌≡◌, refl, String, Bool, true, false, Option, none, some, List, [], Error, Result, ok,
}
use aura_server.Script.{Machine, Script, ◌>>◌, for_each, when, change}
use aura_server.Script.Rules.{
  Holds, Holds-bind, Holds-pure, Holds-throw, Holds-gets, Holds-lift, Holds-change,
  Holds-try_except, Holds-for_each, Holds-weaken,
}
use aura_server.Deploy.Site.{Site, absent, make_root, create_file, write_file, unlink_file}
use aura_server.Deploy.Site.Kept.{
  Keeps, IsThere, IsThere-Keeps, make_root-IsThere, unlink-Keeps, symlink-Keeps, replace-Keeps,
  make_folder-Keeps, in_folder-Keeps, rmdir-Keeps,
}
use aura_server.Deploy.Publish.{sync, point, copy_into, roll_back, retire, go_live, publish}
use aura_server.Deploy.Publish.GoLive.{restart_one-Holds, attempt-Holds}

abbrev pub IsRooted : Site → Type 0
IsRooted s = s.root ≡ absent → s.items ≡ []

IsThere-IsRooted : (s : Site) → IsThere s → IsRooted s
IsThere-IsRooted s there gone = absurd (there gone)

-- The directory stays.
abbrev Stays : {A : Type 0} → Script Site A → Type 0
Stays m = Holds IsRooted IsThere m (λ _. IsThere) IsThere

module _ (h : Machine) where
  change-Stays : (f : Site → Result Site) → ((s : Site) → Keeps s (f s)) → Stays (change h f)
  change-Stays f kept =
      Holds-change h f
        (λ s s' there e.
          let there' = IsThere-Keeps s s' (f s) (kept s) e there in
          (IsThere-IsRooted s' there', there'))
        (λ s p. p)

  sync-Stays : Stays (sync h)
  unfolding sync
  sync-Stays = change-Stays ok (λ s. refl)

  when-Stays : (test : Bool) (m : Script Site (Unit {0})) → Stays m → Stays (when test m)
  when-Stays true m k = k
  when-Stays false m k = Holds-pure tt (λ s p. p)

  then-Stays :
      {A B : Type 0} (m : Script Site A) (l : Script Site B) → Stays m → Stays l → Stays (m >> l)
  then-Stays m l k k' = Holds-bind (λ _. IsThere) _ _ k (λ _. k')

  each-Stays :
      {A : Type 0} (body : A → Script Site (Unit {0})) (xs : List A)
      → ((x : A) → Stays (body x))
      → Stays (for_each body xs)
  each-Stays body xs k = Holds-for_each body xs (λ s p. p) k

  point-Stays : (name : String) → Stays (point h name)
  unfolding point
  point-Stays name =
      Holds-bind (λ _. IsThere) _ _ (Holds-gets _ (λ s p. p))
        λ stale.
          then-Stays _ _ (when-Stays stale _ (change-Stays _ (unlink-Keeps ".current-next"))) (
            then-Stays _ _ (change-Stays _ (λ s. symlink-Keeps ".current-next" s name)) (
              then-Stays _ _ (change-Stays _ (replace-Keeps ".current-next" "current")) sync-Stays))

  copy_into-Stays :
      (generation name : String) (source : Result (List ℕ))
      → Stays (copy_into h generation name source)
  unfolding copy_into
  copy_into-Stays generation name source =
      Holds-bind (λ _. IsThere) _ _ (Holds-lift source (λ _ s _ p. p) (λ s p. p))
        λ bytes.
          then-Stays _ _ (change-Stays _ (λ s. in_folder-Keeps generation s (create_file name))) (
            then-Stays _ _ sync-Stays (
              then-Stays _ _
                (change-Stays _ (λ s. in_folder-Keeps generation s (write_file name bytes)))
                sync-Stays))

  roll_back-Stays :
      (previous : Option String) (active : List String) (e : Error)
      → Stays (roll_back h previous active e)
  unfolding roll_back
  roll_back-Stays (some previous) active e = then-Stays _ _ (point-Stays previous) (
      then-Stays _ _
        (each-Stays _ active (attempt-Holds h IsRooted IsThere IsThere (λ s p. p) "restart"))
        (Holds-throw e (λ s p. p)))
  roll_back-Stays none active e = then-Stays _ _ (change-Stays _ (unlink-Keeps "current")) (
      then-Stays _ _ sync-Stays (
        then-Stays _ _
          (each-Stays _ active (attempt-Holds h IsRooted IsThere IsThere (λ s p. p) "stop"))
          (Holds-throw e (λ s p. p))))

  retire-Stays :
      (generation : String) (previous : Option String) (old : String)
      → Stays (retire h generation previous old)
  unfolding retire
  retire-Stays generation previous old =
      Holds-bind (λ _. IsThere) _ _ (Holds-gets _ (λ s p. p))
        λ outdated. when-Stays outdated _ (
          then-Stays _ _ (change-Stays _ (λ s. in_folder-Keeps old s (unlink_file "fullchain.pem")))
            (then-Stays _ _
              (change-Stays _ (λ s. in_folder-Keeps old s (unlink_file "privkey.pem")))
              (change-Stays _ (rmdir-Keeps old))))

  go_live-Stays :
      (generation : String) (previous : Option String) (active : List String)
      → Stays (go_live h generation previous active)
  unfolding go_live
  go_live-Stays generation previous active = then-Stays _ _ (point-Stays generation) (
      then-Stays _ _
        (Holds-try_except IsThere _ _
          (each-Stays _ active (restart_one-Holds h IsRooted IsThere IsThere (λ s p. p)))
          (roll_back-Stays previous active))
        (Holds-bind (λ _. IsThere) _ _ (Holds-gets _ (λ s p. p))
          λ olds. each-Stays _ olds (retire-Stays generation previous)))

  module _ (euid : ℕ) (suffix : Site → String) (cert key : Result (List ℕ))
      (active : List String) where
    pub publish-IsRooted :
        Holds IsRooted IsRooted (publish h euid suffix cert key active) (λ _. IsRooted) IsRooted
    unfolding publish
    publish-IsRooted =
        Holds-bind (λ _. IsRooted) _ _ (Holds-lift _ (λ _ s _ p. p) (λ s p. p))
          λ _.
            Holds-bind (λ _. IsThere) _ _
              (Holds-change h (make_root euid)
                (λ s s' p e.
                  let there = make_root-IsThere euid s s' e in (IsThere-IsRooted s' there, there))
                (λ s p. p))
              λ _.
                Holds-weaken IsThere (λ _. IsRooted) IsRooted _ (λ s p. p) (λ _. IsThere-IsRooted)
                  IsThere-IsRooted
                  (Holds-bind (λ _. IsThere) _ _ (Holds-gets _ (λ s p. p))
                    λ safe. then-Stays _ _ (Holds-lift safe (λ _ s _ p. p) (λ s p. p)) (
                      Holds-bind (λ _. IsThere) _ _ (Holds-gets _ (λ s p. p))
                        λ found.
                          Holds-bind (λ _. IsThere) _ _ (Holds-lift found (λ _ s _ p. p) (λ s p. p))
                            λ previous.
                              Holds-bind (λ _. IsThere) _ _ (Holds-gets _ (λ s p. p))
                                λ generation.
                                  then-Stays _ _ (change-Stays _ (make_folder-Keeps generation)) (
                                    then-Stays _ _ (copy_into-Stays generation "fullchain.pem" cert)
                                      (then-Stays _ _ (copy_into-Stays generation "privkey.pem" key)
                                        (then-Stays _ _ sync-Stays
                                          (go_live-Stays generation previous active))))))
