-- ===== src/Release/Fetch/Failed.antt =====
-- What a `fetch` of release.py that fails leaves on disk.
use aura_server.Base.{ℕ, List, ◌≡◌, ap, ◌∙◌, inl, inr, String, Bool, Error, err}
use aura_server.Release.Disk.{Disk}
use aura_server.Release.Disk.Parents.{parents}
use aura_server.Release.Disk.Effect.{
  Others, Effect, ◌>>=◌, ◌>>◌, look, interfere, call, make_parents, action-err, call-err,
}
use aura_server.Release.Disk.Extended.{IsLeft, IsLeft-unchanged, IsLeft-grown}
use aura_server.Release.Redirect.{Url}
use aura_server.Release.Fetch.{Network, admit_url, receive, admit_output, place}
use aura_server.Release.Fetch.Save.{fetch}

module _ (net : Network) (others : Others) (url output expected_sha : String) where
  -- The calls after the directories are made.
  abbrev finish : Url → Effect (Unit {0})
  finish parsed = do
    interfere others.meanwhile
    bytes ← look (λ _. receive net url expected_sha parsed)
    call (place others.leaves bytes output)

  finish-err :
      (parsed : Url) (ready : Disk) {e : Error}
      → (finish parsed ready).result ≡ err e
      → (finish parsed ready).disk ≡ others.meanwhile ready
  finish-err parsed ready h =
      let last = λ (bytes : List ℕ). call (place others.leaves bytes output) in
      elim (action-err (look (λ _. receive net url expected_sha parsed)) last
        (others.meanwhile ready) h) [
          | inl (_, same) ↦ same
          | inr (bytes, _, g, same) ↦
              ap (λ o. o.disk) same
              ∙ call-err (place others.leaves bytes output) (others.meanwhile ready) g
        ]

  -- The calls from the test of the destination on.
  abbrev save : Url → Effect (Unit {0})
  save parsed = do
    look (admit_output output)
    make_parents others.refuses (parents output)
    finish parsed

  save-err :
      (parsed : Url) (d : Disk) {e : Error}
      → (save parsed d).result ≡ err e
      → IsLeft output d
          (save parsed d).disk
          (λ grown. (save parsed d).disk ≡ others.meanwhile grown)
  save-err parsed d h =
      let after = (save parsed d).disk in
      let making = make_parents others.refuses (parents output) in
      elim (action-err (look (admit_output output)) (λ _. making >>= λ _. finish parsed) d h) [
        | inl (_, same) ↦ IsLeft-unchanged output d after _ same
        | inr (_, _, g, same) ↦
            IsLeft-grown others.refuses output d after _
              (elim (action-err making (λ _. finish parsed) d g) [
                | inl (_, left) ↦ inl (ap (λ o. o.disk) same ∙ left)
                | inr (_, made, g', same') ↦
                    inr
                      (made, ap (λ o. o.disk) (same ∙ same') ∙ finish-err parsed (making d).disk g')
              ])
      ]

-- A `fetch` that fails, call by call, has itself changed nothing at the destination. It has made some
-- missing directories above it, empty ones, and nothing else; or all of them are made, and the rest
-- of the disk is as the other processes left it.
pub fetch_failed :
    (net : Network) (others : Others) (url output expected_sha : String) (controlled_http : Bool)
    (d : Disk) {e : Error}
    → (fetch net others url output expected_sha controlled_http d).result ≡ err e
    → let after = (fetch net others url output expected_sha controlled_http d).disk in
      IsLeft output d after (λ grown. after ≡ others.meanwhile grown)
unfolding fetch
fetch_failed net others url output expected_sha controlled_http d h =
    let after = (fetch net others url output expected_sha controlled_http d).disk in
    let first = look (λ _. admit_url net url expected_sha controlled_http) in
    elim (action-err first (save net others url output expected_sha) d h) [
      | inl (_, same) ↦ IsLeft-unchanged output d after _ same
      | inr (parsed, _, g, same) ↦ rw same (save-err net others url output expected_sha parsed d g)
    ]
