-- ===== src/Release/Fetch/Delivered.antt =====
-- What a download has put on disk.
use aura_server.Base.{
  ℕ, ◌+◌, ◌≤◌, ◌≡◌, refl, ◌≢◌, ◌⊎◌, inl, inr, ◌∙◌, sym, String, Bool, Bool-cases, true, false, not,
  ◌||◌, none, some, List, [], ◌∷◌, ◌++◌, ◌==◌, string_eq, nat_eq, length, length-append, ltb, ok,
  bind-eq-ok, raise_if-then, ok-injective, arith,
}
use mathlib.Core.List.{append_assoc, append-nil}
use mathlib.Core.Path.{subst}
use text.Mathlib.TextEquality.{eq_iff}
use aura_server.Base.Dict.{lookup}
use aura_server.Release.Tree.{max_archive}
use aura_server.Release.Bundle.{is_sha256}
use aura_server.Release.Disk.{
  Disk, plain, directory, is_directory, has_parents, exists, is_symlink, entry_exists,
  entry_is_symlink,
}
use aura_server.Release.Disk.Parents.{parents, mkdirs}
use aura_server.Release.Disk.Effect.{Others, Outcome}
use aura_server.Release.Archive.Unpack.{free_of}
use aura_server.Release.Redirect.{Url, is_given, Body, end, fault, chunk, Response, open_url}
use aura_server.Release.Fetch.{
  Network, is_local, is_malformed, is_insecure, admit_url, download, admit_output,
}
use aura_server.Release.Fetch.Save.{fetch}

-- The bytes of a response that has an end, each part read in time.
pub data Delivers (deadline : ℕ) : Body → List ℕ → Type 0 where
  ended : {body : Body} → body ≡ end → Delivers deadline body []
  emptied : {body rest : Body} {time : ℕ} → body ≡ chunk [] time rest → Delivers deadline body []
  more :
      {body rest : Body} {time : ℕ} {part bytes all_bytes : List ℕ}
      → body ≡ chunk part time rest
      → time ≤ deadline
      → Delivers deadline rest bytes
      → all_bytes ≡ part ++ bytes
      → Delivers deadline body all_bytes

pub download-Delivers :
    (deadline size : ℕ) (pending : List ℕ) (body : Body) (bytes : List ℕ)
    → size ≤ max_archive
    → download deadline size pending body ≡ ok bytes
    → (rest : List ℕ) × (bytes ≡ pending ++ rest)
      × (size + length rest ≤ max_archive)
      × Delivers deadline body rest
unfolding download
download-Delivers deadline size pending end bytes small h =
    ([], sym (ok-injective h) ∙ sym (append-nil pending), omega (arith, small), ended refl)
download-Delivers deadline size pending (fault e) bytes small h = absurd (cc h)
download-Delivers deadline size pending (chunk [] time rest) bytes small h =
    ([], sym (ok-injective h) ∙ sym (append-nil pending), omega (arith, small), emptied refl)
download-Delivers deadline size pending (chunk (x ∷ xs) time rest) bytes small h =
    let size' = size + length (x ∷ xs) in
    elim (Bool-cases (ltb max_archive size' || ltb deadline time)) [
      | inl e ↦ absurd (cc (rw e at h))
      | inr e ↦
          let (tail, made, bound, delivers) =
            download-Delivers deadline size' (pending ++ (x ∷ xs)) rest bytes (ground (arith, e))
              (rw e at h) in
          (
            (x ∷ xs) ++ tail,
            made ∙ append_assoc pending (x ∷ xs) tail,
            omega (arith, bound, length-append (x ∷ xs) tail),
            more refl (ground (arith, e)) delivers refl,
          )
    ]

-- A URL that `fetch` asks for.
pub record IsAdmissible (net : Network) (url : String) (controlled_http : Bool) (parsed : Url)
    : Type 0 where
  pub split : net.urlsplit url ≡ ok parsed
  pub hostname : is_given parsed.hostname ≡ true
  pub no_username : is_given parsed.username ≡ false
  pub no_password : is_given parsed.password ≡ false
  pub no_fragment : parsed.fragment ≡ ""
  pub no_query : parsed.query ≡ ""
  pub scheme :
      (parsed.scheme ≡ "https")
      ⊎ ((controlled_http ≡ true)
          × (parsed.scheme ≡ "http")
          × (is_local net parsed.hostname ≡ true))

scheme_cases :
    (net : Network) (controlled_http : Bool) (parsed : Url)
    → is_insecure net controlled_http parsed ≡ false
    → (parsed.scheme ≡ "https")
      ⊎ ((controlled_http ≡ true)
          × (parsed.scheme ≡ "http")
          × (is_local net parsed.hostname ≡ true))
scheme_cases net controlled_http parsed h = elim (Bool-cases (parsed.scheme == "https")) [
  | inl e ↦ inl ((eq_iff parsed.scheme "https").0 e)
  | inr e ↦
      let rest : (controlled_http ≡ true)
          × ((parsed.scheme == "http") ≡ true)
          × (is_local net parsed.hostname ≡ true) =
        ground (arith, h, e) in
      inr (rest.0, (eq_iff parsed.scheme "http").0 rest.1, rest.2)
]

module _ (net : Network) (others : Others) (url output expected_sha : String)
    (controlled_http : Bool) (d : Disk) where
  abbrev pub run : Outcome (Unit {0})
  run = fetch net others url output expected_sha controlled_http d

  -- What a good download has done.
  pub record IsFetched : Type 0 where
    pub parsed : Url
    pub admissible : IsAdmissible net url controlled_http parsed
    pub response : Response
    pub opened :
        (open_url 4 net.urlsplit net.server (record { original = parsed; count = 0 }) url).outcome
        ≡ ok response
    pub status : response.status ≡ 200
    pub bytes : List ℕ
    pub small : length bytes ≤ max_archive
    pub delivers : Delivers (net.clock + 300) response.body bytes
    pub digest : net.sha256 bytes ≡ expected_sha
    pub ready : Disk
    pub was_free : lookup output d ≡ none
    pub made : mkdirs is_directory (directory []) (parents output) d ≡ ok ready
    pub still_free : exists (others.meanwhile ready) output ≡ false
    pub placed : has_parents (others.meanwhile ready) output ≡ true
    pub delivered : lookup output run.disk ≡ some (plain bytes)
    pub elsewhere :
        (k : String) → k ≢ output → lookup k run.disk ≡ lookup k (others.meanwhile ready)

  pub admit_url-IsAdmissible :
      (parsed : Url)
      → admit_url net url expected_sha controlled_http ≡ ok parsed
      → IsAdmissible net url controlled_http parsed
  unfolding admit_url
  admit_url-IsAdmissible result h =
      let (parsed, split, g1) = bind-eq-ok (net.urlsplit url) _ h in
      let (formed, g2) = raise_if-then (is_malformed parsed) _ _ g1 in
      let (secure, g3) = raise_if-then (is_insecure net controlled_http parsed) _ _ g2 in
      let (_, g4) = raise_if-then (not (is_sha256 expected_sha)) _ _ g3 in
      let parts : (is_given parsed.hostname ≡ true)
          × (is_given parsed.username ≡ false)
          × (is_given parsed.password ≡ false)
          × ((parsed.fragment == "") ≡ true)
          × ((parsed.query == "") ≡ true) =
        ground (arith, formed) in
      subst (IsAdmissible net url controlled_http) (ok-injective g4) (record {
        split = split;
        hostname = parts.0;
        no_username = parts.1;
        no_password = parts.2;
        no_fragment = (eq_iff parsed.fragment "").0 parts.3;
        no_query = (eq_iff parsed.query "").0 parts.4;
        scheme = scheme_cases net controlled_http parsed secure;
      })

  pub admit_output_lem : admit_output output d ≡ ok tt → lookup output d ≡ none
  unfolding admit_output exists is_symlink
  admit_output_lem h =
      elim (Bool-cases (entry_exists (lookup output d) || entry_is_symlink (lookup output d))) [
        | inl e ↦ absurd (cc (rw e at h))
        | inr free ↦ free_of (lookup output d) free
      ]
