-- ===== src/Release/Fetch/Whole.antt =====
-- `fetch` as a whole: the artifact with the expected digest, or nothing.
use aura_server.Base.{
  ℕ, ◌≤◌, ◌≡◌, refl, ◌∙◌, sym, ap, true, length, ◌+◌, String, Bool, false, not, Option, none, some,
  List, [], ◌==◌, string_eq, nat_eq, ok, bind-eq-ok, raise_if-then, ok-injective, arith,
}
use mathlib.Core.Path.{subst}
use text.Mathlib.TextEquality.{eq_iff}
use aura_server.Base.Dict.{lookup, insert, lookup-insert, lookup-insert_self}
use aura_server.Release.Tree.{max_archive}
use aura_server.Release.Disk.{
  Disk, Entry, plain, directory, symlink, dangling, to_folder, to_file, is_directory, exists,
  entry_exists, has_parents, rename_file,
}
use aura_server.Release.Disk.Parents.{parents, mkdirs}
use aura_server.Release.Disk.Effect.{
  Others, ◌>>=◌, look, interfere, call, make_parents, make_parents_made, action-ok, call-ok,
}
use aura_server.Release.Archive.Unpack.{rename_to-ok}
use aura_server.Release.Redirect.{Url, Response, open_url}
use aura_server.Release.Fetch.{Network, admit_url, download, receive, admit_output, place}
use aura_server.Release.Fetch.Save.{fetch}
use aura_server.Release.Fetch.Delivered.{
  Delivers, download-Delivers, IsFetched, admit_url-IsAdmissible, admit_output_lem,
}

rename_cases :
    (bytes : List ℕ) (output : String) (d after : Disk) (o : Option Entry)
    → lookup output d ≡ o
    → entry_exists o ≡ false
    → rename_file bytes output d ≡ ok after
    → insert output (plain bytes) d ≡ after
unfolding rename_file
rename_cases bytes output d after none e x h = ok-injective (rw (e, rename_file) at h)
rename_cases bytes output d after (some (plain b)) e x h = absurd (cc x)
rename_cases bytes output d after (some (directory t)) e x h = absurd (cc x)
rename_cases bytes output d after (some (symlink dangling)) e x h =
    ok-injective (rw (e, rename_file) at h)
rename_cases bytes output d after (some (symlink to_folder)) e x h = absurd (cc x)
rename_cases bytes output d after (some (symlink (to_file b))) e x h = absurd (cc x)

place_lem :
    (leaves : Bool) (bytes : List ℕ) (output : String) (d after : Disk)
    → place leaves bytes output d ≡ ok after
    → (exists d output ≡ false)
      × (has_parents d output ≡ true)
      × (insert output (plain bytes) d ≡ after)
unfolding place exists
place_lem leaves bytes output d after h =
    let (free, h') = raise_if-then (entry_exists (lookup output d)) _ _ h in
    let (placed, moved) = rename_to-ok leaves output d after _ h' in
    (free, placed, rename_cases bytes output d after (lookup output d) refl free moved)

-- What was received, in terms of the response.
receive_lem :
    (net : Network) (url expected_sha : String) (parsed : Url) (bytes : List ℕ)
    → receive net url expected_sha parsed ≡ ok bytes
    → (response : Response) × ((open_url 4 net.urlsplit net.server
          (record { original = parsed; count = 0 })
          url).outcome
        ≡ ok response)
      × (response.status ≡ 200)
      × Delivers (net.clock + 300) response.body bytes
      × (length bytes ≤ max_archive)
      × (net.sha256 bytes ≡ expected_sha)
unfolding receive
receive_lem net url expected_sha parsed result h =
    let (response, opened, g1) =
      bind-eq-ok
        (open_url 4 net.urlsplit net.server (record { original = parsed; count = 0 }) url).outcome _
        h in
    let (status, g2) = raise_if-then (not (response.status == 200)) _ _ g1 in
    let (bytes, loaded, g3) = bind-eq-ok (download (net.clock + 300) 0 [] response.body) _ g2 in
    let (sum, g4) = raise_if-then (not (net.sha256 bytes == expected_sha)) _ _ g3 in
    let (rest, same, bound, delivers) =
      download-Delivers (net.clock + 300) 0 [] response.body bytes (omega arith) loaded in
    let whole : rest ≡ result = sym same ∙ ok-injective g4 in
    (
      response,
      opened,
      ground (arith, status),
      subst (Delivers (net.clock + 300) response.body) whole delivers,
      subst (λ b. length b ≤ max_archive) whole (omega (arith, bound)),
      ground (arith, sum, ok-injective g4, eq_iff (net.sha256 bytes) expected_sha),
    )

module _ (net : Network) (others : Others) (url output expected_sha : String)
    (controlled_http : Bool) (d : Disk) where
  -- A run that succeeds: each call in turn.
  run-ok :
      (fetch net others url output expected_sha controlled_http d).result ≡ ok tt
      → (parsed : Url) × (ready : Disk) × (bytes : List ℕ) × (admit_url net url expected_sha
            controlled_http
          ≡ ok parsed)
        × (admit_output output d ≡ ok tt)
        × (mkdirs is_directory (directory []) (parents output) d ≡ ok ready)
        × (receive net url expected_sha parsed ≡ ok bytes)
        × (place others.leaves bytes output (others.meanwhile ready)
            ≡ ok (fetch net others url output expected_sha controlled_http d).disk)
  unfolding fetch
  run-ok h =
      let last = λ (bytes : List ℕ). call (place others.leaves bytes output) in
      let download = λ (parsed : Url). interfere others.meanwhile >>= λ _.
      look (λ _. receive net url expected_sha parsed) >>= last in
      let making = make_parents others.refuses (parents output) in
      let (parsed, p, g, s) =
        action-ok (look (λ _. admit_url net url expected_sha controlled_http))
          (λ parsed. look (admit_output output) >>= λ _. making >>= λ _. download parsed) d h in
      let (_, q, g', s') =
        action-ok (look (admit_output output)) (λ _. making >>= λ _. download parsed) d g in
      let (_, m, g'', s'') = action-ok making (λ _. download parsed) d g' in
      let ready = (making d).disk in
      let (bytes, r, g3, s3) =
        action-ok (look (λ _. receive net url expected_sha parsed)) last (others.meanwhile ready)
          g'' in
      let placed = call-ok (place others.leaves bytes output) (others.meanwhile ready) g3 in
      (
        parsed,
        ready,
        bytes,
        p,
        q,
        make_parents_made others.refuses (parents output) d m,
        r,
        placed ∙ ap (λ o. ok o.disk) (sym (s ∙ (s' ∙ (s'' ∙ s3)))),
      )

-- A `fetch` that succeeds: the URL has a host, no credentials, fragment or query, and is `https`,
-- or plain HTTP to a loopback address where that was allowed; the response, after the redirects,
-- has status 200 and an end, each part was read within 300 seconds, and the parts together are at
-- most `max_archive` bytes with the expected digest; nothing stood at the destination before,
-- nothing that exists just before the rename, with every directory above it there; the bytes stand there, and every other path is as the
-- other processes left it.
pub fetch-IsFetched :
    (net : Network) (others : Others) (url output expected_sha : String) (controlled_http : Bool)
    (d : Disk)
    → (fetch net others url output expected_sha controlled_http d).result ≡ ok tt
    → IsFetched net others url output expected_sha controlled_http d
fetch-IsFetched net others url output expected_sha controlled_http d h =
    let (parsed, ready, bytes, p, q, made, got, put) =
      run-ok net others url output expected_sha controlled_http d h in
    let after = (fetch net others url output expected_sha controlled_http d).disk in
    let (response, opened, status, delivers, small, digest) =
      receive_lem net url expected_sha parsed bytes got in
    let (still_free, placed, published) =
      place_lem others.leaves bytes output (others.meanwhile ready) after put in
    record {
      parsed = parsed;
      admissible =
          admit_url-IsAdmissible net others url output expected_sha controlled_http d parsed p;
      response = response;
      opened = opened;
      status = status;
      bytes = bytes;
      small = small;
      delivers = delivers;
      digest = digest;
      ready = ready;
      was_free = admit_output_lem net others url output expected_sha controlled_http d q;
      made = made;
      still_free = still_free;
      placed = placed;
      delivered = rw (← published) (lookup-insert_self output _ (others.meanwhile ready));
      elsewhere =
          λ k apart. rw (← published, lookup-insert) (ground (arith, apart, eq_iff output k));
    }
