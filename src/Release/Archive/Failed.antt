-- ===== src/Release/Archive/Failed.antt =====
-- What an `unpack` of release.py that fails leaves on disk.
use aura_server.Base.{ℕ, ◌≡◌, ap, ◌∙◌, ◌⊎◌, inl, inr, String, List, Error, err}
use aura_server.Release.Tree.{Tree, Platform}
use aura_server.Release.Disk.{Disk}
use aura_server.Release.Disk.Parents.{parents}
use aura_server.Release.Disk.Effect.{
  Others, ◌>>=◌, look, interfere, call, make_parents, action-err, call-err,
}
use aura_server.Release.Disk.Extended.{IsLeft, IsLeft-unchanged, IsLeft-grown}
use aura_server.Release.Archive.{Stream, read_plain, admit, stage, publish}
use aura_server.Release.Archive.Install.{unpack}
use aura_server.Release.Archive.Unpack.{finish, deliver}

-- Other processes acted once, or twice.
abbrev pub Acted : Others → Disk → Disk → Type 0
Acted others after grown =
    (after ≡ others.meanwhile grown) ⊎ (after ≡ others.later (others.meanwhile grown))

module _ (P : Platform) (open_tar : List ℕ → Stream) (others : Others)
    (archive destination expected_sha version arch : String) (d : Disk) where
  deliver-err :
      (bytes : List ℕ) (before : Disk) {e : Error}
      → let run =
          deliver P open_tar others archive destination expected_sha version arch d bytes before in
        run.result ≡ err e → (run.disk ≡ before) ⊎ (run.disk ≡ others.later before)
  deliver-err bytes before h =
      let publication = λ (staging : Tree).
        interfere others.later >>= λ _. call (publish others.leaves staging destination) in
      elim (action-err (look (λ _. stage P open_tar bytes version arch)) publication before h) [
        | inl (_, same) ↦ inl same
        | inr (staging, _, g, same) ↦ inr (
            ap (λ o. o.disk) same
            ∙ call-err (publish others.leaves staging destination) (others.later before) g)
      ]

  finish-err :
      (ready : Disk) {e : Error}
      → let run = finish P open_tar others archive destination expected_sha version arch d ready in
        run.result ≡ err e → Acted others run.disk ready
  finish-err ready h =
      let rest = deliver P open_tar others archive destination expected_sha version arch d in
      elim (action-err (look (λ d. read_plain d archive)) rest (others.meanwhile ready) h) [
        | inl (_, same) ↦ inl same
        | inr (bytes, _, g, same) ↦ elim (deliver-err bytes (others.meanwhile ready) g) [
          | inl left ↦ inl (ap (λ o. o.disk) same ∙ left)
          | inr left ↦ inr (ap (λ o. o.disk) same ∙ left)
        ]
      ]

-- An `unpack` that fails, call by call, has itself changed nothing at the destination. It has made some
-- missing directories above it, empty ones, and nothing else; or all of them are made, and the rest
-- of the disk is as the other processes left it.
pub unpack_failed :
    (P : Platform) (open_tar : List ℕ → Stream) (others : Others)
    (archive destination expected_sha version arch : String) (d : Disk) {e : Error}
    → (unpack P open_tar others archive destination expected_sha version arch d).result ≡ err e
    → let after = (unpack P open_tar others archive destination expected_sha version arch d).disk in
      IsLeft destination d after (Acted others after)
unfolding unpack
unpack_failed P open_tar others archive destination expected_sha version arch d h =
    let after = (unpack P open_tar others archive destination expected_sha version arch d).disk in
    let last = finish P open_tar others archive destination expected_sha version arch d in
    let making = make_parents others.refuses (parents destination) in
    let first = look (λ d. admit P d archive destination expected_sha) in
    elim (action-err first (λ _. making >>= λ _. last) d h) [
      | inl (_, same) ↦ IsLeft-unchanged destination d after (Acted others after) same
      | inr (_, _, g, same) ↦
          IsLeft-grown others.refuses destination d after (Acted others after)
            (elim (action-err making (λ _. last) d g) [
              | inl (_, left) ↦ inl (ap (λ o. o.disk) same ∙ left)
              | inr (_, made, g', same') ↦
                  let there = ap (λ o. o.disk) (same ∙ same') in
                  inr (
                    made,
                    elim (finish-err P open_tar others archive destination expected_sha version arch
                        d (making d).disk g') [
                          | inl left ↦ inl (there ∙ left)
                          | inr left ↦ inr (there ∙ left)
                        ],
                  )
            ])
    ]
