-- ===== src/Acquisition/Acquire/Replays.antt =====
-- What a submission of dsh-tool-acquisition/src/acquire.ts refuses, and what it answers from its records.
use deepseek_harness_web3_ag.Prelude.{
  ℕ, zero, suc, ◌+◌, ◌≡◌, ◌≢◌, refl, subst, sym, ap, ◌∙◌, true, Option, none, some, List, [], ◌∷◌,
  ◌++◌, Text, length, length-append, arith,
}
use deepseek_harness_web3_ag.Prelude.Maps.{Dict}
use deepseek_harness_web3_ag.Prowlarr.Links.{ReleaseLinks, take_release_links}
use deepseek_harness_web3_ag.Acquisition.Store.{
  StoredAcquisition, completed, TorrentClientName, find_by_content_key,
}
use deepseek_harness_web3_ag.Acquisition.Acquire.Outside.{
  invalid_request, Outside, Action, World, ok, threw, continue, look_up, told, ◌>>=◌,
}
use deepseek_harness_web3_ag.Acquisition.Acquire.Status.{
  Library, AcquireServiceOptions, AcquireResult, render, fault,
}
use deepseek_harness_web3_ag.Acquisition.Acquire.Clients.{torrent_key_for}
use deepseek_harness_web3_ag.Acquisition.Acquire.Torrents.{
  resolve_existing, find_existing, submission, unless_found, with_clients, submit_torrent,
}
use deepseek_harness_web3_ag.Acquisition.Acquire.Submit.{
  AcquireSubmitInput, Source, magnet_source, url_source, ref_source, release_source, sources, given,
  first_of, or_text, url_key_for, ref_key_for, link_of, magnet_payload, by_ref, otherwise, sourced,
  released, only, unless_known, submit_link, submit_source, submit, wait_for, display_title,
}

-- 1 where a text is given that is not empty.
abbrev pub one_if : Option Text → ℕ
one_if none = 0
one_if (some []) = 0
one_if (some (c ∷ t)) = 1

abbrev pub either : ℕ → ℕ → ℕ
either zero b = b
either (suc a) b = 1

-- How many of magnet, URL, reference and release link the input names.
abbrev pub source_count : AcquireSubmitInput → ℕ
source_count input =
    one_if input.magnet
    + one_if input.url
    + one_if input.ref
    + either (one_if input.download_url) (one_if input.magnet_url)

length-sourced :
    (source : Text → Source) (t : Option Text) → length (sourced source (given t)) ≡ one_if t
length-sourced source none = refl
length-sourced source (some []) = refl
length-sourced source (some (c ∷ t)) = omega arith

length-released :
    (d m : Option Text) → length (released (given d) (given m)) ≡ either (one_if d) (one_if m)
length-released none none = refl
length-released none (some []) = refl
length-released none (some (c ∷ m)) = omega arith
length-released (some []) none = refl
length-released (some []) (some []) = refl
length-released (some []) (some (c ∷ m)) = omega arith
length-released (some (c ∷ d)) m = omega arith

length-sources : (input : AcquireSubmitInput) → length (sources input) ≡ source_count input
unfolding sources
length-sources input =
    let magnets = sourced magnet_source (given input.magnet) in
    let urls = sourced url_source (given input.url) in
    let refs = sourced ref_source (given input.ref) in
    let releases = released (given input.download_url) (given input.magnet_url) in
    omega (
      arith,
      length-append magnets (urls ++ (refs ++ releases)),
      length-append urls (refs ++ releases),
      length-append refs releases,
      length-sourced magnet_source input.magnet,
      length-sourced url_source input.url,
      length-sourced ref_source input.ref,
      length-released input.download_url input.magnet_url,
    )

module _ (O : Outside) (library : Library) (options : AcquireServiceOptions)
    (links : Dict ReleaseLinks) (id : Text) (s : World O) where
  only-refuses :
      (k : Source → Action O AcquireResult) (xs : List Source)
      → length xs ≢ 1
      → only O library options k xs s ≡ (threw (fault invalid_request true), s)
  only-refuses k [] h = refl
  only-refuses k (x ∷ []) h = absurd (h (omega arith))
  only-refuses k (x ∷ y ∷ xs) h = refl

  -- The key under which a source would be on record.
  abbrev link_key : Text → Option Text
  link_key [] = none
  link_key (c ∷ link) = some (ref_key_for library (c ∷ link))

  abbrev stored_key : Option ReleaseLinks → Option Text
  stored_key none = none
  stored_key (some stored) = link_key (link_of stored)

  abbrev pub key_of : Source → Option Text
  key_of (magnet_source uri) = torrent_key_for library.xt (magnet_payload O library options uri)
  key_of (url_source url) = some (url_key_for library url)
  key_of (ref_source ref) = stored_key (take_release_links ref links)
  key_of (release_source d m) = link_key (or_text (first_of d m) [])

  -- The store has a completed record of the key.
  abbrev Finished : Text → StoredAcquisition → Type 0
  Finished key r = (find_by_content_key key s.store ≡ some (some r)) × (r.state ≡ completed)

  module _ (title : Text) (wait : ℕ) (r : StoredAcquisition) where
    resolve_existing-completed :
        (t : World O)
        → r.state ≡ completed
        → resolve_existing O library options (some r) t ≡ (ok (some (render r)), t)
    unfolding resolve_existing
    resolve_existing-completed t e = simp (e, resolve_existing)

    look_up_tells :
        (key : Text)
        → Finished key r
        → (look_up key >>= resolve_existing O library options) s ≡ (ok (some (render r)), s)
    look_up_tells key (e, done) =
        ap (λ x. continue (told s x) (resolve_existing O library options)) e
        ∙ resolve_existing-completed s done

    unless_known-replays :
        (key : Text) (k : Action O AcquireResult)
        → Finished key r
        → unless_known O library options id title wait key k s ≡ (ok (render r), s)
    unfolding unless_known
    unless_known-replays key k f =
        ap (λ p. continue p (otherwise O library options id title wait k)) (look_up_tells key f)

    submit_link-replays :
        (link key : Text)
        → link_key link ≡ some key
        → Finished key r
        → submit_link O library options id title wait link s ≡ (ok (render r), s)
    unfolding submit_link
    submit_link-replays [] key e f = absurd (ground arith)
    submit_link-replays (c ∷ link) key e f =
        let same : ref_key_for library (c ∷ link) ≡ key = cc e in
        unless_known-replays (ref_key_for library (c ∷ link)) _
          (subst (λ k. Finished k r) (sym same) f)

    by_ref-replays :
        (x : Option ReleaseLinks) (key : Text)
        → stored_key x ≡ some key
        → Finished key r
        → by_ref O library options id title wait x s ≡ (ok (render r), s)
    by_ref-replays none key e f = absurd (ground arith)
    by_ref-replays (some stored) key e f = submit_link-replays (link_of stored) key e f

    with_clients-replays :
        (uri key : Text) (names : List TorrentClientName) (alias : Option Text)
        → names ≢ []
        → torrent_key_for library.xt (magnet_payload O library options uri) ≡ some key
        → Finished key r
        → with_clients O library options
            (submission O library options id (magnet_payload O library options uri) title alias)
            wait
            names
            s
          ≡ (ok (render r), s)
    unfolding find_existing
    with_clients-replays uri key [] alias some_client e f = absurd (some_client refl)
    with_clients-replays uri key (name ∷ names) alias some_client e f =
        let sub =
          submission O library options id (magnet_payload O library options uri) title alias in
        ap
          (λ k.
            continue (find_existing O library options k s)
              (unless_found O library options sub wait))
          e
        ∙ ap (λ p. continue p (unless_found O library options sub wait)) (look_up_tells key f)

    submit_source-replays :
        (source : Source) (key : Text)
        → options.torrent_clients ≢ []
        → key_of source ≡ some key
        → Finished key r
        → submit_source O library options id title wait links source s ≡ (ok (render r), s)
    unfolding submit_source submit_torrent
    submit_source-replays (magnet_source uri) key clients e f =
        with_clients-replays uri key options.torrent_clients none clients e f
    submit_source-replays (url_source url) key clients e f =
        let same : url_key_for library url ≡ key = cc e in
        unless_known-replays (url_key_for library url) _ (subst (λ k. Finished k r) (sym same) f)
    submit_source-replays (ref_source ref) key clients e f =
        by_ref-replays (take_release_links ref links) key e f
    submit_source-replays (release_source d m) key clients e f = submit_link-replays _ key e f

  only-one :
      (k : Source → Action O AcquireResult) (xs : List Source) (x : Source)
      → xs ≡ x ∷ []
      → only O library options k xs s ≡ k x s
  only-one k xs x e = rw e refl

  -- A submission that names no source, or more than one, is refused for good, and nothing else happens.
  pub submit_refuses :
      (input : AcquireSubmitInput)
      → source_count input ≢ 1
      → submit O library options links id input s ≡ (threw (fault invalid_request true), s)
  unfolding submit
  submit_refuses input h =
      only-refuses _ (sources input) (λ one. h (sym (length-sources input) ∙ one))

  -- Where a torrent client is configured, a submission of one source whose content is on record as completed
  -- is answered from that record: nothing is fetched or queued, and the store stays.
  pub submit_replays :
      (input : AcquireSubmitInput) (source : Source) (key : Text) (r : StoredAcquisition)
      → options.torrent_clients ≢ []
      → sources input ≡ source ∷ []
      → key_of source ≡ some key
      → find_by_content_key key s.store ≡ some (some r)
      → r.state ≡ completed
      → submit O library options links id input s ≡ (ok (render r), s)
  unfolding submit
  submit_replays input source key r clients one e on_record done =
      let title = display_title library input id in
      let wait = wait_for O library options input in
      only-one (submit_source O library options id title wait links) (sources input) source one
      ∙ submit_source-replays title wait r source key clients e (on_record, done)
