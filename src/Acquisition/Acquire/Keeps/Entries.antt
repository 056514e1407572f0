-- ===== src/Acquisition/Acquire/Keeps/Entries.antt =====
-- The entry points of dsh-tool-acquisition/src/acquire.ts keep what the writes of records keep.
use deepseek_harness_web3_ag.Prelude.{
  ℕ, ◌≡◌, refl, Option, none, some, List, [], ◌∷◌, Text, codes, text_eq,
}
use deepseek_harness_web3_ag.Prelude.Maps.{Dict}
use deepseek_harness_web3_ag.Prowlarr.Links.{ReleaseLinks, take_release_links}
use deepseek_harness_web3_ag.Acquisition.Selection.{AcquiredFile}
use deepseek_harness_web3_ag.Acquisition.Mime.{torrent, nzb, kind_eq, media_kind}
use deepseek_harness_web3_ag.Acquisition.Torrent.{TorrentMeta, parse_torrent, is_torrent}
use deepseek_harness_web3_ag.Acquisition.Store.{
  StoredAcquisition, File, put, find, find_by_content_key,
}
use deepseek_harness_web3_ag.Acquisition.Acquire.Outside.{
  Outside, World, Action, Result, ok, threw, stuck, Answer, TorrentPayload, FetchedFile,
  FetchOutcome, Resolved, pure, call, put_record, look_up, told, ◌>>=◌,
}
use deepseek_harness_web3_ag.Acquisition.Acquire.Status.{
  Library, AcquireServiceOptions, AcquireResult, import_dir, render,
}
use deepseek_harness_web3_ag.Acquisition.Acquire.Torrents.{resolve_existing, submit_torrent}
use deepseek_harness_web3_ag.Acquisition.Acquire.Stays.{
  Identity, identity, Stays, continue-Stays, >>=-Stays, if-Stays, call-Stays,
}
use deepseek_harness_web3_ag.Acquisition.Acquire.Fetched.{
  meta_or_fail, submit_parsed, single_record, keep_single, unless_torrent, content,
  reject_info_page, submit_torrent_bytes, import_single, take_content, branch_fetched_file,
}
use deepseek_harness_web3_ag.Acquisition.Acquire.Submit.{
  AcquireSubmitInput, Source, magnet_source, url_source, ref_source, release_source, sources,
  url_key_for, ref_key_for, link_of, submit_magnet, fetched, redirected, resolved, checked_file,
  otherwise, by_ref, only, fetch_url, resolve_link, unless_known, submit_link, submit_source,
  submit, wait_for, display_title,
}
use deepseek_harness_web3_ag.Acquisition.Acquire.Check.{
  CheckDecision, keys_of, looked_up, verdict, resolved_record, check_keys, check_submit,
}
use deepseek_harness_web3_ag.Acquisition.Acquire.Keeps.{
  put-Stays, look_up-Stays, resolve_existing-Holds, with_clients-Holds,
}

module _ {O : Outside} (library : Library) (options : AcquireServiceOptions) (Q : File → Type 0)
    (Mine : Identity → Type 0)
    (written : (r : StoredAcquisition) (f g : File)
      → Mine (identity r)
      → put r f ≡ some g
      → Q f
      → Q g)
    (found : (id : Text) (r : StoredAcquisition) (f : File)
      → Q f
      → find id f ≡ some (some r)
      → Mine (identity r)) where
  abbrev P : World O → Type 0
  P s = Q s.store

  -- A call to the outside leaves the store.
  called-Holds :
      {A B : Type 0} (f : O.W → Answer A × O.W) (k : A → Action O B)
      → ((a : A) → Stays P (k a))
      → Stays P (call f >>= k)
  called-Holds f k rest s h = continue-Stays P (call f s) k (call-Stays P s (f s.outside) h) rest

  module _ (id : Text) (ours : (i : Identity) → i.id ≡ id → Mine i) where
    submit_torrent-Holds :
        (payload : TorrentPayload) (title : Text) (wait : ℕ) (alias : Option Text)
        → Stays P (submit_torrent O library options id payload title wait alias)
    unfolding submit_torrent
    submit_torrent-Holds payload title wait alias =
        with_clients-Holds library options Q Mine written found _ (λ _ _ _ _. ours _ refl) wait
          options.torrent_clients

    parsed-Holds :
        (x : Option TorrentMeta) (data_ spool title : Text) (wait : ℕ)
        → Stays P (
            meta_or_fail O library options x
            >>= submit_parsed O library options id data_ spool title wait)
    parsed-Holds none data_ spool title wait s h = h
    parsed-Holds (some meta) data_ spool title wait s h = submit_torrent-Holds _ title wait none _ h

    submit_torrent_bytes-Holds :
        (data_ spool title : Text) (wait : ℕ)
        → Stays P (submit_torrent_bytes O library options id data_ spool title wait)
    unfolding submit_torrent_bytes
    submit_torrent_bytes-Holds data_ spool title wait =
        parsed-Holds (parse_torrent library.utf8_of library.sha1_hex data_) data_ spool title wait

    keep_single-Holds :
        (file : FetchedFile) (title : Text) (key : Option Text) (paths : List Text)
        → Stays P (keep_single O library options id file title key paths)
    unfolding keep_single
    keep_single-Holds file title key paths s h =
        let w = O.now s.outside in
        let r = single_record O library options id file title key paths w.0 (O.now w.1).0 in
        >>=-Stays P (put_record r) (λ _. pure (render r))
          (put-Stays library options Q Mine written found r (ours _ refl)) (λ _ t q. q) _ h

    import_single-Holds :
        (file : FetchedFile) (title : Text) (key : Option Text)
        → Stays P (import_single O library options id file title key)
    unfolding import_single
    import_single-Holds file title key =
        called-Holds
          (O.import_files (file.path ∷ []) (import_dir O library options id)
            (some (library.dirname file.path)))
          (keep_single O library options id file title key) (keep_single-Holds file title key)

    take_content-Holds :
        (file : FetchedFile) (title : Text) (key : Option Text) (files : List AcquiredFile)
        → Stays P (take_content O library options id file title key files)
    unfolding take_content
    take_content-Holds file title key [] s h = h
    take_content-Holds file title key (f ∷ files) s h = import_single-Holds file title key s h

    content-Holds :
        (file : FetchedFile) (title : Text) (key : Option Text)
        → Stays P (content O library options id file title key)
    content-Holds file title key s h = take_content-Holds file title key _ s h

    branch_fetched_file-Holds :
        (file : FetchedFile) (title : Text) (wait : ℕ) (key : Option Text)
        → Stays P (branch_fetched_file O library options id file title wait key)
    unfolding branch_fetched_file
    branch_fetched_file-Holds file title wait key =
        let kind = media_kind (some file.mime) in
        let read = O.read_file file.path in
        let submit_bytes =
          λ (b : Text). submit_torrent_bytes O library options id b file.path title wait in
        if-Stays P (kind_eq kind torrent) (call read >>= submit_bytes) _
          (called-Holds read submit_bytes (λ b. submit_torrent_bytes-Holds b file.path title wait))
          (if-Stays P (kind_eq kind nzb) _ _ (λ s h. h)
            (if-Stays P (text_eq file.mime (codes "application/octet-stream"))
              (call read >>= unless_torrent O library options id file title wait key) _
              (called-Holds read (unless_torrent O library options id file title wait key) (λ b.
                if-Stays P (is_torrent library.utf8_of library.sha1_hex b) (submit_bytes b) _
                  (submit_torrent_bytes-Holds b file.path title wait)
                  (content-Holds file title key)))
              (content-Holds file title key)))

    module _ (title : Text) (wait : ℕ) where
      submit_magnet-Holds :
          (uri : Text) (key : Option Text)
          → Stays P (submit_magnet O library options id title wait uri key)
      submit_magnet-Holds uri key = submit_torrent-Holds _ title wait key

      fetched-Holds :
          (key : Text) (x : FetchOutcome) → Stays P (fetched O library options id title wait key x)
      fetched-Holds key (FetchOutcome.magnet_link uri) = submit_magnet-Holds uri (some key)
      fetched-Holds key (FetchOutcome.file f) = branch_fetched_file-Holds f title wait (some key)

      fetch_url-Holds :
          (url key : Text) → Stays P (fetch_url O library options id title wait url key)
      unfolding fetch_url
      fetch_url-Holds url key =
          called-Holds (O.fetch_direct url _ _) (fetched O library options id title wait key)
            (fetched-Holds key)

      checked_file-Holds :
          (key : Text) (f : FetchedFile)
          → Stays P (checked_file O library options id title wait key f)
      unfolding reject_info_page
      checked_file-Holds key f =
          >>=-Stays P (reject_info_page O library options f) _
            (if-Stays P _ _ _ (λ s h. h) (λ s h. h))
            (λ _. branch_fetched_file-Holds f title wait (some key))

      redirected-Holds :
          (key : Text) (x : FetchOutcome)
          → Stays P (redirected O library options id title wait key x)
      redirected-Holds key (FetchOutcome.magnet_link uri) = submit_magnet-Holds uri (some key)
      redirected-Holds key (FetchOutcome.file f) = checked_file-Holds key f

      resolved-Holds :
          (key : Text) (x : Resolved) → Stays P (resolved O library options id title wait key x)
      resolved-Holds key (Resolved.magnet_link uri) = submit_magnet-Holds uri (some key)
      resolved-Holds key (Resolved.redirect target) =
          called-Holds (O.fetch_direct target _ _) (redirected O library options id title wait key)
            (redirected-Holds key)
      resolved-Holds key (Resolved.file f) = checked_file-Holds key f

      unless_known-Holds :
          (key : Text) (k : Action O AcquireResult)
          → Stays P k
          → Stays P (unless_known O library options id title wait key k)
      unfolding unless_known
      unless_known-Holds key k rest =
          >>=-Stays P (look_up key >>= resolve_existing O library options) _
            (look_up-Stays library options Q Mine written found key
              (resolve_existing O library options)
              (resolve_existing-Holds library options Q Mine written found))
            otherwise-Holds
        where
          otherwise-Holds :
              (x : Option AcquireResult) → Stays P (otherwise O library options id title wait k x)
          otherwise-Holds none = rest
          otherwise-Holds (some r) = λ s h. h

      resolve_link-Holds :
          (link key : Text) → Stays P (resolve_link O library options id title wait link key)
      unfolding resolve_link
      resolve_link-Holds link key =
          called-Holds (O.resolve link _ _) (resolved O library options id title wait key)
            (resolved-Holds key)

      submit_link-Holds : (link : Text) → Stays P (submit_link O library options id title wait link)
      unfolding submit_link
      submit_link-Holds [] s h = h
      submit_link-Holds (c ∷ link) s h =
          unless_known-Holds (ref_key_for library (c ∷ link)) _
            (resolve_link-Holds (c ∷ link) (ref_key_for library (c ∷ link))) s h

      by_ref-Holds : (x : Option ReleaseLinks) → Stays P (by_ref O library options id title wait x)
      by_ref-Holds none s h = h
      by_ref-Holds (some stored) s h = submit_link-Holds (link_of stored) s h

      submit_source-Holds :
          (links : Dict ReleaseLinks) (source : Source)
          → Stays P (submit_source O library options id title wait links source)
      unfolding submit_source
      submit_source-Holds links (magnet_source uri) = submit_magnet-Holds uri none
      submit_source-Holds links (url_source url) =
          unless_known-Holds (url_key_for library url) _
            (fetch_url-Holds url (url_key_for library url))
      submit_source-Holds links (ref_source ref) = by_ref-Holds (take_release_links ref links)
      submit_source-Holds links (release_source d m) = submit_link-Holds _

    only-Holds :
        (k : Source → Action O AcquireResult) (xs : List Source)
        → ((x : Source) → Stays P (k x))
        → Stays P (only O library options k xs)
    only-Holds k [] rest s h = h
    only-Holds k (x ∷ []) rest s h = rest x s h
    only-Holds k (x ∷ y ∷ xs) rest s h = h

    -- A submission under a handle of its own keeps the property.
    pub submit-Holds :
        (links : Dict ReleaseLinks) (input : AcquireSubmitInput)
        → Stays P (submit O library options links id input)
    unfolding submit
    submit-Holds links input =
        only-Holds
          (submit_source O library options id (display_title library input id)
            (wait_for O library options input) links)
          (sources input) (submit_source-Holds _ _ links)

  looked_up-Holds :
      (s : World O) (x : Option (Option StoredAcquisition))
      → P s
      → P (looked_up O library options (told s x)).1
  looked_up-Holds s none h = h
  looked_up-Holds s (some y) h = h

  module _ (next : World O → CheckDecision × World O)
      (rest : (s : World O) → P s → P (next s).1) where
    verdict-Holds :
        (p : Result (Option AcquireResult) × World O)
        → P p.1
        → P (verdict O library options next p).1
    verdict-Holds (ok none, t) q = rest t q
    verdict-Holds (ok (some r), t) q = q
    verdict-Holds (threw e, t) q = q
    verdict-Holds (stuck, t) q = q

    resolved_record-Holds :
        (p : Option StoredAcquisition × World O)
        → P p.1
        → P (resolved_record O library options next p).1
    resolved_record-Holds (none, t) q = rest t q
    resolved_record-Holds (some r, t) q =
        verdict-Holds (resolve_existing O library options (some r) t)
          (resolve_existing-Holds library options Q Mine written found (some r) t q)

  check_keys-Holds :
      (keys : List Text) (s : World O) → P s → P (check_keys O library options keys s).1
  unfolding check_keys
  check_keys-Holds [] s h = h
  check_keys-Holds (key ∷ keys) s h =
      resolved_record-Holds (check_keys O library options keys) (check_keys-Holds keys) _
        (looked_up-Holds s (find_by_content_key key s.store) h)

  -- The read-back of a call keeps the property.
  pub check_submit-Holds :
      (links : Dict ReleaseLinks) (input : AcquireSubmitInput) (s : World O)
      → P s
      → P (check_submit O library options links input s).1
  unfolding check_submit
  check_submit-Holds links input s h = check_keys-Holds (keys_of library links input) s h
