-- ===== src/Acquisition/Acquire/Submit.antt =====
-- The entry points of dsh-tool-acquisition/src/acquire.ts: `submit`, `displayTitle` and the keys of
-- links.
use deepseek_harness_web3_ag.Prelude.{
  ℕ, true, Option, none, some, List, [], ◌∷◌, ◌++◌, Text, codes, leb, if◌then◌else◌,
}
use deepseek_harness_web3_ag.Prelude.Maps.{Dict}
use deepseek_harness_web3_ag.Acquisition.Texts.{trim, split}
use deepseek_harness_web3_ag.Prowlarr.Links.{ReleaseLinks, take_release_links}
use deepseek_harness_web3_ag.Acquisition.Acquire.Outside.{
  invalid_request, TorrentPayload, FetchedFile, FetchOutcome, Resolved, Outside, Action, pure,
  throw, call, look_up, ◌>>=◌, ◌>>◌,
}
use deepseek_harness_web3_ag.Acquisition.Acquire.Status.{
  Library, AcquireServiceOptions, AcquireResult, fault,
}
use deepseek_harness_web3_ag.Acquisition.Acquire.Torrents.{resolve_existing, submit_torrent}
use deepseek_harness_web3_ag.Acquisition.Acquire.Fetched.{reject_info_page, branch_fetched_file}

pub record AcquireSubmitInput : Type 0 where
  pub magnet : Option Text
  pub url : Option Text
  pub ref : Option Text
  pub download_url : Option Text
  pub magnet_url : Option Text
  pub guid : Option Text
  pub title : Option Text
  pub wait_ms : Option ℕ

-- `value !== undefined && value !== ''`
abbrev pub given : Option Text → Option Text
given none = none
given (some []) = none
given (some (c ∷ t)) = some (c ∷ t)

abbrev pub first_of : Option Text → Option Text → Option Text
first_of none b = b
first_of (some t) b = some t

abbrev head : List Text → Text
head [] = []
head (part ∷ parts) = part

-- `url.trim().split('#', 1)[0]`
abbrev pub url_key_for : Library → Text → Text
url_key_for library url = codes "url-sha:" ++ library.sha256_hex (head (split b'#' (trim url)))

abbrev pub ref_key_for : Library → Text → Text
ref_key_for library link = codes "ref-sha:" ++ library.sha256_hex (trim link)

-- The sources that the input names.
pub data Source : Type 0 where
  magnet_source url_source ref_source : Text → Source
  release_source : Option Text → Option Text → Source

abbrev pub sourced : (Text → Source) → Option Text → List Source
sourced source none = []
sourced source (some t) = source t ∷ []

abbrev pub released : Option Text → Option Text → List Source
released none none = []
released (some d) m = release_source (some d) m ∷ []
released none (some m) = release_source none (some m) ∷ []

unfoldable pub sources : AcquireSubmitInput → List Source
sources input =
    sourced magnet_source (given input.magnet)
    ++ (sourced url_source (given input.url)
        ++ (sourced ref_source (given input.ref)
            ++ released (given input.download_url) (given input.magnet_url)))

abbrev pub or_text : Option Text → Text → Text
or_text none t = t
or_text (some s) t = s

abbrev named : (Text → Option Text) → Option Text → Option Text
named name none = none
named name (some link) = name link

abbrev described : Library → Option Text → Option Text
described library none = none
described library (some link) = some (library.describe_url link)

unfoldable pub display_title : Library → AcquireSubmitInput → Text → Text
display_title library input fallback =
    or_text
      (first_of (given input.title) (
        first_of (named library.dn (given input.magnet)) (
          first_of (named library.dn (given input.magnet_url)) (
            first_of (given (named library.url_name (given input.url))) (
              first_of
                (described library (given (first_of (given input.download_url) input.magnet_url)))
                input.guid)))))
      fallback

abbrev min : ℕ → ℕ → ℕ
min a b = if leb a b then a else b

abbrev or_number : Option ℕ → ℕ → ℕ
or_number none n = n
or_number (some k) n = k

-- `stored.downloadUrl ?? stored.magnetUrl ?? ''`
abbrev pub link_of : ReleaseLinks → Text
link_of stored = or_text (first_of stored.download_url stored.magnet_url) []

module _ (O : Outside) (library : Library) (options : AcquireServiceOptions) where
  unfoldable pub wait_for : AcquireSubmitInput → ℕ
  wait_for input = min (or_number input.wait_ms options.default_wait_ms) options.max_wait_ms

  abbrev pub work_dir : Text → Text
  work_dir id = library.join (options.download_dir ∷ codes "files" ∷ id ∷ [])

  abbrev pub magnet_payload : Text → TorrentPayload
  magnet_payload uri = record { magnet = some uri; torrent = none; info_hash = none }

  module _ (id : Text) (title : Text) (wait : ℕ) where
    abbrev pub submit_magnet : Text → Option Text → Action O AcquireResult
    submit_magnet uri key = submit_torrent O library options id (magnet_payload uri) title wait key

    abbrev pub fetched : Text → FetchOutcome → Action O AcquireResult
    fetched key (FetchOutcome.magnet_link uri) = submit_magnet uri (some key)
    fetched key (FetchOutcome.file f) =
        branch_fetched_file O library options id f title wait (some key)

    unfoldable pub fetch_url : Text → Text → Action O AcquireResult
    fetch_url url key =
        call (O.fetch_direct url (work_dir id) (library.safe_filename title)) >>= fetched key

    -- What a Prowlarr link led to, where a page of information is refused.
    abbrev pub checked_file : Text → FetchedFile → Action O AcquireResult
    checked_file key f =
        reject_info_page O library options f
        >> branch_fetched_file O library options id f title wait (some key)

    abbrev pub redirected : Text → FetchOutcome → Action O AcquireResult
    redirected key (FetchOutcome.magnet_link uri) = submit_magnet uri (some key)
    redirected key (FetchOutcome.file f) = checked_file key f

    abbrev pub resolved : Text → Resolved → Action O AcquireResult
    resolved key (Resolved.magnet_link uri) = submit_magnet uri (some key)
    resolved key (Resolved.redirect target) =
        call (O.fetch_direct target (work_dir id) (library.safe_filename title)) >>= redirected key
    resolved key (Resolved.file f) = checked_file key f

    unfoldable pub resolve_link : Text → Text → Action O AcquireResult
    resolve_link link key =
        call (O.resolve link (work_dir id) (library.safe_filename title)) >>= resolved key

    abbrev pub otherwise : Action O AcquireResult → Option AcquireResult → Action O AcquireResult
    otherwise k none = k
    otherwise k (some r) = pure r

    -- A link that was submitted before leads to its record.
    unfoldable pub unless_known : Text → Action O AcquireResult → Action O AcquireResult
    unless_known key k = (look_up key >>= resolve_existing O library options) >>= otherwise k

    unfoldable pub submit_link : Text → Action O AcquireResult
    submit_link [] = throw (fault invalid_request true)
    submit_link (c ∷ link) =
        unless_known (ref_key_for library (c ∷ link))
          (resolve_link (c ∷ link) (ref_key_for library (c ∷ link)))

    abbrev pub by_ref : Option ReleaseLinks → Action O AcquireResult
    by_ref none = throw (fault invalid_request true)
    by_ref (some stored) = submit_link (link_of stored)

    -- `links` is the table of release references.
    unfoldable pub submit_source : Dict ReleaseLinks → Source → Action O AcquireResult
    unfolding take_release_links
    submit_source links (magnet_source uri) = submit_magnet uri none
    submit_source links (url_source url) =
        unless_known (url_key_for library url) (fetch_url url (url_key_for library url))
    submit_source links (ref_source ref) = by_ref (take_release_links ref links)
    submit_source links (release_source d m) = submit_link (or_text (first_of d m) [])

  abbrev pub only : (Source → Action O AcquireResult) → List Source → Action O AcquireResult
  only k [] = throw (fault invalid_request true)
  only k (source ∷ []) = k source
  only k (source ∷ next ∷ rest) = throw (fault invalid_request true)

  -- `id` is the fresh handle.
  unfoldable pub submit : Dict ReleaseLinks → Text → AcquireSubmitInput → Action O AcquireResult
  unfolding sources display_title wait_for
  submit links id input =
      only (submit_source id (display_title library input id) (wait_for input) links)
        (sources input)
