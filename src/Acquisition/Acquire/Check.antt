-- ===== src/Acquisition/Acquire/Check.antt =====
-- The read-back of a repeated call: `checkSubmit` of dsh-tool-acquisition/src/acquire.ts.
use deepseek_harness_web3_ag.Prelude.{Option, none, some, List, [], ◌∷◌, ◌++◌, Text}
use deepseek_harness_web3_ag.Prelude.Maps.{Dict}
use deepseek_harness_web3_ag.Acquisition.Store.{StoredAcquisition}
use deepseek_harness_web3_ag.Prowlarr.Links.{ReleaseLinks, take_release_links}
use deepseek_harness_web3_ag.Acquisition.Acquire.Outside.{
  Outside, World, Result, ok, threw, stuck, look_up,
}
use deepseek_harness_web3_ag.Acquisition.Acquire.Status.{
  Library, AcquireServiceOptions, AcquireResult,
}
use deepseek_harness_web3_ag.Acquisition.Acquire.Clients.{torrent_key_for}
use deepseek_harness_web3_ag.Acquisition.Acquire.Torrents.{resolve_existing}
use deepseek_harness_web3_ag.Acquisition.Acquire.Submit.{
  AcquireSubmitInput, given, first_of, or_text, url_key_for, ref_key_for, link_of,
}

-- The verdict on a repeated call: `unknown` makes it run again.
pub data CheckDecision : Type 0 where
  replay : AcquireResult → CheckDecision
  unknown : CheckDecision

abbrev keyed : (Text → Text) → Option Text → List Text
keyed key none = []
keyed key (some t) = key t ∷ []

abbrev optional_key : Option Text → List Text
optional_key none = []
optional_key (some key) = key ∷ []

abbrev magnet_key : Library → Option Text → List Text
magnet_key library none = []
magnet_key library (some uri) =
    optional_key
      (torrent_key_for library.xt (record { magnet = some uri; torrent = none; info_hash = none }))

abbrev ref_link : Text → Option ReleaseLinks → Text
ref_link ref none = ref
ref_link ref (some stored) = or_text (given (some (link_of stored))) ref

-- The keys under which a call may be on record.
unfoldable pub keys_of : Library → Dict ReleaseLinks → AcquireSubmitInput → List Text
unfolding take_release_links
keys_of library links input =
    magnet_key library (given input.magnet)
    ++ (keyed (url_key_for library) (given input.url)
        ++ (keyed (λ ref. ref_key_for library (ref_link ref (take_release_links ref links)))
              (given input.ref)
            ++ keyed (ref_key_for library)
                (first_of (given input.download_url) (given input.magnet_url))))

module _ (O : Outside) (library : Library) (options : AcquireServiceOptions) where
  -- `.catch(() => undefined)` on the lookup.
  abbrev pub looked_up :
      Result (Option StoredAcquisition) × World O → Option StoredAcquisition × World O
  looked_up (ok found, s) = (found, s)
  looked_up (threw e, s) = (none, s)
  looked_up (stuck, s) = (none, s)

  abbrev pub verdict :
      (World O → CheckDecision × World O)
      → Result (Option AcquireResult) × World O
      → CheckDecision × World O
  verdict next (ok (some r), s) = (replay r, s)
  verdict next (ok none, s) = next s
  verdict next (threw e, s) = (unknown, s)
  verdict next (stuck, s) = (unknown, s)

  abbrev pub resolved_record :
      (World O → CheckDecision × World O)
      → Option StoredAcquisition × World O
      → CheckDecision × World O
  resolved_record next (none, s) = next s
  resolved_record next (some r, s) = verdict next (resolve_existing O library options (some r) s)

  unfoldable pub check_keys : List Text → World O → CheckDecision × World O
  check_keys [] s = (unknown, s)
  check_keys (key ∷ keys) s = resolved_record (check_keys keys) (looked_up (look_up key s))

  unfoldable pub check_submit :
      Dict ReleaseLinks → AcquireSubmitInput → World O → CheckDecision × World O
  unfolding keys_of check_keys
  check_submit links input = check_keys (keys_of library links input)
