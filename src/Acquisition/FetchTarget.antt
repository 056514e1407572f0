-- ===== src/Acquisition/FetchTarget.antt =====
-- `checkFetchTarget` of dsh-tool-acquisition/src/fetchSafety.ts. What `new URL`, `isIP` and the resolver of
-- names answer are arguments: `none` is a throw.
use deepseek_harness_web3_ag.Prelude.{
  ℕ, ◌≡◌, ◌≢◌, refl, sym, subst, ◌∙◌, ◌↔◌, ◌⊎◌, inl, inr, Bool, true, false, not, Option, none,
  some, List, [], ◌∷◌, Text, codes, text_eq, ==_iff, ◌==◌, if◌then◌else◌, any, all, All, map, arith,
  Bool-cases,
}
use deepseek_harness_web3_ag.Acquisition.Texts.{to_lower}
use deepseek_harness_web3_ag.Acquisition.Hosts.{host_matches}
use deepseek_harness_web3_ag.Acquisition.Addresses.{ip_is_public}

-- `protocol` without its final colon.
pub record Url : Type 0 where
  pub scheme : Text
  pub hostname : Text

pub record FetchTargetOptions : Type 0 where
  pub allowed_hosts : List Text
  pub allow_private : Bool
  pub allowed_schemes : Option (List Text)

-- Nothing, or the message of the `UnsafeURLError`.
pub data Verdict : Type 0 where
  allowed : Verdict
  invalid_url bad_scheme no_host host_not_allowed not_public unresolved resolves_privately : Verdict

abbrev default_schemes : Option (List Text) → List Text
default_schemes none = codes "https" ∷ codes "http" ∷ []
default_schemes (some schemes) = schemes

abbrev pub has_scheme : FetchTargetOptions → Url → Bool
has_scheme options url =
    any (text_eq (to_lower url.scheme)) (map to_lower (default_schemes options.allowed_schemes))

abbrev is_empty : Text → Bool
is_empty [] = true
is_empty (c ∷ s) = false

abbrev non_empty : List Text → List Text
non_empty [] = []
non_empty ([] ∷ hosts) = non_empty hosts
non_empty ((c ∷ s) ∷ hosts) = (c ∷ s) ∷ non_empty hosts

-- An allowlist without a host is no allowlist.
abbrev pub host_is_allowed : List Text → Text → Bool
host_is_allowed [] host = true
host_is_allowed (h ∷ hosts) host = host_matches host (h ∷ hosts)

module _ (is_ip : Text → ℕ) (resolve : Text → Option (List Text)) where
  -- The check of the resolved addresses.
  unfoldable pub check_records : Option (List Text) → Verdict
  check_records none = unresolved
  check_records (some addresses) =
      if all (ip_is_public is_ip) addresses then allowed else resolves_privately

  unfoldable pub check_address : Text → Verdict
  check_address host =
      if is_ip host == 0
      then check_records (resolve host)
      else if ip_is_public is_ip host
      then allowed
      else not_public

  unfoldable pub check_fetch_target : Option Url → FetchTargetOptions → Verdict
  check_fetch_target none options = invalid_url
  check_fetch_target (some url) options =
      if not (has_scheme options url)
      then bad_scheme
      else if is_empty url.hostname
      then no_host
      else if not (host_is_allowed (non_empty options.allowed_hosts) url.hostname)
      then host_not_allowed
      else if options.allow_private
      then allowed
      else check_address url.hostname

  -- What a host leads to is public: the address that it is, or every address that it resolves to.
  abbrev pub LeadsToPublic : Text → Type 0
  LeadsToPublic host =
      ((is_ip host ≢ 0) × (ip_is_public is_ip host ≡ true))
      ⊎ ((is_ip host ≡ 0)
          × ((addresses : List Text) × (resolve host ≡ some addresses)
              × All (λ a. ip_is_public is_ip a ≡ true) addresses))

  all-All :
      (addresses : List Text)
      → all (ip_is_public is_ip) addresses ≡ true
      → All (λ a. ip_is_public is_ip a ≡ true) addresses
  all-All [] h = tt
  all-All (a ∷ addresses) h = (ground arith, all-All addresses (ground arith))

  All-all :
      (addresses : List Text)
      → All (λ a. ip_is_public is_ip a ≡ true) addresses
      → all (ip_is_public is_ip) addresses ≡ true
  All-all [] h = refl
  All-all (a ∷ addresses) h = ground (arith, h.0, All-all addresses h.1)

  check_records_sound :
      (r : Option (List Text))
      → check_records r ≡ allowed
      → (addresses : List Text) × (r ≡ some addresses)
        × All (λ a. ip_is_public is_ip a ≡ true) addresses
  unfolding check_records
  check_records_sound none h = absurd (cc)
  check_records_sound (some addresses) h = elim (Bool-cases (all (ip_is_public is_ip) addresses)) [
    | inl public ↦ (addresses, refl, all-All addresses public)
    | inr private ↦ absurd (cc (rw (private, check_records) at h))
  ]

  check_records_complete :
      (r : Option (List Text)) (addresses : List Text)
      → r ≡ some addresses
      → All (λ a. ip_is_public is_ip a ≡ true) addresses
      → check_records r ≡ allowed
  unfolding check_records
  check_records_complete r addresses e public = rw (e, check_records, All-all addresses public) refl

  not_zero : (host : Text) → (is_ip host == 0) ≡ false → is_ip host ≢ 0
  not_zero host h e = cc (h, (==_iff (is_ip host) 0).1 e)

  check_address_iff : (host : Text) → (check_address host ≡ allowed) ↔ LeadsToPublic host
  unfolding check_address
  check_address_iff host = elim (Bool-cases (is_ip host == 0)) [
    | inl named ↦
        let zero_ip : is_ip host ≡ 0 = (==_iff (is_ip host) 0).0 named in
        (
          λ h. inr (zero_ip, check_records_sound (resolve host) (rw (named, check_address) at h)),
          λ l. elim l [
            | inl (literal, _) ↦ absurd (literal zero_ip)
            | inr (_, (addresses, e, public)) ↦
                rw (named, check_address) (check_records_complete (resolve host) addresses e public)
          ],
        )
    | inr literal ↦ (
      λ h. elim (Bool-cases (ip_is_public is_ip host)) [
        | inl public ↦ inl (not_zero host literal, public)
        | inr private ↦ absurd (cc (rw (literal, private, check_address) at h))
      ],
      λ l. elim l [
        | inl (_, public) ↦ rw (literal, public, check_address) refl
        | inr (zero_ip, _) ↦ absurd (not_zero host literal zero_ip)
      ],
    )
  ]

  -- What the checks before the address ask of a URL.
  abbrev pub Acceptable : FetchTargetOptions → Url → Type 0
  Acceptable options url =
      (has_scheme options url ≡ true)
      × (is_empty url.hostname ≡ false)
      × (host_is_allowed (non_empty options.allowed_hosts) url.hostname ≡ true)

  passes_checks :
      (url : Url) (options : FetchTargetOptions)
      → Acceptable options url
      → check_fetch_target (some url) options
        ≡ (if options.allow_private then allowed else check_address url.hostname)
  unfolding check_fetch_target
  passes_checks url options (scheme, host, named) =
      rw (scheme, host, named, check_fetch_target) refl

  acceptable :
      (url : Url) (options : FetchTargetOptions)
      → check_fetch_target (some url) options ≡ allowed
      → Acceptable options url
  unfolding check_fetch_target
  acceptable url options h = elim (Bool-cases (has_scheme options url)) [
    | inr bad ↦ absurd (cc (rw (bad, check_fetch_target) at h))
    | inl scheme ↦ elim (Bool-cases (is_empty url.hostname)) [
      | inl bad ↦ absurd (cc (rw (scheme, bad, check_fetch_target) at h))
      | inr host ↦
          elim (Bool-cases (host_is_allowed (non_empty options.allowed_hosts) url.hostname)) [
            | inr bad ↦ absurd (cc (rw (scheme, host, bad, check_fetch_target) at h))
            | inl named ↦ (scheme, host, named)
          ]
    ]
  ]

  check_fetch_target-none :
      (options : FetchTargetOptions) → ¬ (check_fetch_target none options ≡ allowed)
  unfolding check_fetch_target
  check_fetch_target-none options h = cc

  target_sound :
      (url : Url) (options : FetchTargetOptions)
      → check_fetch_target (some url) options ≡ allowed
      → Acceptable options url × ((options.allow_private ≡ true) ⊎ LeadsToPublic url.hostname)
  target_sound url options h =
      let fine = acceptable url options h in
      let rest = sym (passes_checks url options fine) ∙ h in
      (
        fine,
        elim (Bool-cases options.allow_private) [
          | inl private ↦ inl private
          | inr public ↦ inr ((check_address_iff url.hostname).0 (rw public at rest))
        ],
      )

  target_complete :
      (url : Url) (options : FetchTargetOptions)
      → Acceptable options url × ((options.allow_private ≡ true) ⊎ LeadsToPublic url.hostname)
      → check_fetch_target (some url) options ≡ allowed
  target_complete url options (fine, address) =
      passes_checks url options fine ∙ elim (Bool-cases options.allow_private) [
        | inl private ↦ rw private refl
        | inr public ↦ elim address [
          | inl private ↦ absurd (cc)
          | inr leads ↦ rw public ((check_address_iff url.hostname).1 leads)
        ]
      ]

  not_some : (url : Url) → ¬ (none ≡ some url)
  not_some url h = cc

  some_eq : (u v : Url) → some u ≡ some v → u ≡ v
  some_eq u v h = cc

  -- A target is let through exactly when it parses to a URL whose scheme is among the allowed ones,
  -- whose host is not empty and, where the allowlist names any host, matches it, and whose host is a
  -- public address literal or resolves to public addresses alone, unless private targets are allowed.
  pub check_fetch_target_iff :
      (parsed : Option Url) (options : FetchTargetOptions)
      → (check_fetch_target parsed options ≡ allowed) ↔ (
          (url : Url) × (parsed ≡ some url)
          × Acceptable options url
          × ((options.allow_private ≡ true) ⊎ LeadsToPublic url.hostname))
  check_fetch_target_iff none options =
      (λ h. absurd (check_fetch_target-none options h), λ x. absurd (not_some x.0 x.1))
  check_fetch_target_iff (some url) options = (
    λ h. let (fine, address) = target_sound url options h in (url, refl, fine, address),
    λ (u, e, fine, address). target_complete url options (
        subst
          (λ v. Acceptable options v × ((options.allow_private ≡ true) ⊎ LeadsToPublic v.hostname))
          (some_eq u url (sym e)) (fine, address)),
  )
