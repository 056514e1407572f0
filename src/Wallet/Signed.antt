-- ===== src/Wallet/Signed.antt =====
-- What signing with a wallet of dsh-wallet/src/index.ts announces, and with which key.
use deepseek_harness_web3_ag.Prelude.{
  ◌≡◌, refl, Option, none, some, [], ◌∷◌, Text, text_eq_refl, inl, inr, text_eq, if◌then◌else◌,
  arith, Option-cases, map, ℕ, Bool, true, false, ◌⊎◌, ap, subst, sym,
}
use deepseek_harness_web3_ag.Prelude.Maps.{Dict, get}
use deepseek_harness_web3_ag.Wallet.{
  Result, ok, threw, ResolvedDescriptor, WalletRuntime, WalletInfo, WalletSignedEvent, Operation,
  Providers, Session, Opened, with_secret, with_ref, begin_operation, sign_with, event_of,
  committed, sign_loaded, sign_opened, sign, agrees, find_info, list, check_signed, info_of,
}

pick :
    (b : Bool) (c d : ResolvedDescriptor) (x : Option ResolvedDescriptor)
    → (if b then some c else x) ≡ some d
    → ((b ≡ true) × (c ≡ d)) ⊎ ((b ≡ false) × (x ≡ some d))
pick true c d x e = inl (refl, cc)
pick false c d x e = inr (refl, e)

-- The wallet that is configured under a name is the one that the list has.
find_info-list :
    (r : WalletRuntime) (name : Text) (d : ResolvedDescriptor) (wallets : Dict ResolvedDescriptor)
    → get name wallets ≡ some d
    → (info : WalletInfo) × (find_info name (map (info_of r) wallets) ≡ some info)
      × (info.chain ≡ d.chain)
unfolding find_info get
find_info-list r name d [] e = absurd (ground arith)
find_info-list r name d ((j, c) ∷ wallets) e = elim (pick (text_eq j name) c d _ e) [
  | inl (same, this) ↦ (info_of r (j, c), rw same refl, ap (λ x. x.chain) this)
  | inr (other, later) ↦ rw other (find_info-list r name d wallets later)
]

pub check_signed-configured :
    (r : WalletRuntime) (event : WalletSignedEvent) (d : ResolvedDescriptor)
    → get event.wallet r.wallets ≡ some d
    → d.chain ≡ event.chain
    → check_signed r event ≡ agrees
unfolding check_signed list
check_signed-configured r event d e same =
    let (info, found, chain) = find_info-list r event.wallet d r.wallets e in
    rw (found, chain, same, text_eq_refl event.chain) refl

module _ (P : Providers) where
  -- The key source has what is configured, and the secret that the credentials hold at that moment.
  abbrev pub Fresh : Option Text → P.W → Option Text → P.W → Type 0
  Fresh none w secret w' = (secret ≡ none) × (w' ≡ w)
  Fresh (some ref) w secret w' =
      (value : Text) × (secret ≡ some value) × (P.resolve ref w ≡ (ok (some value), w'))

  pub record Opens (r : WalletRuntime) (name : Text) (w : P.W) (o : Opened) (w' : P.W)
      : Type 0 where
    pub configured : get name r.wallets ≡ some o.descriptor
    pub registered : get o.descriptor.chain r.adapters ≡ some o.adapter
    pub wallet : o.source.wallet ≡ o.descriptor.wallet
    pub chain : o.source.chain ≡ o.descriptor.chain
    pub secret : Fresh o.descriptor.key_ref w o.source.secret w'

  -- What is said of a result where there is one.
  abbrev pub Begun : WalletRuntime → Text → P.W → Result Opened × P.W → Type 0
  Begun r name w (ok o, w') = Opens r name w o w'
  Begun r name w (threw e, w') = Unit

  secret-Begun :
      (r : WalletRuntime) (name ref : Text) (d : ResolvedDescriptor) (a : ℕ) (w : P.W)
      (p : Result (Option Text) × P.W)
      → get name r.wallets ≡ some d
      → get d.chain r.adapters ≡ some a
      → d.key_ref ≡ some ref
      → P.resolve ref w ≡ p
      → Begun r name w (with_secret P a d p)
  secret-Begun r name ref d a w (ok none, w') c g k e = tt
  secret-Begun r name ref d a w (threw t, w') c g k e = tt
  secret-Begun r name ref d a w (ok (some value), w') c g k e = record {
    configured = c;
    registered = g;
    wallet = refl;
    chain = refl;
    secret = subst (λ x. Fresh x w (some value) w') (sym k) (value, refl, e);
  }

  ref-Begun :
      (r : WalletRuntime) (name : Text) (d : ResolvedDescriptor) (a : ℕ) (w : P.W) (k : Option Text)
      → get name r.wallets ≡ some d
      → get d.chain r.adapters ≡ some a
      → d.key_ref ≡ k
      → Begun r name w (with_ref P a d k w)
  ref-Begun r name d a w (some ref) c g k = secret-Begun r name ref d a w _ c g k refl
  ref-Begun r name d a w none c g k = record {
    configured = c;
    registered = g;
    wallet = refl;
    chain = refl;
    secret = subst (λ x. Fresh x w none w) (sym k) (refl, refl);
  }

  begin_operation-Begun :
      (r : WalletRuntime) (name : Text) (w : P.W) → Begun r name w (begin_operation P r name w)
  unfolding begin_operation
  begin_operation-Begun r name w = elim (Option-cases (get name r.wallets)) [
    | inl e ↦ rw (e, begin_operation) tt
    | inr (d, c) ↦ elim (Option-cases (get d.chain r.adapters)) [
      | inl e ↦ rw (c, e, begin_operation) tt
      | inr (a, g) ↦ rw (c, g, begin_operation) (ref-Begun r name d a w _ c g refl)
    ]
  ]

  module _ (r : WalletRuntime) (name : Text) (op : Operation) (payload : Text) (s : Session P) where
    -- A signature was made by the adapter of the configured chain with a key that was loaded just now, and
    -- one event says so, which agrees with the configuration; a failure leaves no event.
    abbrev pub Announced : Result (Text × Text) × Session P → Type 0
    Announced (threw e, s') = s'.events ≡ s.events
    Announced (ok (address, signature), s') =
        (o : Opened) × (key : P.K) × (w : P.W) × (w' : P.W) × Opens r name s.outside o w
        × ((P.adapter o.adapter).load_key o.source w ≡ (ok (address, key), w'))
        × (sign_with P op o.adapter key payload w' ≡ (ok signature, s'.outside))
        × (s'.events ≡ event_of P name op o address ∷ s.events)
        × (check_signed r (event_of P name op o address) ≡ agrees)

    committed-Announced :
        (o : Opened) (address : Text) (key : P.K) (w w' : P.W) (p : Result Text × P.W)
        → Opens r name s.outside o w
        → (P.adapter o.adapter).load_key o.source w ≡ (ok (address, key), w')
        → sign_with P op o.adapter key payload w' ≡ p
        → Announced (committed P (event_of P name op o address) s.events p)
    committed-Announced o address key w w' (threw e, v) opens load e' = refl
    committed-Announced o address key w w' (ok signature, v) opens load signs = (
      o,
      key,
      w,
      w',
      opens,
      load,
      signs,
      refl,
      check_signed-configured r _ o.descriptor opens.configured refl,
    )

    loaded-Announced :
        (o : Opened) (w : P.W) (p : Result (Text × P.K) × P.W)
        → Opens r name s.outside o w
        → (P.adapter o.adapter).load_key o.source w ≡ p
        → Announced (sign_loaded P name op payload s.events o p)
    loaded-Announced o w (threw e, w') opens load = refl
    loaded-Announced o w (ok (address, key), w') opens load =
        committed-Announced o address key w w' _ opens load refl

    opened-Announced :
        (p : Result Opened × P.W)
        → Begun r name s.outside p
        → Announced (sign_opened P name op payload s.events p)
    opened-Announced (threw e, w) h = refl
    opened-Announced (ok o, w) h = loaded-Announced o w _ h refl

    -- A signing operation that answers used the adapter registered for the configured chain, with a key that
    -- it loaded from the configured selector and the secret that the credentials gave in this operation,
    -- and emitted exactly one event, which the check of the configuration accepts; one that fails, at
    -- whatever point, emitted none.
    pub sign-Announced : Announced (sign P r name op payload s)
    unfolding sign
    sign-Announced = opened-Announced _ (begin_operation-Begun r name s.outside)
