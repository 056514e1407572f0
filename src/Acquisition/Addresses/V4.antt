-- ===== src/Acquisition/Addresses/V4.antt =====
-- Which IPv4 addresses are public, as intervals of numbers.
use deepseek_harness_web3_ag.Prelude.{
  ℕ, ◌+◌, ◌*◌, ◌^◌, ◌≤◌, ◌<◌, ◌≡◌, refl, sym, ◌∙◌, ap, ◌↔◌, ◌⊎◌, inl, inr, Bool, true, false, not,
  none, some, List, [], ◌∷◌, Text, any, arith, Option-cases,
}
use deepseek_harness_web3_ag.Acquisition.Texts.{split}
use deepseek_harness_web3_ag.Acquisition.Addresses.{
  octet, four_octets, ipv4_to_int, in_cidr_v4, ipv4_non_public, ipv4_is_public,
}

-- `a.b.0.0` as a number.
abbrev dotted : ℕ → ℕ → ℕ → ℕ
dotted a b c = ((a * 256 + b) * 256 + c) * 256

-- Outside the interval from one number up to another, which is not in it.
abbrev Outside : ℕ → ℕ → ℕ → Type 0
Outside n from to = (n < from) ⊎ (to ≤ n)

-- Neither this-network, private, shared, loopback, link-local, documentation, multicast nor reserved.
abbrev pub IsPublic : ℕ → Type 0
IsPublic n =
    Outside n 0 (dotted 1 0 0)
    × Outside n (dotted 10 0 0) (dotted 11 0 0)
    × Outside n (dotted 100 64 0) (dotted 100 128 0)
    × Outside n (dotted 127 0 0) (dotted 128 0 0)
    × Outside n (dotted 169 254 0) (dotted 169 255 0)
    × Outside n (dotted 172 16 0) (dotted 172 32 0)
    × Outside n (dotted 192 0 2) (dotted 192 0 3)
    × Outside n (dotted 192 168 0) (dotted 192 169 0)
    × Outside n (dotted 198 51 100) (dotted 198 51 101)
    × Outside n (dotted 203 0 113) (dotted 203 0 114)
    × Outside n (dotted 224 0 0) (dotted 240 0 0)
    × Outside n (dotted 240 0 0) (dotted 256 0 0)

-- Whether a number is in none of the blocks.
in_cidr_v4_sound : (n : ℕ) → any (in_cidr_v4 n) ipv4_non_public ≡ false → IsPublic n
unfolding in_cidr_v4 ipv4_to_int octet split
in_cidr_v4_sound n h = ground arith

in_cidr_v4_complete : (n : ℕ) → n < 2 ^ 32 → IsPublic n → any (in_cidr_v4 n) ipv4_non_public ≡ false
unfolding in_cidr_v4 ipv4_to_int octet split
in_cidr_v4_complete n small h = ground arith

octet-cases : (part : Text) → (octet part ≡ none) ⊎ ((m : ℕ) × (octet part ≡ some m) × (m < 256))
unfolding octet
octet-cases part = elim (Option-cases (octet part)) [
  | inl bad ↦ inl bad
  | inr (m, e) ↦ inr (m, e, octet_bound part m e)
]
  where
    octet_bound : (s : Text) (m : ℕ) → octet s ≡ some m → m < 256
    octet_bound s m h = ground arith

four_octets_bound : (parts : List Text) (n : ℕ) → four_octets parts ≡ some n → n < 2 ^ 32
four_octets_bound (a ∷ b ∷ c ∷ d ∷ []) n h = elim (octet-cases a) [
  | inl bad ↦ ground arith
  | inr (i, ea, ha) ↦ elim (octet-cases b) [
    | inl bad ↦ ground arith
    | inr (j, eb, hb) ↦ elim (octet-cases c) [
      | inl bad ↦ ground arith
      | inr (k, ec, hc) ↦ elim (octet-cases d) [
        | inl bad ↦ ground arith
        | inr (l, ed, hd) ↦ ground arith
      ]
    ]
  ]
]
four_octets_bound [] n h = absurd (cc)
four_octets_bound (a ∷ []) n h = absurd (cc)
four_octets_bound (a ∷ b ∷ []) n h = absurd (cc)
four_octets_bound (a ∷ b ∷ c ∷ []) n h = absurd (cc)
four_octets_bound (a ∷ b ∷ c ∷ d ∷ e ∷ parts) n h = absurd (cc)

ipv4_to_int_bound : (addr : Text) (n : ℕ) → ipv4_to_int addr ≡ some n → n < 2 ^ 32
unfolding ipv4_to_int
ipv4_to_int_bound addr n h = four_octets_bound (split b'.' addr) n h

ipv4_is_public-number :
    (addr : Text) (n : ℕ)
    → ipv4_to_int addr ≡ some n
    → ipv4_is_public addr ≡ not (any (in_cidr_v4 n) ipv4_non_public)
unfolding ipv4_is_public
ipv4_is_public-number addr n e = rw (e, ipv4_is_public) refl

not-true : (b : Bool) → not b ≡ true → b ≡ false
not-true true h = absurd (cc)
not-true false h = refl

-- An IPv4 literal counts as public exactly when it is one of four decimal numbers up to 255 and lies
-- outside every reserved interval.
pub ipv4_is_public_iff :
    (addr : Text)
    → (ipv4_is_public addr ≡ true) ↔ ((n : ℕ) × (ipv4_to_int addr ≡ some n) × IsPublic n)
unfolding ipv4_is_public
ipv4_is_public_iff addr = (
  λ h. elim (Option-cases (ipv4_to_int addr)) [
    | inl bad ↦ absurd (cc (rw (bad, ipv4_is_public) at h))
    | inr (n, e) ↦
        (n, e, in_cidr_v4_sound n (not-true _ (sym (ipv4_is_public-number addr n e) ∙ h)))
  ],
  λ (n, e, public).
      ipv4_is_public-number addr n e
      ∙ ap not (in_cidr_v4_complete n (ipv4_to_int_bound addr n e) public),
)
