-- ===== src/Acquisition/Addresses/Mapped.antt =====
-- IPv4 addresses embedded in IPv6 ones.
use deepseek_harness_web3_ag.Prelude.{
  ℕ, ◌+◌, ◌*◌, ◌/◌, ◌%◌, ◌<◌, ◌≡◌, ◌≢◌, refl, sym, ◌∙◌, ap, subst, ◌↔◌, true, some, [], ◌∷◌, ◌++◌,
  Text, all, All, arith,
}
use deepseek_harness_web3_ag.Prelude.Decimal.{
  show, value_from-show, IsDigit, show-IsDigit, length-show_below_1000,
}
use deepseek_harness_web3_ag.Acquisition.Texts.{split}
use deepseek_harness_web3_ag.Acquisition.Addresses.{
  is_digit, octet, ipv4_to_int, ipv4_is_public, quad, hextets_are_public,
}
use deepseek_harness_web3_ag.Acquisition.Addresses.V4.{IsPublic, ipv4_is_public_iff}

Without : ℕ → Text → Type 0
Without sep = All (λ c. c ≢ sep)

split_whole : (sep : ℕ) (p : Text) → Without sep p → split sep p ≡ p ∷ []
unfolding Without split
split_whole sep [] h = refl
split_whole sep (c ∷ p) h = ground (arith, split_whole sep p h.1)

split-append :
    (sep : ℕ) (p rest : Text) → Without sep p → split sep (p ++ sep ∷ rest) ≡ p ∷ split sep rest
unfolding Without split
split-append sep [] rest h = ground arith
split-append sep (c ∷ p) rest h = ground (arith, split-append sep p rest h.1)

digits-Without : (s : Text) → All IsDigit s → Without b'.' s
unfolding Without
digits-Without [] h = tt
digits-Without (c ∷ s) h = (omega arith, digits-Without s h.1)

all-is_digit : (s : Text) → All IsDigit s → all is_digit s ≡ true
all-is_digit [] h = refl
all-is_digit (c ∷ s) h = ground (arith, all-is_digit s h.1)

octet-show : (a : ℕ) → a < 256 → octet (show a) ≡ some a
unfolding octet
octet-show a h =
    ground
      (arith, length-show_below_1000 a, all-is_digit (show a) (show-IsDigit a), value_from-show a)

split-quad : (a b c d : ℕ) → split b'.' (quad a b c d) ≡ show a ∷ show b ∷ show c ∷ show d ∷ []
split-quad a b c d =
    split-append b'.' (show a) _ (clean a)
    ∙ ap (λ t. show a ∷ t)
        (split-append b'.' (show b) _ (clean b)
          ∙ ap (λ t. show b ∷ t)
              (split-append b'.' (show c) _ (clean c)
                ∙ ap (λ t. show c ∷ t) (split_whole b'.' (show d) (clean d))))
  where
    clean : (n : ℕ) → Without b'.' (show n)
    clean n = digits-Without (show n) (show-IsDigit n)

-- Writing four numbers below 256 with dots and reading them gives the number they make.
ipv4_to_int-quad :
    (a b c d : ℕ)
    → a < 256
    → b < 256
    → c < 256
    → d < 256
    → ipv4_to_int (quad a b c d) ≡ some (((a * 256 + b) * 256 + c) * 256 + d)
unfolding ipv4_to_int
ipv4_to_int-quad a b c d ha hb hc hd =
    rw (split-quad a b c d, octet-show a ha, octet-show b hb, octet-show c hc, octet-show d hd)
      (ground arith)

hextets_are_public-mapped :
    (h6 h7 : ℕ)
    → hextets_are_public (0 ∷ 0 ∷ 0 ∷ 0 ∷ 0 ∷ 0xffff ∷ h6 ∷ h7 ∷ [])
      ≡ ipv4_is_public (quad (h6 / 256 % 256) (h6 % 256) (h7 / 256 % 256) (h7 % 256))
unfolding hextets_are_public
hextets_are_public-mapped h6 h7 = refl

-- An IPv6 address that embeds an IPv4 one (::ffff:0:0/96) counts as public exactly when the embedded
-- address does.
pub hextets_are_public_iff :
    (h6 h7 : ℕ)
    → h6 < 65536
    → h7 < 65536
    → (hextets_are_public (0 ∷ 0 ∷ 0 ∷ 0 ∷ 0 ∷ 0xffff ∷ h6 ∷ h7 ∷ []) ≡ true)
      ↔ IsPublic (h6 * 65536 + h7)
hextets_are_public_iff h6 h7 small6 small7 =
    let addr = quad (h6 / 256 % 256) (h6 % 256) (h7 / 256 % 256) (h7 % 256) in
    let number : ipv4_to_int addr ≡ some (h6 * 65536 + h7) =
      ipv4_to_int-quad (h6 / 256 % 256) (h6 % 256) (h7 / 256 % 256) (h7 % 256) (omega arith)
        (omega arith) (omega arith) (omega arith)
      ∙ ap some (omega arith) in
    (
      λ h.
          let (n, e, public) =
            (ipv4_is_public_iff addr).0 (sym (hextets_are_public-mapped h6 h7) ∙ h) in
          subst IsPublic (some_eq (sym e ∙ number)) public,
      λ public.
          hextets_are_public-mapped h6 h7
          ∙ (ipv4_is_public_iff addr).1 (h6 * 65536 + h7, number, public),
    )
  where
    some_eq : {m n : ℕ} → some m ≡ some n → m ≡ n
    some_eq h = cc
