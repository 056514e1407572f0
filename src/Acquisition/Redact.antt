-- ===== src/Acquisition/Redact.antt =====
-- `isSensitiveParam` and `redactText` of dsh-tool-acquisition/src/redact.ts.
use deepseek_harness_web3_ag.Prelude.{
  ℕ, zero, suc, ◌-◌, ◌≤◌, ◌≡◌, refl, sym, ==_refl, ◌∙◌, ap, inl, inr, Bool, true, false, ◌||◌,
  Option, none, some, List, [], ◌∷◌, ◌++◌, Text, codes, text_eq, ltb, ◌==◌, if◌then◌else◌, length,
  any, All, arith, Bool-cases, starts_with,
}
use deepseek_harness_web3_ag.Acquisition.Texts.{to_lower}
use deepseek_harness_web3_ag.Acquisition.Sniff.{includes}

abbrev pub redacted : Text
redacted = codes "[REDACTED]"

abbrev sensitive_query_params : List Text
sensitive_query_params =
    codes "apikey"
    ∷ codes "key"
    ∷ codes "token"
    ∷ codes "accesstoken"
    ∷ codes "auth"
    ∷ codes "authkey"
    ∷ codes "authtoken"
    ∷ codes "passkey"
    ∷ codes "torrentpass"
    ∷ codes "rsskey"
    ∷ codes "secret"
    ∷ codes "password"
    ∷ codes "pass"
    ∷ codes "sig"
    ∷ codes "signature"
    ∷ codes "uid"
    ∷ codes "session"
    ∷ codes "sessionid"
    ∷ codes "sid"
    ∷ []

abbrev drop_dashes : Text → Text
drop_dashes [] = []
drop_dashes (c ∷ s) = if c == b'-' || c == b'_' then drop_dashes s else c ∷ drop_dashes s

-- `normParam`
unfoldable pub norm_param : Text → Text
norm_param name = to_lower (drop_dashes name)

unfoldable pub is_sensitive_param : Text → Bool
is_sensitive_param name = any (text_eq (norm_param name)) sensitive_query_params

-- `out.split(secret).join(REDACTED)`, for a secret that is not empty: `skip` counts the characters of
-- an occurrence that are still to be passed over.
unfoldable pub replace_secret : Text → ℕ → Text → Text
replace_secret secret skip [] = []
replace_secret secret (suc skip) (c ∷ s) = replace_secret secret skip s
replace_secret secret zero (c ∷ s) = elim (starts_with secret (c ∷ s)) [
  | true ↦ redacted ++ replace_secret secret (length secret - 1) s
  | false ↦ c ∷ replace_secret secret zero s
]

-- An absent secret is `none`.
unfoldable pub redact_text : Text → List (Option Text) → Text
redact_text text [] = text
redact_text text (none ∷ secrets) = redact_text text secrets
redact_text text (some secret ∷ secrets) =
    if ltb (length secret) 4
    then redact_text text secrets
    else redact_text (replace_secret secret 0 text) secrets

replace_secret-here :
    (secret : Text) (c : ℕ) (s : Text)
    → starts_with secret (c ∷ s) ≡ false
    → replace_secret secret 0 (c ∷ s) ≡ c ∷ replace_secret secret 0 s
unfolding replace_secret
replace_secret-here secret c s h = simp (h, replace_secret)

replace_secret-none : (secret : Text) → replace_secret secret 0 [] ≡ []
unfolding replace_secret
replace_secret-none secret = refl

includes-tail :
    (c : ℕ) (s needle : Text)
    → includes (c ∷ s) needle ≡ false
    → (starts_with needle (c ∷ s) ≡ false) × (includes s needle ≡ false)
unfolding includes
includes-tail c s needle h = elim (Bool-cases (starts_with needle (c ∷ s))) [
  | inl found ↦ absurd (cc (rw (found, includes) at h))
  | inr absent ↦ (absent, rw (absent, includes) at h)
]

replace_secret_absent :
    (secret s : Text) → includes s secret ≡ false → replace_secret secret 0 s ≡ s
replace_secret_absent secret [] h = replace_secret-none secret
replace_secret_absent secret (c ∷ s) h =
    let (here, later) = includes-tail c s secret h in
    replace_secret-here secret c s here ∙ ap (λ t. c ∷ t) (replace_secret_absent secret s later)

-- A secret that is missing, short or not in the text.
abbrev pub IsHarmless : Text → Option Text → Type 0
IsHarmless text none = Unit
IsHarmless text (some secret) = includes text secret ≡ false

-- Redaction leaves a text alone in which no secret occurs.
redact_text_absent :
    (text : Text) (secrets : List (Option Text))
    → All (IsHarmless text) secrets
    → redact_text text secrets ≡ text
unfolding redact_text
redact_text_absent text [] h = refl
redact_text_absent text (none ∷ secrets) h = redact_text_absent text secrets h.1
redact_text_absent text (some secret ∷ secrets) h = elim (Bool-cases (ltb (length secret) 4)) [
  | inl short ↦ rw short (redact_text_absent text secrets h.1)
  | inr long ↦
      rw (long, replace_secret_absent secret text h.0) (redact_text_absent text secrets h.1)
]

starts_with-append : (p s : Text) → starts_with p (p ++ s) ≡ true
unfolding starts_with
starts_with-append [] s = refl
starts_with-append (c ∷ p) s = ground (arith, ==_refl c, starts_with-append p s)

replace_secret-skip :
    (secret p s : Text) → replace_secret secret (length p) (p ++ s) ≡ replace_secret secret 0 s
unfolding replace_secret
replace_secret-skip secret [] s = refl
replace_secret-skip secret (c ∷ p) s = replace_secret-skip secret p s

replace_secret-found :
    (secret : Text) (c : ℕ) (s : Text)
    → starts_with secret (c ∷ s) ≡ true
    → replace_secret secret 0 (c ∷ s) ≡ redacted ++ replace_secret secret (length secret - 1) s
unfolding replace_secret
replace_secret-found secret c s h = simp (h, replace_secret)

-- No occurrence of the secret begins in the front of a text.
abbrev pub IsClear : Text → Text → Text → Type 0
IsClear secret [] rest = Unit
IsClear secret (c ∷ front) rest =
    (starts_with secret (c ∷ front ++ rest) ≡ false) × IsClear secret front rest

replace_secret-first :
    (c : ℕ) (p front back : Text)
    → IsClear (c ∷ p) front (c ∷ p ++ back)
    → replace_secret (c ∷ p) 0 (front ++ (c ∷ p ++ back))
      ≡ front ++ (redacted ++ replace_secret (c ∷ p) 0 back)
replace_secret-first c p [] back h =
    let rest : suc (length p) - 1 ≡ length p = omega arith in
    replace_secret-found (c ∷ p) c (p ++ back) (starts_with-append (c ∷ p) back)
    ∙ ap (λ n. redacted ++ replace_secret (c ∷ p) n (p ++ back)) rest
    ∙ ap (λ t. redacted ++ t) (replace_secret-skip (c ∷ p) p back)
replace_secret-first c p (d ∷ front) back h =
    replace_secret-here (c ∷ p) d (front ++ (c ∷ p ++ back)) h.0
    ∙ ap (λ t. d ∷ t) (replace_secret-first c p front back h.1)

redact_text-one :
    (text secret : Text)
    → ltb (length secret) 4 ≡ false
    → redact_text text (some secret ∷ []) ≡ replace_secret secret 0 text
unfolding redact_text
redact_text-one text secret long = simp (long, redact_text)

-- The first occurrence of a secret of four characters or more is replaced by the placeholder, what
-- stands in front of it stays, and what follows it is redacted in turn.
redact_text_first :
    (secret front back : Text)
    → 4 ≤ length secret
    → IsClear secret front (secret ++ back)
    → redact_text (front ++ (secret ++ back)) (some secret ∷ [])
      ≡ front ++ (redacted ++ redact_text back (some secret ∷ []))
redact_text_first [] front back long h = absurd (omega arith)
redact_text_first (c ∷ p) front back long h =
    let enough : ltb (length (c ∷ p)) 4 ≡ false = ground arith in
    redact_text-one (front ++ (c ∷ p ++ back)) (c ∷ p) enough
    ∙ replace_secret-first c p front back h
    ∙ ap (λ t. front ++ (redacted ++ t)) (sym (redact_text-one back (c ∷ p) enough))
