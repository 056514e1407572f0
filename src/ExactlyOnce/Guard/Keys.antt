-- ===== src/ExactlyOnce/Guard/Keys.antt =====
-- The keys of the guard: agents never share a tag, so what is kept for one is not another's.
use deepseek_harness_web3_ag.Prelude.{
  starts_with, ℕ, ◌+◌, ◌≤◌, ◌≡◌, ◌≢◌, refl, sym, ◌∙◌, ap, ◌⊎◌, inl, inr, Bool, true, false, not,
  Option, none, some, [], ◌∷◌, ◌++◌, Text, codes, text_eq, text_eq→eq, eq→text_eq, if◌then◌else◌,
  arith, Option-cases, Bool-cases, All,
}
use deepseek_harness_web3_ag.Prelude.Decimal.{show, show-injective, show-IsDigit, IsDigit}
use deepseek_harness_web3_ag.Prelude.Maps.{Dict, get, insert, get-insert, get-keep_if}
use deepseek_harness_web3_ag.ExactlyOnce.Guard.{
  Runtime, fresh, Agent, Exec, bar, reset_agent, agent_part, identity_key,
}

-- A text without the separator of the keys.
abbrev NoBar : Text → Type 0
NoBar = All (λ c. c ≢ b'|')

-- Whether a key begins with a tag and the separator is decided by the tag in front of it.
starts_with-bar :
    (p q rest : Text)
    → NoBar p
    → NoBar q
    → starts_with (p ++ bar) (q ++ (bar ++ rest)) ≡ text_eq p q
unfolding starts_with
starts_with-bar [] [] rest hp hq = refl
starts_with-bar [] (d ∷ q) rest hp hq = ground arith
starts_with-bar (c ∷ p) [] rest hp hq = ground arith
starts_with-bar (c ∷ p) (d ∷ q) rest hp hq = ground (arith, starts_with-bar p q rest hp.1 hq.1)

-- `a${n}`
abbrev tag : ℕ → Text
tag n = codes "a" ++ show n

tag-injective : (m n : ℕ) → tag m ≡ tag n → m ≡ n
tag-injective m n h = show-injective m n (cc)

digits-NoBar : (s : Text) → All IsDigit s → NoBar s
digits-NoBar [] h = tt
digits-NoBar (c ∷ s) h = (omega arith, digits-NoBar s h.1)

tag-NoBar : (n : ℕ) → NoBar (tag n)
tag-NoBar n = (omega arith, digits-NoBar (show n) (show-IsDigit n))

-- The tags given so far are those of the first numbers, one to an agent.
pub record IsTagged (r : Runtime) : Type 0 where
  pub numbered :
      (a id : Text) → get a r.agent_ids ≡ some id → (n : ℕ) × (n ≤ r.agent_seq) × (id ≡ tag n)
  pub apart : (a b id : Text) → get a r.agent_ids ≡ some id → get b r.agent_ids ≡ some id → a ≡ b

pub fresh-IsTagged : IsTagged fresh
unfolding get
fresh-IsTagged = record { numbered = λ a id. cc; apart = λ a b id. cc }

given_or_old :
    (a b x id : Text) (m : Dict Text)
    → get b (insert a x m) ≡ some id
    → ((a ≡ b) × (x ≡ id)) ⊎ (get b m ≡ some id)
given_or_old a b x id m h = elim (Bool-cases (text_eq a b)) [
  | inl same ↦ inl (text_eq→eq a b same, ground (arith, get-insert a b x m))
  | inr other ↦ inr (ground (arith, get-insert a b x m))
]

-- The next tag is nobody's yet.
not_given :
    (r : Runtime)
    → IsTagged r
    → (b id : Text) → get b r.agent_ids ≡ some id
    → ¬ (tag (r.agent_seq + 1) ≡ id)
not_given r t b id old e =
    let (n, below, named) = t.numbered b id old in
    absurd (omega (arith, tag-injective (r.agent_seq + 1) n (e ∙ named)))

-- Giving out the next tag.
give-IsTagged :
    (a : Text) (r : Runtime)
    → get a r.agent_ids ≡ none
    → IsTagged r
    → IsTagged (record r {
      agent_seq = r.agent_seq + 1;
      agent_ids = insert a (tag (r.agent_seq + 1)) r.agent_ids;
    })
give-IsTagged a r new t = record {
  numbered = λ b id h. elim (given_or_old a b (tag (r.agent_seq + 1)) id r.agent_ids h) [
    | inl (_, e) ↦ (r.agent_seq + 1, omega arith, sym e)
    | inr old ↦ let (n, below, e) = t.numbered b id old in (n, omega arith, e)
  ];
  apart = λ b c id h k. elim (given_or_old a b (tag (r.agent_seq + 1)) id r.agent_ids h) [
    | inl (a_b, e) ↦ elim (given_or_old a c (tag (r.agent_seq + 1)) id r.agent_ids k) [
      | inl (a_c, _) ↦ sym a_b ∙ a_c
      | inr old ↦ absurd (not_given r t c id old e)
    ]
    | inr old ↦ elim (given_or_old a c (tag (r.agent_seq + 1)) id r.agent_ids k) [
      | inl (_, e) ↦ absurd (not_given r t b id old e)
      | inr old' ↦ t.apart b c id old old'
    ]
  ];
}

pub agent_part-IsTagged :
    (a : Option Agent) (r : Runtime) → IsTagged r → IsTagged (agent_part a r).1
unfolding agent_part
agent_part-IsTagged none r t = t
agent_part-IsTagged (some a) r t = elim (Option-cases (get a.id r.agent_ids)) [
  | inl new ↦ rw (new, agent_part) (give-IsTagged a.id r new t)
  | inr (id, known) ↦ rw (known, agent_part) t
]

Bool-eq : (x y : Bool) → (x ≡ true → y ≡ true) → (y ≡ true → x ≡ true) → x ≡ y
Bool-eq true y to from = sym (to refl)
Bool-eq false true to from = from refl
Bool-eq false false to from = refl

-- Tags are compared as their agents are.
tags_eq :
    (a b pa pb : Text) (r : Runtime)
    → IsTagged r
    → get a r.agent_ids ≡ some pa
    → get b r.agent_ids ≡ some pb
    → text_eq pa pb ≡ text_eq a b
tags_eq a b pa pb r t ha hb =
    Bool-eq (text_eq pa pb) (text_eq a b)
      (λ e. eq→text_eq a b (t.apart a b pa ha (hb ∙ ap some (sym (text_eq→eq pa pb e)))))
      (λ e.
        eq→text_eq pa pb (some_eq (sym ha ∙ ap (λ x. get x r.agent_ids) (text_eq→eq a b e) ∙ hb)))
  where
    some_eq : {x y : Text} → some x ≡ some y → x ≡ y
    some_eq h = cc

given-NoBar : (a pa : Text) (r : Runtime) → IsTagged r → get a r.agent_ids ≡ some pa → NoBar pa
given-NoBar a pa r t h = let (n, _, e) = t.numbered a pa h in rw e (tag-NoBar n)

-- The outcomes of an agent are told by the tag in front of their keys.
identity_key-tag :
    (a b pa pb : Text) (exec : Exec) (r : Runtime)
    → IsTagged r
    → get a r.agent_ids ≡ some pa
    → get b r.agent_ids ≡ some pb
    → starts_with (pa ++ bar) (identity_key pb exec) ≡ text_eq a b
unfolding identity_key
identity_key-tag a b pa pb exec r t ha hb =
    starts_with-bar pa pb _ (given-NoBar a pa r t ha) (given-NoBar b pb r t hb)
    ∙ tags_eq a b pa pb r t ha hb

if-not {ℓ} : {A : Type ℓ} (b : Bool) (x y : A) → (if not b then x else y) ≡ (if b then y else x)
if-not true x y = refl
if-not false x y = refl

-- Where no two agents share a tag, a user message to one agent forgets the outcomes of exactly that
-- agent's calls; the calls in flight and the settled calls of every agent stay.
pub reset_agent_isolates :
    (a b pa pb : Text) (exec : Exec) (r : Runtime)
    → IsTagged r
    → get a r.agent_ids ≡ some pa
    → get b r.agent_ids ≡ some pb
    → let r' = reset_agent a r in
      (get (identity_key pb exec) r'.outcomes
        ≡ (if text_eq a b then none else get (identity_key pb exec) r.outcomes))
      × (r'.in_flight ≡ r.in_flight)
      × (r'.settled ≡ r.settled)
unfolding reset_agent
reset_agent_isolates a b pa pb exec r t ha hb =
    rw (ha, reset_agent)
      (
        get-keep_if _ (identity_key pb exec) r.outcomes
            ∙ if-not (starts_with (pa ++ bar) (identity_key pb exec))
                (get (identity_key pb exec) r.outcomes) none
            ∙ ap (λ x. if x then none else get (identity_key pb exec) r.outcomes)
                (identity_key-tag a b pa pb exec r t ha hb),
        refl,
        refl,
      )
