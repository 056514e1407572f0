-- ===== src/Aol/KeyCache/World.antt =====
-- Many callers of `getOrFetch` (dsh-haven-aol/src/keyCache.ts) at once, as a relation of steps, and what
-- its steps keep.
use deepseek_harness_web3_ag.Prelude.{
  ℕ, suc, ◌+◌, ◌≤◌, ◌≡◌, refl, subst, inl, inr, true, Option, none, some, List, [], ◌∷◌, ◌++◌, Text,
  text_eq, if◌then◌else◌, arith, Bool-cases, All,
}
use deepseek_harness_web3_ag.Prelude.Maps.{get}
use deepseek_harness_web3_ag.Aol.KeyCache.{
  Cache, Lookup, hit, attached, filling, enter, fetched, failed, clear,
}

abbrev pub Fill : Type 0
Fill = ℕ × Text

-- The cache, the fetches under way, and for the record the slots of all fetches started and of those
-- that failed, and how often the cache was cleared.
pub record World (V : Type 0) : Type 0 where
  pub cache : Cache V
  pub fetching : List Fill
  pub started : List Text
  pub failures : List Text
  pub clears : ℕ

abbrev pub count : Text → List Text → ℕ
count k [] = 0
count k (j ∷ js) = if text_eq j k then suc (count k js) else count k js

abbrev pub count_fills : Text → List Fill → ℕ
count_fills k [] = 0
count_fills k ((n, j) ∷ fs) = if text_eq j k then suc (count_fills k fs) else count_fills k fs

pub count_fills-middle :
    (k : Text) (before after : List Fill) (n : ℕ) (j : Text)
    → count_fills k (before ++ (n, j) ∷ after) ≡ (
        if text_eq j k
        then suc (count_fills k (before ++ after))
        else count_fills k (before ++ after))
count_fills-middle k [] after n j = refl
count_fills-middle k ((m, i) ∷ before) after n j =
    ground (arith, count_fills-middle k before after n j)

-- Where no fill is of the slot, all is said of the fills of the slot.
pub count_fills-zero :
    (k : Text) (P : ℕ → Type 0) (fs : List Fill)
    → count_fills k fs ≡ 0
    → All (λ f. text_eq f.1 k ≡ true → P f.0) fs
count_fills-zero k P [] h = tt
count_fills-zero k P ((m, i) ∷ fs) h =
    (λ same. absurd (ground arith), count_fills-zero k P fs (ground arith))

-- Where a slot is not in flight, no fill is of it.
pub count_fills-idle :
    (k : Text) (o : Option ℕ) (fs : List Fill)
    → All (λ f. text_eq f.1 k ≡ true → o ≡ some f.0) fs
    → o ≡ none
    → count_fills k fs ≡ 0
count_fills-idle k o [] h idle = refl
count_fills-idle k o ((m, i) ∷ fs) h idle = elim (Bool-cases (text_eq i k)) [
  | inl same ↦ absurd (cc (h.0 same, idle))
  | inr other ↦ rw other (count_fills-idle k o fs h.1 idle)
]

-- Each fill of the slot is the one in flight.
abbrev pub Held : Text → Option ℕ → List Fill → Type 0
Held k o = All (λ f. text_eq f.1 k ≡ true → o ≡ some f.0)

pub hold : (k : Text) {o p : Option ℕ} (fs : List Fill) → o ≡ p → Held k o fs → Held k p fs
hold k fs e h = subst (λ q. Held k q fs) e h

module _ {V : Type 0} where
  abbrev pub start : World V
  start = record {
    cache = record { entries = []; inflight = []; begun = 0 };
    fetching = [];
    started = [];
    failures = [];
    clears = 0;
  }

  abbrev pub place : Text → Lookup V × Cache V → World V → World V
  place slot (filling n, r) w = record w {
    cache = r;
    fetching = (n, slot) ∷ w.fetching;
    started = slot ∷ w.started;
  }
  place slot (hit value, r) w = record w { cache = r }
  place slot (attached n, r) w = record w { cache = r }

  pub data Step (w : World V) : World V → Type 0 where
    arrive : (slot : Text) → Step w (place slot (enter slot w.cache) w)
    answer :
        (before after : List Fill) (n : ℕ) (slot : Text) (value : V)
        → w.fetching ≡ before ++ (n, slot) ∷ after
        → Step w (record w { cache = fetched n slot value w.cache; fetching = before ++ after })
    fail :
        (before after : List Fill) (n : ℕ) (slot : Text)
        → w.fetching ≡ before ++ (n, slot) ∷ after
        → Step w (record w {
          cache = failed n slot w.cache;
          fetching = before ++ after;
          failures = slot ∷ w.failures;
        })
    wipe : Step w (record w { cache = clear w.cache; clears = suc w.clears })

  pub data Reach : World V → Type 0 where
    here : Reach start
    next : {w v : World V} → Reach w → Step w v → Reach v

  -- Whether a slot is filled or being filled.
  abbrev pub taken : Option V → Option ℕ → ℕ
  taken (some value) o = 1
  taken none (some n) = 1
  taken none none = 0

  abbrev pub Holds : Text → World V → Type 0
  Holds k w = Held k (get k w.cache.inflight) w.fetching

  pub record Inv (k : Text) (w : World V) : Type 0 where
    pub single : count_fills k w.fetching ≤ 1
    pub held : Holds k w
    pub paid :
        count k w.started
        ≤ count k w.failures + w.clears + taken (get k w.cache.entries) (get k w.cache.inflight)
