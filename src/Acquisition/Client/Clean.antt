-- ===== src/Acquisition/Client/Clean.antt =====
-- What the errors of a torrent client (dsh-tool-acquisition/src/qbittorrent.ts and
-- dsh-tool-acquisition/src/transmission.ts) say of its server.
use deepseek_harness_web3_ag.Prelude.{
  ◌≡◌, refl, ◌⊎◌, inl, inr, Bool, true, false, ◌||◌, Option, none, some, Text, if◌then◌else◌, arith,
  Bool-cases,
}
use deepseek_harness_web3_ag.Acquisition.Torrent.{TorrentMeta, parse_torrent}
use deepseek_harness_web3_ag.Acquisition.Acquire.Outside.{
  AcquisitionError, Thrown, acquisition, other, Answer, gave, broke,
}
use deepseek_harness_web3_ag.Acquisition.Acquire.Status.{Library}
use deepseek_harness_web3_ag.Acquisition.Acquire.Clients.{is_definite_pre_queue}
use deepseek_harness_web3_ag.Acquisition.Client.{Added, with_meta, prepare}

-- Permanent, or from before anything was queued.
abbrev pub is_definite : AcquisitionError → Bool
is_definite e = e.permanent || is_definite_pre_queue e

-- `has` tells whether the server of a client in a state of `C` holds the torrent, and `h` whether it did.
module _ {C : Type 0} (has : C → Bool) (h : Bool) where
  -- Every error is classified, and a definite one left the server as it was; `P` holds of an answer.
  abbrev pub Ends : {A : Type 0} → (A → C → Type 0) → Answer A × C → Type 0
  Ends P (gave a, s) = P a s
  Ends P (broke (acquisition e), s) = is_definite e ≡ true → has s ≡ h
  Ends P (broke (other t), s) = ⊥

  pub if-Ends :
      {A : Type 0} (P : A → C → Type 0) (b : Bool) (x y : Answer A × C)
      → (b ≡ true → Ends P x)
      → (b ≡ false → Ends P y)
      → Ends P (if b then x else y)
  if-Ends P true x y hx hy = hx refl
  if-Ends P false x y hx hy = hy refl

  pub failed-Ends :
      {A : Type 0} (P : A → C → Type 0) (p : Answer A × C)
      → Ends P p
      → (x : Thrown) → p.0 ≡ broke x
      → (e : AcquisitionError) × (x ≡ acquisition e) × ((is_definite e ≡ false) ⊎ (has p.1 ≡ h))
  failed-Ends P (gave a, s) ends x e = absurd (ground arith)
  failed-Ends P (broke (other t), s) ends x e = absurd ends
  failed-Ends P (broke (acquisition error), s) clean x e = (
    error,
    cc,
    elim (Bool-cases (is_definite error)) [
      | inl definite ↦ inr (clean definite)
      | inr open_ ↦ inl open_
    ],
  )

-- No error, or a classified one.
abbrev pub Classified : Answer (Option Text × Added) → Type 0
Classified (gave a) = Unit
Classified (broke (acquisition e)) = Unit
Classified (broke (other t)) = ⊥

meta-Classified :
    (hash : Option Text) (text : Text) (o : Option TorrentMeta) → Classified (with_meta hash text o)
meta-Classified hash text none = tt
meta-Classified hash text (some meta) = tt

pub prepare-Classified :
    (library : Library) (hash torrent magnet : Option Text)
    → Classified (prepare library hash torrent magnet)
prepare-Classified library hash (some text) magnet =
    meta-Classified hash text (parse_torrent library.utf8_of library.sha1_hex text)
prepare-Classified library hash none (some uri) = tt
prepare-Classified library hash none none = tt
