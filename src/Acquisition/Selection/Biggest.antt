-- ===== src/Acquisition/Selection/Biggest.antt =====
-- The largest of the files of `selectFiles` (dsh-tool-acquisition/src/selection.ts).
use deepseek_harness_web3_ag.Prelude.{
  ◌≤◌, ◌≡◌, refl, sym, subst, ◌⊎◌, inl, inr, true, false, List, [], ◌∷◌, ltb, All, arith,
  Bool-cases,
}
use deepseek_harness_web3_ag.Acquisition.Selection.{largest, AcquiredFile, biggest, reduce}

-- A file of the list.
abbrev pub Among : AcquiredFile → List AcquiredFile → Type 0
Among f [] = ⊥
Among f (g ∷ files) = (f ≡ g) ⊎ Among f files

biggest-go :
    (best file : AcquiredFile) (files : List AcquiredFile)
    → ltb best.size file.size ≡ true
    → biggest best (file ∷ files) ≡ biggest file files
unfolding biggest
biggest-go best file files more = simp (more, biggest)

biggest-stay :
    (best file : AcquiredFile) (files : List AcquiredFile)
    → ltb best.size file.size ≡ false
    → biggest best (file ∷ files) ≡ biggest best files
unfolding biggest
biggest-stay best file files less = simp (less, biggest)

biggest-none : (best : AcquiredFile) → biggest best [] ≡ best
unfolding biggest
biggest-none best = refl

-- A file of a list that none of it exceeds, starting from a file at hand.
abbrev pub Tops : AcquiredFile → AcquiredFile → List AcquiredFile → Type 0
Tops top best files =
    (best.size ≤ top.size) × All (λ f. f.size ≤ top.size) files × ((top ≡ best) ⊎ Among top files)

biggest-Tops :
    (best : AcquiredFile) (files : List AcquiredFile) → Tops (biggest best files) best files
biggest-Tops best [] =
    subst (λ t. Tops t best []) (sym (biggest-none best)) (omega arith, tt, inl refl)
biggest-Tops best (file ∷ files) = elim (Bool-cases (ltb best.size file.size)) [
  | inl more ↦
      let (top, rest, which) = biggest-Tops file files in
      subst (λ t. Tops t best (file ∷ files)) (sym (biggest-go best file files more))
        (ground (arith, top), (top, rest), inr which)
  | inr less ↦
      let (top, rest, which) = biggest-Tops best files in
      subst (λ t. Tops t best (file ∷ files)) (sym (biggest-stay best file files less))
        (
          top,
          (ground (arith, top), rest),
          elim which [ inl same ↦ inl same | inr among ↦ inr (inr among) ],
        )
]

All-Among :
    (P : AcquiredFile → Type 0) (f : AcquiredFile) (files : List AcquiredFile)
    → All P files
    → Among f files
    → P f
All-Among P f [] h a = absurd a
All-Among P f (g ∷ files) h (inl e) = subst P (sym e) h.0
All-Among P f (g ∷ files) h (inr a) = All-Among P f files h.1 a

abbrev pub Largest : List AcquiredFile → List AcquiredFile → Type 0
Largest matching result =
    ((matching ≡ []) × (result ≡ []))
    ⊎ ((top : AcquiredFile) × (result ≡ top ∷ [])
        × Among top matching
        × All (λ f. f.size ≤ top.size) matching)

pub reduce-Largest : (matching : List AcquiredFile) → Largest matching (reduce largest matching)
reduce-Largest [] = inl (refl, refl)
reduce-Largest (f ∷ files) =
    let (top, rest, which) = biggest-Tops f (f ∷ files) in
    inr (biggest f (f ∷ files), refl, elim which [ inl same ↦ inl same | inr among ↦ among ], rest)
