-- ===== src/Llm/Redact/Pieces.antt =====
-- A redacted text against its pieces between the places where the key stood.
use ragline.Base.{
  ℕ, zero, suc, ◌≡◌, refl, sym, ap, ◌∙◌, true, false, List, [], ◌∷◌, ◌++◌, append-nil, some, Bytes,
  has_prefix, length, drop, join, arith, if◌then◌else◌, Bool-cases, inl, inr,
}
use ragline.Rerank.Result.{All}
use ragline.Llm.Redact.{contains_text, replace_from, redacted, redact}

abbrev onto_first : ℕ → List Bytes → List Bytes
onto_first c [] = (c ∷ []) ∷ []
onto_first c (p ∷ ps) = (c ∷ p) ∷ ps

prefix-drop : (s p : Bytes) → has_prefix s p ≡ true → s ≡ p ++ drop (length p) s
unfolding has_prefix
prefix-drop s [] h = refl
prefix-drop [] (d ∷ p) h = cc
prefix-drop (c ∷ s) (d ∷ p) h = ground (arith, prefix-drop s p)

prefix-append : (s t p : Bytes) → has_prefix s p ≡ true → has_prefix (s ++ t) p ≡ true
unfolding has_prefix
prefix-append s t [] h = refl
prefix-append [] t (d ∷ p) h = cc
prefix-append (c ∷ s) t (d ∷ p) h = ground (arith, prefix-append s t p)

join-front :
    (p : Bytes) (ps : List Bytes) (sep : Bytes) → (rest : Bytes) × (join (p ∷ ps) sep ≡ p ++ rest)
unfolding join
join-front p [] sep = ([], sym (append-nil p))
join-front p (q ∷ ps) sep = (sep ++ join (q ∷ ps) sep, refl)

module _ (k : ℕ) (ey : Bytes) where
  abbrev pub key : Bytes
  key = k ∷ ey

  -- The text cut at the key, from the left.
  pub pieces : ℕ → Bytes → List Bytes
  pieces skip [] = [] ∷ []
  pieces (suc skip) (c ∷ s) = pieces skip s
  pieces zero (c ∷ s) =
      let behind = [] ∷ pieces (length ey) s in
      let next = onto_first c (pieces zero s) in if has_prefix (c ∷ s) key then behind else next

  -- There is a piece at least.
  pieces-some : (skip : ℕ) (s : Bytes) → (p : Bytes) × (ps : List Bytes) × (pieces skip s ≡ p ∷ ps)
  unfolding pieces
  pieces-some skip [] = ([], [], refl)
  pieces-some (suc skip) (c ∷ s) = pieces-some skip s
  pieces-some zero (c ∷ s) = elim (Bool-cases (has_prefix (c ∷ s) key)) [
    | inl here ↦ ([], pieces (length ey) s, rw here refl)
    | inr other ↦ let (p, ps, e) = pieces-some zero s in (c ∷ p, ps, rw (other, e) refl)
  ]

  join-behind :
      (sep : Bytes) (qs : List Bytes) (p : Bytes) (ps : List Bytes)
      → qs ≡ p ∷ ps
      → join ([] ∷ qs) sep ≡ sep ++ join qs sep
  unfolding join
  join-behind sep qs p ps e = rw e refl

  join-onto :
      (c : ℕ) (sep p : Bytes) (ps : List Bytes)
      → join (onto_first c (p ∷ ps)) sep ≡ c ∷ join (p ∷ ps) sep
  unfolding join
  join-onto c sep p [] = refl
  join-onto c sep p (q ∷ ps) = refl

  replace_from-join :
      (skip : ℕ) (s new : Bytes) → replace_from skip s key new ≡ join (pieces skip s) new
  unfolding replace_from pieces
  replace_from-join skip [] new = unfold join in refl
  replace_from-join (suc skip) (c ∷ s) new = replace_from-join skip s new
  replace_from-join zero (c ∷ s) new = elim (Bool-cases (has_prefix (c ∷ s) key)) [
    | inl here ↦
        let (p, ps, e) = pieces-some (length ey) s in
        rw here (
          ap (λ n. new ++ replace_from n s key new) (omega arith)
          ∙ ap (λ t. new ++ t) (replace_from-join (length ey) s new)
          ∙ sym (join-behind new (pieces (length ey) s) p ps e))
    | inr other ↦
        let (p, ps, e) = pieces-some zero s in
        rw other
          (ap (λ t. c ∷ t) (replace_from-join zero s new) ∙ sym (rw e (join-onto c new p ps)))
  ]

  -- The pieces with the key between them are the text.
  join-pieces : (skip : ℕ) (s : Bytes) → join (pieces skip s) key ≡ drop skip s
  unfolding pieces
  join-pieces zero [] = unfold join in refl
  join-pieces (suc skip) [] = unfold join in refl
  join-pieces (suc skip) (c ∷ s) = join-pieces skip s
  join-pieces zero (c ∷ s) = elim (Bool-cases (has_prefix (c ∷ s) key)) [
    | inl here ↦
        let (p, ps, e) = pieces-some (length ey) s in
        rw here (
          join-behind key (pieces (length ey) s) p ps e
          ∙ ap (λ t. key ++ t) (join-pieces (length ey) s)
          ∙ sym (prefix-drop (c ∷ s) key here))
    | inr other ↦
        let (p, ps, e) = pieces-some zero s in
        rw other (rw e (join-onto c key p ps) ∙ ap (λ t. c ∷ t) (join-pieces zero s))
  ]

  abbrev pub Free : Bytes → Type 0
  Free p = contains_text p key ≡ false

  onto-Free :
      (c : ℕ) (s p : Bytes) (ps : List Bytes)
      → has_prefix (c ∷ s) key ≡ false
      → join (p ∷ ps) key ≡ s
      → All Free (p ∷ ps)
      → All Free (onto_first c (p ∷ ps))
  unfolding contains_text
  onto-Free c s p ps h e (free, rest) =
      let (tail, front) = join-front p ps key in
      let whole : (c ∷ p) ++ tail ≡ c ∷ s = ap (λ t. c ∷ t) (sym front ∙ e) in
      elim (Bool-cases (has_prefix (c ∷ p) key)) [
        | inl here ↦ absurd (
            let bad = prefix-append (c ∷ p) tail key here in
            let worse : has_prefix (c ∷ s) key ≡ true =
              ap (λ t. has_prefix t key) (sym whole) ∙ bad in
            cc)
        | inr other ↦ (rw other free, rest)
      ]

  pieces-Free : (skip : ℕ) (s : Bytes) → All Free (pieces skip s)
  unfolding pieces contains_text
  pieces-Free zero [] = (unfold has_prefix in refl, tt)
  pieces-Free (suc skip) [] = (unfold has_prefix in refl, tt)
  pieces-Free (suc skip) (c ∷ s) = pieces-Free skip s
  pieces-Free zero (c ∷ s) = elim (Bool-cases (has_prefix (c ∷ s) key)) [
    | inl here ↦ rw here (unfold has_prefix in refl, pieces-Free (length ey) s)
    | inr other ↦
        let (p, ps, e) = pieces-some zero s in
        rw (other, e)
          (onto-Free c s p ps other (ap (λ qs. join qs key) (sym e) ∙ join-pieces zero s)
            (rw e at (pieces-Free zero s)))
  ]

  -- Where the key does not stand, nothing is replaced.
  replace_from-absent : (s new : Bytes) → contains_text s key ≡ false → replace_from 0 s key new ≡ s
  unfolding replace_from contains_text
  replace_from-absent [] new h = refl
  replace_from-absent (c ∷ s) new h = ground (arith, replace_from-absent s new)

-- With a key that is not empty the text of an error falls into pieces, between which the key stood and
-- none of which contains it, and the redacted text is the same pieces with `REDACTED` between them.
pub redact-pieces :
    (k : ℕ) (ey msg : Bytes)
    → (ps : List Bytes) × (join ps (k ∷ ey) ≡ msg)
      × (redact (k ∷ ey) (some msg) ≡ some (join ps redacted))
      × All (Free k ey) ps
unfolding redact
redact-pieces k ey msg =
    let ps = pieces k ey 0 msg in
    let same : replace_from 0 msg (k ∷ ey) redacted ≡ join ps redacted =
      replace_from-join k ey 0 msg redacted in
    (
      ps,
      join-pieces k ey 0 msg,
      elim (Bool-cases (contains_text msg (k ∷ ey))) [
        | inl there ↦ rw there (ap some same)
        | inr absent ↦
            rw absent (ap some (sym (replace_from-absent k ey msg redacted absent) ∙ same))
      ],
      pieces-Free k ey 0 msg,
    )
