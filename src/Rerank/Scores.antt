-- ===== src/Rerank/Scores.antt =====
-- What `parseScores` puts where: the last score that names a passage, and zero for the others.
use ragline.Base.{
  ℕ, zero, suc, ◌≤◌, ◌<◌, ◌≡◌, refl, ◌∙◌, Bool, true, false, not, ◌||◌, List, [], ◌∷◌, Option, none,
  some, arith, length, get_elem?, set, replicate, length-set, length-replicate, ltb, ◌==◌,
  if◌then◌else◌, ℤ, pos, negsuc, Bytes, Bool-cases, Option-cases, inl, inr,
}
use ragline.Store.{Floats}
use ragline.Rerank.Decode.{
  ScoredItem, Json, store_score, place, read_scores, place_all, parse_scores,
}

module _ (fl : Floats) where
  open fl use {F, zero_score}

  -- The score of the last item that names `i`, or `d`.
  abbrev pub score_if : ℕ → ℤ → F → F → F
  score_if i (pos k) x d = if k == i then x else d
  score_if i (negsuc k) x d = d

  unfoldable pub last_score : ℕ → List (ScoredItem F) → F → F
  last_score i [] d = d
  last_score i (it ∷ items) d = last_score i items (score_if i it.index it.score d)

  -- Whether an index names one of `n` passages, and whether some item does.
  abbrev pub is_valid : ℕ → ℤ → Bool
  is_valid n (pos k) = ltb k n
  is_valid n (negsuc k) = false

  unfoldable pub some_valid : ℕ → List (ScoredItem F) → Bool
  some_valid n [] = false
  some_valid n (it ∷ items) = is_valid n it.index || some_valid n items

  length-store_score :
      (n : ℕ) (i : ℤ) (x : F) (out : List F) (seen : ℕ)
      → length (store_score fl n i x (out, seen)).0 ≡ length out
  unfolding store_score
  length-store_score n (negsuc k) x out seen = refl
  length-store_score n (pos k) x out seen = ground (arith, length-set out k x)

  length-place :
      (n : ℕ) (items : List (ScoredItem F)) (state : List F × ℕ)
      → length (place fl n items state).0 ≡ length state.0
  unfolding place
  length-place n [] state = refl
  length-place n (it ∷ items) (out, seen) =
      length-place n items (store_score fl n it.index it.score (out, seen))
      ∙ length-store_score n it.index it.score out seen

  -- The scores read at each passage, as the items would have them.
  abbrev Reads : ℕ → List F → (ℕ → F) → Type 0
  Reads n out f = (i : ℕ) → i < n → get_elem? out i ≡ some (f i)

  get-set :
      (out : List F) (k i : ℕ) (x d : F)
      → i < length out
      → get_elem? out i ≡ some d
      → get_elem? (set out k x) i ≡ some (if k == i then x else d)
  get-set [] k i x d h e = absurd (omega arith)
  get-set (y ∷ ys) zero zero x d h e = refl
  get-set (y ∷ ys) zero (suc i) x d h e = ground arith
  get-set (y ∷ ys) (suc k) zero x d h e = ground arith
  get-set (y ∷ ys) (suc k) (suc i) x d h e = ground (arith, get-set ys k i x d)

  store_score-reads :
      (n : ℕ) (j : ℤ) (x d : F) (out : List F) (seen i : ℕ)
      → i < n
      → length out ≡ n
      → get_elem? out i ≡ some d
      → get_elem? (store_score fl n j x (out, seen)).0 i ≡ some (score_if i j x d)
  unfolding store_score
  store_score-reads n (negsuc k) x d out seen i h len e = e
  store_score-reads n (pos k) x d out seen i h len e = ground (arith, get-set out k i x d)

  place-reads :
      (n : ℕ) (items : List (ScoredItem F)) (out : List F) (seen i : ℕ) (d : F)
      → i < n
      → length out ≡ n
      → get_elem? out i ≡ some d
      → get_elem? (place fl n items (out, seen)).0 i ≡ some (last_score i items d)
  unfolding place last_score
  place-reads n [] out seen i d h len e = e
  place-reads n (it ∷ items) out seen i d h len e =
      place-reads n items (store_score fl n it.index it.score (out, seen)).0
        (store_score fl n it.index it.score (out, seen)).1 i (score_if i it.index it.score d) h
        (length-store_score n it.index it.score out seen ∙ len)
        (store_score-reads n it.index it.score d out seen i h len e)

  store_score-seen :
      (n : ℕ) (j : ℤ) (x : F) (out : List F) (seen : ℕ)
      → (store_score fl n j x (out, seen)).1 ≡ (if is_valid n j then suc seen else seen)
  unfolding store_score
  store_score-seen n (negsuc k) x out seen = refl
  store_score-seen n (pos k) x out seen = ground arith

  -- The count is above its start exactly when some item is valid.
  place-seen :
      (n : ℕ) (items : List (ScoredItem F)) (out : List F) (seen : ℕ)
      → (seen ≤ (place fl n items (out, seen)).1)
        × (((place fl n items (out, seen)).1 == seen) ≡ not (some_valid n items))
  unfolding place some_valid
  place-seen n [] out seen = (omega arith, ground arith)
  place-seen n (it ∷ items) out seen =
      let state = store_score fl n it.index it.score (out, seen) in
      let rest = place-seen n items state.0 state.1 in
      let step = store_score-seen n it.index it.score out seen in
      (ground (arith, rest.0, step), ground (arith, rest, step))

  get-replicate : (n i : ℕ) (x : F) → i < n → get_elem? (replicate n x) i ≡ some x
  get-replicate zero i x h = elim h [ ]
  get-replicate (suc n) zero x h = refl
  get-replicate (suc n) (suc i) x h = get-replicate n i x (omega arith)

  place_all-valid :
      (n : ℕ) (items : List (ScoredItem F))
      → some_valid n items ≡ true
      → place_all fl n items ≡ some (place fl n items (replicate n zero_score, 0)).0
  unfolding place_all
  place_all-valid n [] h = unfold some_valid in cc
  place_all-valid n (it ∷ items) h =
      ground (arith, (place-seen n (it ∷ items) (replicate n zero_score) 0).1)

  place_all-invalid :
      (n : ℕ) (items : List (ScoredItem F))
      → some_valid n items ≡ false
      → place_all fl n items ≡ none
  unfolding place_all
  place_all-invalid n [] h = refl
  place_all-invalid n (it ∷ items) h =
      ground (arith, (place-seen n (it ∷ items) (replicate n zero_score) 0).1)

  module _ (read_json : Bytes → Option (Json F)) (text : Bytes) (n : ℕ) where
    parse_scores-some :
        (items : List (ScoredItem F))
        → read_scores fl read_json text ≡ some items
        → parse_scores fl read_json text n ≡ place_all fl n items
    unfolding parse_scores
    parse_scores-some items e = rw (e, parse_scores)

    parse_scores-none :
        read_scores fl read_json text ≡ none → parse_scores fl read_json text n ≡ none
    unfolding parse_scores
    parse_scores-none e = rw (e, parse_scores)

  -- The scores of the passages, by what was read: without items, or without one that names a passage,
  -- there are none; otherwise each of the `n` passages has one.
  pub data Parsed (n : ℕ) : Option (List (ScoredItem F)) → Option (List F) → Type 0 where
    unread : Parsed n none none
    names_none :
        (items : List (ScoredItem F)) → some_valid n items ≡ false → Parsed n (some items) none
    scored :
        (items : List (ScoredItem F)) (out : List F)
        → some_valid n items ≡ true
        → length out ≡ n
        → ((i : ℕ) → i < n → get_elem? out i ≡ some (last_score i items zero_score))
        → Parsed n (some items) (some out)

  -- `parseScores` fails exactly where the text does not read as items or no item names a passage, an
  -- empty list included; otherwise it returns a score for each of the `n` passages: that of the last
  -- item which names it, and zero if none does.
  pub parse_scores-Parsed :
      (read_json : Bytes → Option (Json F)) (text : Bytes) (n : ℕ)
      → Parsed n (read_scores fl read_json text) (parse_scores fl read_json text n)
  parse_scores-Parsed read_json text n = elim (Option-cases (read_scores fl read_json text)) [
    | inl e ↦ rw (e, parse_scores-none read_json text n e) unread
    | inr (items, e) ↦ elim (Bool-cases (some_valid n items)) [
      | inl valid ↦
          let start = replicate n zero_score in
          rw (e, parse_scores-some read_json text n items e ∙ place_all-valid n items valid)
            (scored items (place fl n items (start, 0)).0 valid
              (length-place n items (start, 0) ∙ length-replicate n zero_score)
              (λ i lt.
                place-reads n items start 0 i zero_score lt (length-replicate n zero_score)
                  (get-replicate n i zero_score lt)))
      | inr invalid ↦
          rw (e, parse_scores-some read_json text n items e ∙ place_all-invalid n items invalid)
            (names_none items invalid)
    ]
  ]
