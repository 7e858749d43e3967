-- ===== src/Rerank/Decode.antt =====
-- internal/rerank/rerank.go: what `parseScores` and `flattenScoreItems` make of a model's text.
-- The reader of JSON text is an argument; what `json.Unmarshal` makes of a value is written out.
use ragline.Base.{
  ℕ, suc, Bool, List, [], ◌∷◌, ◌++◌, Option, none, some, Bytes, codes, set, replicate, ltb, ◌==◌,
  if◌then◌else◌, ℤ, pos, negsuc, bytes_eq, lower,
}
use ragline.Store.{Floats}
use ragline.Llm.Extract.{extract_json}

-- A decoded JSON value. A number is what it is as an `int` and as a `float64`, where it is one.
mutual
  pub data Json (F : Type 0) : Type 0 where
    null : Json F
    bool : Bool → Json F
    num : Option ℤ → Option F → Json F
    str : Bytes → Json F
    arr : Items F → Json F
    obj : Fields F → Json F

  pub data Items (F : Type 0) : Type 0 where
    nil : Items F
    cons : Json F → Items F → Items F

  pub data Fields (F : Type 0) : Type 0 where
    end : Fields F
    field : Bytes → Json F → Fields F → Fields F

-- `scoredItem`
pub record ScoredItem (F : Type 0) : Type 0 where
  pub index : ℤ
  pub score : F

abbrev pub index_key : Bytes
index_key = codes "index"

abbrev pub score_key : Bytes
score_key = codes "score"

module _ {F : Type 0} where
  -- One field of an object decoded into a `scoredItem`: null keeps the old value.
  unfoldable pub read_index : ScoredItem F → Json F → Option (ScoredItem F)
  read_index it null = some it
  read_index it (num (some i) x) = some (record it { index = i })
  read_index it _ = none

  unfoldable pub read_score : ScoredItem F → Json F → Option (ScoredItem F)
  read_score it null = some it
  read_score it (num i (some x)) = some (record it { score = x })
  read_score it _ = none

  -- Keys are compared without regard to case; other keys are skipped.
  unfoldable pub read_field : ScoredItem F → Bytes → Json F → Option (ScoredItem F)
  unfolding read_index read_score
  read_field it k v =
      if bytes_eq (lower k) index_key
      then read_index it v
      else if bytes_eq (lower k) score_key
      then read_score it v
      else some it

  unfoldable pub read_fields : Option (ScoredItem F) → Fields F → Option (ScoredItem F)
  unfolding read_field
  read_fields o end = o
  read_fields none (field k v fs) = none
  read_fields (some it) (field k v fs) = read_fields (read_field it k v) fs

abbrev pub cons_read {ℓ} : {A : Type ℓ} → Option A → Option (List A) → Option (List A)
cons_read (some a) (some as_) = some (a ∷ as_)
cons_read _ _ = none

abbrev pub append_read {ℓ} : {A : Type ℓ} → Option (List A) → Option (List A) → Option (List A)
append_read (some as_) (some bs) = some (as_ ++ bs)
append_read _ _ = none

module _ (fl : Floats) where
  open fl use {F, zero_score, gt}

  abbrev pub zero_item : ScoredItem F
  zero_item = record { index = pos 0; score = zero_score }

  -- `json.Unmarshal` into a `scoredItem`, a `[]scoredItem`, a `[][]scoredItem`, a `[]float64`; `none`
  -- is an error, which one element of the wrong type is enough for.
  unfoldable pub read_item : Json F → Option (ScoredItem F)
  unfolding read_fields
  read_item null = some zero_item
  read_item (obj fs) = read_fields (some zero_item) fs
  read_item _ = none

  unfoldable pub read_items : Items F → Option (List (ScoredItem F))
  unfolding read_item
  read_items nil = some []
  read_items (cons v vs) = cons_read (read_item v) (read_items vs)

  unfoldable pub read_direct : Json F → Option (List (ScoredItem F))
  unfolding read_items
  read_direct null = some []
  read_direct (arr vs) = read_items vs
  read_direct _ = none

  -- The groups of a nested array, joined by the loop behind the decoding.
  unfoldable pub read_groups : Items F → Option (List (ScoredItem F))
  unfolding read_direct
  read_groups nil = some []
  read_groups (cons v vs) = append_read (read_direct v) (read_groups vs)

  unfoldable pub read_number : Json F → Option F
  read_number null = some zero_score
  read_number (num i x) = x
  read_number _ = none

  unfoldable pub read_numbers : Items F → Option (List F)
  unfolding read_number
  read_numbers nil = some []
  read_numbers (cons v vs) = cons_read (read_number v) (read_numbers vs)

  -- The nth number is the score of the nth candidate.
  unfoldable pub positional : ℕ → List F → List (ScoredItem F)
  positional i [] = []
  positional i (x ∷ xs) = record { index = pos i; score = x } ∷ positional (suc i) xs

  abbrev pub positional_items : Option (List F) → Option (List (ScoredItem F))
  positional_items none = none
  positional_items (some xs) = some (positional 0 xs)

  abbrev pub or_else {ℓ} : {A : Type ℓ} → Option A → Option A → Option A
  or_else (some a) o = some a
  or_else none o = o

  -- `flattenScoreItems`: the three shapes in turn.
  unfoldable pub flatten_score_items : Json F → Option (List (ScoredItem F))
  unfolding read_direct read_groups read_numbers positional
  flatten_score_items (arr vs) =
      or_else (read_items vs) (or_else (read_groups vs) (positional_items (read_numbers vs)))
  flatten_score_items v = read_direct v

  -- The value at the last "scores" of an object; of anything else the value itself.
  unfoldable pub scores_field : Option (Json F) → Fields F → Option (Json F)
  scores_field o end = o
  scores_field o (field k v fs) =
      scores_field (if bytes_eq (lower k) (codes "scores") then some v else o) fs

  unfoldable pub envelope : Json F → Json F
  unfolding scores_field
  envelope (obj fs) = elim (scores_field none fs) [ none ↦ obj fs | some v ↦ v ]
  envelope v = v

  -- One round of the loop over the items: the scores so far and how many items named a passage.
  unfoldable pub store_score : ℕ → ℤ → F → List F × ℕ → List F × ℕ
  store_score n (negsuc k) x state = state
  store_score n (pos k) x (out, seen) = if ltb k n then (set out k x, suc seen) else (out, seen)

  unfoldable pub place : ℕ → List (ScoredItem F) → List F × ℕ → List F × ℕ
  unfolding store_score
  place n [] state = state
  place n (it ∷ items) state = place n items (store_score n it.index it.score state)

  -- The scores of decoded items; `none` is one of the two errors, no score and no valid index.
  unfoldable pub place_all : ℕ → List (ScoredItem F) → Option (List F)
  unfolding place
  place_all n [] = none
  place_all n (it ∷ items) =
      let (out, seen) = place n (it ∷ items) (replicate n zero_score, 0) in
      if seen == 0 then none else some out

  -- The first half of `parseScores`: the items of the text, given the reader of JSON text.
  unfoldable pub read_scores : (Bytes → Option (Json F)) → Bytes → Option (List (ScoredItem F))
  unfolding flatten_score_items envelope extract_json
  read_scores read_json text =
      let raw : Bytes = elim (extract_json text) [ none ↦ text | some j ↦ j ] in
      elim (read_json raw) [ none ↦ none | some v ↦ flatten_score_items (envelope v) ]

  -- `parseScores`
  unfoldable pub parse_scores : (Bytes → Option (Json F)) → Bytes → ℕ → Option (List F)
  unfolding read_scores place_all
  parse_scores read_json text n = elim (read_scores read_json text) [
    | none ↦ none
    | some items ↦ place_all n items
  ]
