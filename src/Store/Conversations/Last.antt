-- ===== src/Store/Conversations/Last.antt =====
-- `History` returns the last messages of a conversation, oldest first.
use ragline.Base.{
  ℕ, zero, suc, ◌-◌, ◌<◌, ◌≤◌, ◌≡◌, refl, sym, ap, ◌∙◌, true, List, [], ◌∷◌, ◌++◌, map, some, arith,
  leb, take, drop, length, length-append, pos, Bool-cases, inl, inr,
}
use ragline.Chat.Types.{Message}
use ragline.Chat.Steps.{last_messages, read_back}
use ragline.Store.Conversations.{
  MessageRow, Tables, of_conversation, insert_desc, by_id_desc, insert_asc, by_id_asc, read_rows,
  history_query, history,
}

abbrev rev : List MessageRow → List MessageRow
rev [] = []
rev (r ∷ rs) = rev rs ++ r ∷ []

-- Identifiers rise along the table, as the sequence gives them.
abbrev pub Before : ℕ → List MessageRow → Type 0
Before i [] = Unit
Before i (r ∷ rs) = (i < r.id) × Before i rs

abbrev pub Rising : List MessageRow → Type 0
Rising [] = Unit
Rising (r ∷ rs) = Before r.id rs × Rising rs

abbrev pub Behind : ℕ → List MessageRow → Type 0
Behind i [] = Unit
Behind i (r ∷ rs) = (r.id < i) × Behind i rs

Before-of_conversation :
    (i k : ℕ) (rs : List MessageRow) → Before k rs → Before k (of_conversation i rs)
unfolding of_conversation
Before-of_conversation i k [] b = tt
Before-of_conversation i k (r ∷ rs) b = ground (arith, Before-of_conversation i k rs)

Rising-of_conversation : (i : ℕ) (rs : List MessageRow) → Rising rs → Rising (of_conversation i rs)
unfolding of_conversation
Rising-of_conversation i [] h = tt
Rising-of_conversation i (r ∷ rs) h =
    ground (arith, Rising-of_conversation i rs, Before-of_conversation i r.id rs)

-- A row below every other goes to the end of a descending list, and to the front of a rising one.
insert_desc-last :
    (r : MessageRow) (ss : List MessageRow) → Before r.id ss → insert_desc r ss ≡ ss ++ r ∷ []
unfolding insert_desc
insert_desc-last r [] b = refl
insert_desc-last r (s ∷ ss) b = ground (arith, insert_desc-last r ss)

Before-snoc :
    (i : ℕ) (ss : List MessageRow) (r : MessageRow)
    → Before i ss
    → i < r.id
    → Before i (ss ++ r ∷ [])
Before-snoc i [] r b h = (h, tt)
Before-snoc i (s ∷ ss) r (a, b) h = (a, Before-snoc i ss r b h)

Before-rev : (i : ℕ) (ss : List MessageRow) → Before i ss → Before i (rev ss)
Before-rev i [] b = tt
Before-rev i (s ∷ ss) (a, b) = Before-snoc i (rev ss) s (Before-rev i ss b) a

by_id_desc-rev : (rs : List MessageRow) → Rising rs → by_id_desc rs ≡ rev rs
unfolding by_id_desc
by_id_desc-rev [] h = refl
by_id_desc-rev (r ∷ rs) (b, h) =
    rw (by_id_desc-rev rs h) (insert_desc-last r (rev rs) (Before-rev r.id rs b))

-- Sorting again puts a falling list into its order.
abbrev Falling : List MessageRow → Type 0
Falling [] = Unit
Falling (r ∷ rs) = Behind r.id rs × Falling rs

insert_asc-last :
    (r : MessageRow) (ss : List MessageRow) → Behind r.id ss → insert_asc r ss ≡ ss ++ r ∷ []
unfolding insert_asc
insert_asc-last r [] b = refl
insert_asc-last r (s ∷ ss) b = ground (arith, insert_asc-last r ss)

Behind-snoc :
    (i : ℕ) (ss : List MessageRow) (r : MessageRow)
    → Behind i ss
    → r.id < i
    → Behind i (ss ++ r ∷ [])
Behind-snoc i [] r b h = (h, tt)
Behind-snoc i (s ∷ ss) r (a, b) h = (a, Behind-snoc i ss r b h)

Behind-rev : (i : ℕ) (ss : List MessageRow) → Behind i ss → Behind i (rev ss)
Behind-rev i [] b = tt
Behind-rev i (s ∷ ss) (a, b) = Behind-snoc i (rev ss) s (Behind-rev i ss b) a

by_id_asc-rev : (rs : List MessageRow) → Falling rs → by_id_asc rs ≡ rev rs
unfolding by_id_asc
by_id_asc-rev [] h = refl
by_id_asc-rev (r ∷ rs) (b, h) =
    rw (by_id_asc-rev rs h) (insert_asc-last r (rev rs) (Behind-rev r.id rs b))

Falling-snoc :
    (rs : List MessageRow) (r : MessageRow) → Falling rs → Before r.id rs → Falling (rs ++ r ∷ [])
Falling-snoc [] r f b = (tt, tt)
Falling-snoc (s ∷ rs) r (a, f) (lt, b) = (Behind-snoc s.id rs r a lt, Falling-snoc rs r f b)

Falling-rev : (rs : List MessageRow) → Rising rs → Falling (rev rs)
Falling-rev [] h = tt
Falling-rev (r ∷ rs) (b, h) = Falling-snoc (rev rs) r (Falling-rev rs h) (Before-rev r.id rs b)

Behind-take : (i n : ℕ) (rs : List MessageRow) → Behind i rs → Behind i (take n rs)
Behind-take i zero rs b = tt
Behind-take i (suc n) [] b = tt
Behind-take i (suc n) (r ∷ rs) (a, b) = (a, Behind-take i n rs b)

Falling-take : (n : ℕ) (rs : List MessageRow) → Falling rs → Falling (take n rs)
Falling-take zero rs f = tt
Falling-take (suc n) [] f = tt
Falling-take (suc n) (r ∷ rs) (b, f) = (Behind-take r.id n rs b, Falling-take n rs f)

length-rev : (rs : List MessageRow) → length (rev rs) ≡ length rs
length-rev [] = refl
length-rev (r ∷ rs) = omega (arith, length-append (rev rs) (r ∷ []), length-rev rs)

take-snoc_le :
    (n : ℕ) (rs : List MessageRow) (r : MessageRow)
    → n ≤ length rs
    → take n (rs ++ r ∷ []) ≡ take n rs
take-snoc_le zero rs r h = refl
take-snoc_le (suc n) [] r h = absurd (omega (arith, h))
take-snoc_le (suc n) (s ∷ rs) r h = ap (λ x. s ∷ x) (take-snoc_le n rs r (omega arith))

take_all : (n : ℕ) (rs : List MessageRow) → length rs ≤ n → take n rs ≡ rs
take_all zero [] h = refl
take_all zero (r ∷ rs) h = absurd (omega (arith, h))
take_all (suc n) [] h = refl
take_all (suc n) (r ∷ rs) h = ap (λ x. r ∷ x) (take_all n rs (omega arith))

rev-snoc : (rs : List MessageRow) (r : MessageRow) → rev (rs ++ r ∷ []) ≡ r ∷ rev rs
rev-snoc [] r = refl
rev-snoc (s ∷ rs) r = ap (λ x. x ++ s ∷ []) (rev-snoc rs r)

rev-rev : (rs : List MessageRow) → rev (rev rs) ≡ rs
rev-rev [] = refl
rev-rev (r ∷ rs) = rev-snoc (rev rs) r ∙ ap (λ x. r ∷ x) (rev-rev rs)

take_nil : (n : ℕ) → rev (take n []) ≡ []
take_nil zero = refl
take_nil (suc n) = refl

drop_nil : (n : ℕ) → drop {A = MessageRow} n [] ≡ []
drop_nil zero = refl
drop_nil (suc n) = refl

-- The last `n` rows, by way of the first `n` of the list turned round.
rev-take-rev : (n : ℕ) (rs : List MessageRow) → rev (take n (rev rs)) ≡ drop (length rs - n) rs
rev-take-rev n [] = take_nil n ∙ sym (drop_nil (0 - n))
rev-take-rev n (r ∷ rs) = elim (Bool-cases (leb n (length rs))) [
  | inl few ↦
      let le : n ≤ length (rev rs) = ground (arith, few, length-rev rs) in
      let more : suc (length rs) - n ≡ suc (length rs - n) = ground (arith, few) in
      rw (take-snoc_le n (rev rs) r le, more) (rev-take-rev n rs)
  | inr all ↦
      let le : length (rev rs ++ r ∷ []) ≤ n =
        ground (arith, all, length-rev rs, length-append (rev rs) (r ∷ [])) in
      let none_left : suc (length rs) - n ≡ 0 = ground (arith, all) in
      rw (take_all n (rev rs ++ r ∷ []) le, none_left) (rev-rev (r ∷ rs))
]

-- The messages of a conversation, in the order in which they were appended.
unfoldable pub messages_of : ℕ → List MessageRow → List Message
messages_of i rows = map (λ r. r.message) (of_conversation i rows)

read_rows-drop :
    (k : ℕ) (rs : List MessageRow)
    → read_rows (drop k rs) ≡ map read_back (drop k (map (λ r. r.message) rs))
unfolding read_rows
read_rows-drop zero [] = refl
read_rows-drop zero (r ∷ rs) = ap (λ x. read_back r.message ∷ x) (read_rows-drop zero rs)
read_rows-drop (suc k) [] = refl
read_rows-drop (suc k) (r ∷ rs) = read_rows-drop k rs

length-messages : (rs : List MessageRow) → length (map (λ r. r.message) rs) ≡ length rs
length-messages [] = refl
length-messages (r ∷ rs) = ap suc (length-messages rs)

-- Where the identifiers rise along the table, the query of `History` reads the last `n` messages of
-- the conversation, oldest first and without their citations, as the path of a question reads them.
pub history-last_messages :
    (i n : ℕ) (t : Tables)
    → Rising t.messages
    → history true i (pos n) t ≡ some (last_messages (pos n) (messages_of i t.messages))
unfolding history history_query last_messages messages_of
history-last_messages i n t h =
    let rows = of_conversation i t.messages in
    let rising = Rising-of_conversation i t.messages h in
    rw (
      by_id_desc-rev rows rising,
      by_id_asc-rev (take n (rev rows)) (Falling-take n (rev rows) (Falling-rev rows rising)),
      rev-take-rev n rows,
      length-messages rows,
      read_rows-drop (length rows - n) rows,
    )
