-- ===== src/Store/Conversations/Appends.antt =====
-- `AppendMessage` puts a message behind those of its conversation.
use ragline.Base.{
  ℕ, suc, ◌<◌, ◌≡◌, refl, ap, Bool, true, false, ◌&&◌, List, [], ◌∷◌, ◌++◌, arith, ◌==◌,
  if◌then◌else◌, Bool-cases, inl, inr,
}
use ragline.Chat.Types.{Message}
use ragline.Store.Conversations.{
  MessageRow, Tables, has_conversation, of_conversation, append_message,
}
use ragline.Store.Conversations.Last.{Before, Rising, Behind, messages_of}

-- Identifiers rise along the table, and the next one is above them all.
pub record IsOrdered (t : Tables) : Type 0 where
  pub rising : Rising t.messages
  pub below_next : Behind t.next_id t.messages

Behind-suc : (n : ℕ) (rs : List MessageRow) → Behind n rs → Behind (suc n) rs
Behind-suc n [] b = tt
Behind-suc n (r ∷ rs) (a, b) = (omega arith, Behind-suc n rs b)

Behind-snoc :
    (n : ℕ) (rs : List MessageRow) (s : MessageRow)
    → Behind n rs
    → s.id < n
    → Behind n (rs ++ s ∷ [])
Behind-snoc n [] s b h = (h, tt)
Behind-snoc n (r ∷ rs) s (a, b) h = (a, Behind-snoc n rs s b h)

Before-snoc :
    (i : ℕ) (rs : List MessageRow) (s : MessageRow)
    → Before i rs
    → i < s.id
    → Before i (rs ++ s ∷ [])
Before-snoc i [] s b h = (h, tt)
Before-snoc i (r ∷ rs) s (a, b) h = (a, Before-snoc i rs s b h)

Rising-snoc :
    (rs : List MessageRow) (s : MessageRow) → Rising rs → Behind s.id rs → Rising (rs ++ s ∷ [])
Rising-snoc [] s r b = (tt, tt)
Rising-snoc (q ∷ rs) s (p, r) (a, b) = (Before-snoc q.id rs s p a, Rising-snoc rs s r b)

messages_of-snoc :
    (k : ℕ) (rs : List MessageRow) (s : MessageRow)
    → messages_of k (rs ++ s ∷ [])
      ≡ messages_of k rs ++ (if s.conversation_id == k then s.message ∷ [] else [])
unfolding messages_of of_conversation
messages_of-snoc k [] s = elim (Bool-cases (s.conversation_id == k)) [
  | inl yes_here ↦ rw yes_here refl
  | inr elsewhere ↦ rw elsewhere refl
]
messages_of-snoc k (r ∷ rs) s = elim (Bool-cases (r.conversation_id == k)) [
  | inl yes_here ↦ rw yes_here (ap (λ x. r.message ∷ x) (messages_of-snoc k rs s))
  | inr elsewhere ↦ rw elsewhere (messages_of-snoc k rs s)
]

-- What `AppendMessage` did: the message stands last in its conversation, every other conversation is
-- as it was, and the identifiers are still in order.
pub record Appended (i : ℕ) (m : Message) (t u : Tables) : Type 0 where
  pub behind :
      (k : ℕ)
      → messages_of k u.messages ≡ messages_of k t.messages ++ (if i == k then m ∷ [] else [])
  pub ordered : IsOrdered u

-- How a call ends, by whether the statement runs and whether the conversation is there.
pub data Ends (ran : Bool) (i : ℕ) (m : Message) (t : Tables) : Tables × Bool → Type 0 where
  appended : (u : Tables) → ran ≡ true → Appended i m t u → Ends ran i m t (u, true)
  refused : ran ≡ false → Ends ran i m t (t, false)

-- A call appends the message to its conversation and changes no other one where the statement runs
-- and there is such a conversation, and otherwise fails and changes nothing. Identifiers stay in
-- order.
pub append_message-Ends :
    (up : Bool) (i : ℕ) (m : Message) (t : Tables)
    → IsOrdered t
    → Ends (up && has_conversation i t.conversations) i m t (append_message up i m t)
unfolding append_message
append_message-Ends false i m t o = refused refl
append_message-Ends true i m t o = elim (Bool-cases (has_conversation i t.conversations)) [
  | inl there ↦
      let row : MessageRow = record { id = t.next_id; conversation_id = i; message = m } in
      rw there (
        appended _ refl (record {
          behind = λ k. messages_of-snoc k t.messages row;
          ordered = record {
            rising = Rising-snoc t.messages row o.rising o.below_next;
            below_next =
                Behind-snoc (suc t.next_id) t.messages row
                  (Behind-suc t.next_id t.messages o.below_next) (omega arith);
          };
        }))
  | inr missing ↦ rw missing (refused refl)
]
