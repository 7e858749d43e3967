-- ===== src/Chat/Prompt.antt =====
-- internal/chat/chat.go: the prompt (`buildContents`) and the preview of a source (`snippet`).
use ragline.Base.{
  ℕ, suc, List, [], ◌∷◌, ◌++◌, Bytes, codes, itoa, join, fields, take, length, leb, if◌then◌else◌,
}
use ragline.Store.{Chunk}
use ragline.Rerank.{full_title, ellipsis}
use ragline.Chat.Types.{Message, Role, user, assistant, Content, LlmRole, role_user, role_model}

abbrev role_of : Role → LlmRole
role_of user = role_user
role_of assistant = role_model

unfoldable pub turns : List Message → List Content
turns [] = []
turns (m ∷ ms) = record { role = role_of m.role; text = m.content } ∷ turns ms

module _ {F : Type 0} where
  -- The loop over the chunks; `i` is the marker.
  unfoldable pub source_lines : ℕ → List (Chunk F) → Bytes
  unfolding itoa full_title
  source_lines i [] = []
  source_lines i (c ∷ cs) =
      10
      ∷ b'['
      ∷ (itoa i
          ++ (codes "] "
              ++ (full_title c.doc_title c.heading
                  ++ (10 ∷ (c.content ++ 10 ∷ source_lines (suc i) cs)))))

  unfoldable pub build_contents : List Message → Bytes → List (Chunk F) → List Content
  unfolding turns source_lines
  build_contents history question chunks =
      turns history
      ++ record {
        role = role_user;
        text =
            codes "Sources:"
            ++ 10
              ∷ (source_lines 1 chunks
                  ++ (10
                      ∷ (codes "---"
                          ++ (10
                              ∷ (codes "Question: "
                                  ++ (question
                                      ++ (10
                                          ∷ 10
                                          ∷ codes
                                              "Answer using only the sources above, citing them as [n].")))))));
      }
        ∷ []

-- `snippet`; the limit counts bytes.
unfoldable pub snippet : Bytes → ℕ → Bytes
unfolding fields join
snippet s n =
    let flat = join (fields s) (codes " ") in
    if leb (length flat) n then flat else take n flat ++ ellipsis
