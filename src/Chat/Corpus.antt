-- ===== src/Chat/Corpus.antt =====
-- internal/chat/chat.go and cmd/gateway/main.go: `Service` over the tables of the store and the
-- reranker of a mode, as `main` puts them together.
pub mod Sourced
pub mod Rows
use ragline.Base.{Bytes}
use ragline.Store.{Floats}
use ragline.Store.Passages.{Corpus, Search, hybrid_chunks, keyword_chunks}
use ragline.Rerank.Modes.{Reranker, name_of, rerank_by, Client, new_reranker}
use ragline.Chat.Types.{Service}

module _ {E : Type 0} (fl : Floats) where
  open fl use {F}

  -- `Store` and `Reranker` of the service.
  abbrev pub over_store : Search fl E → Corpus → Reranker fl → Service F E → Service F E
  over_store s c r sv = record sv {
    hybrid_search = λ v query n. hybrid_chunks fl s c v query n;
    keyword_search = λ query n. keyword_chunks fl s c query n;
    reranker_name = name_of fl r;
    rerank = λ query cs n. rerank_by fl r query cs n;
  }

  -- The service that `main` builds for the mode of its configuration.
  unfoldable pub service_over : Search fl E → Corpus → Bytes → Client fl → Service F E → Service F E
  unfolding new_reranker
  service_over s c mode client sv = over_store s c (new_reranker fl mode client) sv
