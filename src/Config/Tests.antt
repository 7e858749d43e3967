-- ===== src/Config/Tests.antt =====
-- `Load` in an empty environment and in one that asks for too much, and the theorem at the second.
use ragline.Base.{◌≡◌, refl, [], none, some, Bytes, codes, bytes_eq, trim_space, if◌then◌else◌, pos}
use ragline.Config.{Parsers, read_config, load, loaded, invalid, context_exceeds_rerank}
use ragline.Config.Valid.{Checked, load-Checked}

-- The parsers know a few numbers; a value of type `float64` is its text.
abbrev parsers : Parsers Bytes
parsers = record {
  atoi = λ s. if bytes_eq s (codes "20") then some (pos 20) else none;
  parse_float = λ s. some s;
  parse_duration = λ s. none;
  float_of = λ s. s;
}

abbrev unset : Bytes → Bytes
unset k = []

abbrev greedy : Bytes → Bytes
greedy k = if bytes_eq k (codes "CONTEXT_TOP_N") then codes " 20 " else []

defaults : load parsers unset ≡ loaded (read_config parsers unset)
unfolding load
defaults = refl

too_many_passages : load parsers greedy ≡ invalid context_exceeds_rerank
unfolding load bytes_eq trim_space
too_many_passages = refl

load-Checked_example : Checked (read_config parsers greedy) (load parsers greedy)
load-Checked_example = load-Checked parsers greedy
