-- ===== src/Llm/Extract/Values.antt =====
-- `ExtractJSON` against a grammar of bracketed values.
use ragline.Base.{
  ℕ, suc, ◌≡◌, refl, sym, ap, ◌∙◌, Bool, true, false, not, ◌&&◌, ◌||◌, [], ◌∷◌, ◌++◌, append_assoc,
  Option, none, some, Bytes, arith, trim_space, ◌==◌,
}
use ragline.Llm.Extract.{
  Scan, scan, scan_step, scan_start, consed, closing, quote, backslash, fence, cut_first, unfence,
  from_open, extract_json,
}

-- What follows the quote that opens a string, up to the one that closes it.
pub data Quoted : Bytes → Type 0 where
  closed : Quoted (quote ∷ [])
  char :
      (c : ℕ) (t : Bytes)
      → (c == quote) ≡ false
      → (c == backslash) ≡ false
      → Quoted t
      → Quoted (c ∷ t)
  escape : (c : ℕ) (t : Bytes) → Quoted t → Quoted (backslash ∷ c ∷ t)

-- What stands between a bracket and the one that closes it: bytes that are no brackets of its kind,
-- strings, and nested values of its kind.
pub data Body (o : ℕ) : Bytes → Type 0 where
  empty : Body o []
  plain :
      (c : ℕ) (s : Bytes)
      → (c == quote) ≡ false
      → (c == o) ≡ false
      → (c == closing o) ≡ false
      → Body o s
      → Body o (c ∷ s)
  string : (t s : Bytes) → Quoted t → Body o s → Body o (quote ∷ (t ++ s))
  nested : (a s : Bytes) → Body o a → Body o s → Body o (o ∷ (a ++ closing o ∷ s))

abbrev pub is_open : ℕ → Bool
is_open c = c == b'{' || c == b'['

-- A text behind some bytes, where there is one.
abbrev behind : Bytes → Option Bytes → Option Bytes
behind a none = none
behind a (some s) = some (a ++ s)

behind-append : (a b : Bytes) (x : Option Bytes) → behind (a ++ b) x ≡ behind a (behind b x)
behind-append a b none = refl
behind-append a b (some s) = ap some (append_assoc a b s)

consed-behind : (c : ℕ) (a : Bytes) (x : Option Bytes) → consed c (behind a x) ≡ behind (c ∷ a) x
consed-behind c a none = refl
consed-behind c a (some s) = refl

behind-nil : (x : Option Bytes) → behind [] x ≡ x
behind-nil none = refl
behind-nil (some s) = refl

abbrev at_depth : ℕ → Bool → Scan
at_depth d b = record { depth = d; in_str = b; escaped = false }

-- A byte that does not end the scan.
scan-goes :
    (o : ℕ) (st st' : Scan) (c : ℕ) (s : Bytes)
    → scan_step o st c ≡ some st'
    → scan o st (c ∷ s) ≡ consed c (scan o st' s)
unfolding scan
scan-goes o st st' c s h = rw (scan, h) refl

module _ (o : ℕ) (opens : is_open o ≡ true) (d : ℕ) where
  step-plain :
      (c : ℕ)
      → (c == quote) ≡ false
      → (c == o) ≡ false
      → (c == closing o) ≡ false
      → scan_step o (at_depth d false) c ≡ some (at_depth d false)
  unfolding scan_step
  step-plain c p q r = ground (arith, p, q, r)

  step-quote : (b : Bool) → scan_step o (at_depth d b) quote ≡ some (at_depth d (not b))
  unfolding scan_step
  step-quote true = refl
  step-quote false = refl

  step-char :
      (c : ℕ)
      → (c == quote) ≡ false
      → (c == backslash) ≡ false
      → scan_step o (at_depth d true) c ≡ some (at_depth d true)
  unfolding scan_step
  step-char c p q = ground (arith, p, q)

  abbrev escaping : Scan
  escaping = record { depth = d; in_str = true; escaped = true }

  step-backslash : scan_step o (at_depth d true) backslash ≡ some escaping
  unfolding scan_step
  step-backslash = refl

  step-escaped : (c : ℕ) → scan_step o escaping c ≡ some (at_depth d true)
  unfolding scan_step
  step-escaped c = refl

  step-open : scan_step o (at_depth d false) o ≡ some (at_depth (suc d) false)
  unfolding scan_step
  step-open = ground (arith, opens)

  step-close :
      scan_step o (at_depth (suc (suc d)) false) (closing o) ≡ some (at_depth (suc d) false)
  unfolding scan_step
  step-close = ground (arith, opens)

  step-last : scan_step o (at_depth 1 false) (closing o) ≡ none
  unfolding scan_step
  step-last = ground (arith, opens)

scan-stops :
    (o : ℕ) (st : Scan) (c : ℕ) (s : Bytes)
    → scan_step o st c ≡ none
    → scan o st (c ∷ s) ≡ some (c ∷ [])
unfolding scan
scan-stops o st c s h = rw (scan, h) refl

module _ (o : ℕ) (opens : is_open o ≡ true) where
  scan-Quoted :
      (t : Bytes) (d : ℕ) (r : Bytes)
      → Quoted t
      → scan o (at_depth d true) (t ++ r) ≡ behind t (scan o (at_depth d false) r)
  scan-Quoted t d r closed =
      scan-goes o (at_depth d true) (at_depth d false) quote r (step-quote o opens d true)
      ∙ ap (consed quote) (sym (behind-nil (scan o (at_depth d false) r)))
      ∙ consed-behind quote [] (scan o (at_depth d false) r)
  scan-Quoted t d r (char c u p q more) =
      scan-goes o (at_depth d true) (at_depth d true) c (u ++ r) (step-char o opens d c p q)
      ∙ ap (consed c) (scan-Quoted u d r more)
      ∙ consed-behind c u (scan o (at_depth d false) r)
  scan-Quoted t d r (escape c u more) =
      scan-goes o (at_depth d true) (escaping o opens d) backslash (c ∷ (u ++ r))
        (step-backslash o opens d)
      ∙ ap (consed backslash) (
          scan-goes o (escaping o opens d) (at_depth d true) c (u ++ r) (step-escaped o opens d c)
          ∙ ap (consed c) (scan-Quoted u d r more)
          ∙ consed-behind c u (scan o (at_depth d false) r))
      ∙ consed-behind backslash (c ∷ u) (scan o (at_depth d false) r)

  scan-Body :
      (a : Bytes) (d : ℕ) (r : Bytes)
      → Body o a
      → scan o (at_depth (suc d) false) (a ++ r) ≡ behind a (scan o (at_depth (suc d) false) r)
  scan-Body a d r empty = sym (behind-nil (scan o (at_depth (suc d) false) r))
  scan-Body a d r (plain c s p q k more) =
      scan-goes o (at_depth (suc d) false) (at_depth (suc d) false) c (s ++ r)
        (step-plain o opens (suc d) c p q k)
      ∙ ap (consed c) (scan-Body s d r more)
      ∙ consed-behind c s (scan o (at_depth (suc d) false) r)
  scan-Body a d r (string t s q more) =
      scan-goes o (at_depth (suc d) false) (at_depth (suc d) true) quote ((t ++ s) ++ r)
        (step-quote o opens (suc d) false)
      ∙ ap (consed quote) (
          ap (scan o (at_depth (suc d) true)) (append_assoc t s r)
          ∙ scan-Quoted t (suc d) (s ++ r) q
          ∙ ap (behind t) (scan-Body s d r more)
          ∙ sym (behind-append t s (scan o (at_depth (suc d) false) r)))
      ∙ consed-behind quote (t ++ s) (scan o (at_depth (suc d) false) r)
  scan-Body a d r (nested b s inner more) =
      let c = closing o in
      scan-goes o (at_depth (suc d) false) (at_depth (suc (suc d)) false) o ((b ++ c ∷ s) ++ r)
        (step-open o opens (suc d))
      ∙ ap (consed o) (
          ap (scan o (at_depth (suc (suc d)) false)) (append_assoc b (c ∷ s) r)
          ∙ scan-Body b (suc d) (c ∷ (s ++ r)) inner
          ∙ ap (behind b) (
              scan-goes o (at_depth (suc (suc d)) false) (at_depth (suc d) false) c (s ++ r)
                (step-close o opens d)
              ∙ ap (consed c) (scan-Body s d r more)
              ∙ consed-behind c s (scan o (at_depth (suc d) false) r))
          ∙ sym (behind-append b (c ∷ s) (scan o (at_depth (suc d) false) r)))
      ∙ consed-behind o (b ++ c ∷ s) (scan o (at_depth (suc d) false) r)

  scan-value :
      (a r : Bytes)
      → Body o a
      → scan o scan_start (o ∷ (a ++ closing o ∷ r)) ≡ some (o ∷ (a ++ closing o ∷ []))
  scan-value a r b =
      scan-goes o scan_start (at_depth 1 false) o (a ++ closing o ∷ r) (step-open o opens 0)
      ∙ ap (consed o) (
          scan-Body a 0 (closing o ∷ r) b
          ∙ ap (behind a) (scan-stops o (at_depth 1 false) (closing o) r (step-last o opens 0)))

-- No bracket opens in a text.
unfoldable pub no_open : Bytes → Bool
no_open [] = true
no_open (c ∷ s) = not (is_open c) && no_open s

from_open-prose :
    (prose : Bytes) (o : ℕ) (r : Bytes)
    → no_open prose ≡ true
    → is_open o ≡ true
    → from_open (prose ++ o ∷ r) ≡ some (o, r)
unfolding from_open no_open
from_open-prose [] o r h k = rw k refl
from_open-prose (c ∷ s) o r h k = ground (arith, from_open-prose s o r, h, k)

unfence-same : (s : Bytes) → cut_first fence s ≡ none → unfence s ≡ s
unfolding unfence
unfence-same s h = rw (unfence, h) refl

-- In a text that holds no code fence (single backticks may stand in it), `ExtractJSON` returns the first bracketed value, whole and with
-- nothing of what stands around it: brackets inside of strings, escaped quotes and nested values do
-- not end it. Before the value there is no opening bracket.
pub extract_json-value :
    (s prose a rest : Bytes) (o : ℕ)
    → trim_space s ≡ prose ++ o ∷ (a ++ closing o ∷ rest)
    → cut_first fence (trim_space s) ≡ none
    → no_open prose ≡ true
    → is_open o ≡ true
    → Body o a
    → extract_json s ≡ some (o ∷ (a ++ closing o ∷ []))
unfolding extract_json
extract_json-value s prose a rest o e fenceless h opens b =
    let found : from_open (unfence (trim_space s)) ≡ some (o, a ++ closing o ∷ rest) =
      ap from_open (unfence-same (trim_space s) fenceless ∙ e)
      ∙ from_open-prose prose o (a ++ closing o ∷ rest) h opens in
    rw (extract_json, found) (scan-value o opens a rest b)
