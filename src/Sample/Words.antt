-- ===== src/Sample/Words.antt =====
-- The words of a command line.
use hiredis_happ.Common.{
  ℕ, ◌≡◌, ◌≢◌, refl, sym, ap, ◌∙◌, arith, ◌==◌, ==_iff, true, false, [], ◌∷◌, ◌++◌, List, Bytes,
  All, append_assoc, append-nil,
}
use hiredis_happ.Text.{is_blank}
use hiredis_happ.Sample.{
  is_quote, is_escape, push_word, split_from, in_quotes, behind_quotes, split_word,
}

-- A byte that is no blank and no quote.
pub record IsPlain (c : ℕ) : Type 0 where
  pub no_blank : is_blank c ≡ false
  pub no_quote : is_quote c ≡ false

-- A word that needs no quotes.
pub record IsWord (w : Bytes) : Type 0 where
  pub plain : All IsPlain w
  pub nonempty : w ≢ []

-- A line of words, with a blank behind each.
abbrev pub join : List Bytes → Bytes
join [] = []
join (w ∷ words) = w ++ b' ' ∷ join words

split_from-plain :
    (seg w s : Bytes) → All IsPlain w → split_from seg (w ++ s) ≡ split_from (seg ++ w) s
unfolding split_from
split_from-plain seg [] s h = ap (λ t. split_from t s) (sym (append-nil seg))
split_from-plain seg (c ∷ w) s h =
    rw (split_from, h.0.no_blank, h.0.no_quote)
      (split_from-plain (seg ++ c ∷ []) w s h.1
        ∙ ap (λ t. split_from t s) (append_assoc seg (c ∷ []) w))

push_word_lem : (w : Bytes) (words : List Bytes) → w ≢ [] → push_word w words ≡ w ∷ words
unfolding push_word
push_word_lem [] words h = absurd (h refl)
push_word_lem (c ∷ w) words h = refl

split_from-blank : (seg s : Bytes) → split_from seg (b' ' ∷ s) ≡ push_word seg (split_from [] s)
unfolding split_from is_blank
split_from-blank seg s = refl

-- Plain words with blanks behind them are split again.
split_from-join : (words : List Bytes) → All IsWord words → split_from [] (join words) ≡ words
unfolding split_from push_word
split_from-join [] h = refl
split_from-join (w ∷ words) h =
    split_from-plain [] w (b' ' ∷ join words) h.0.plain
    ∙ split_from-blank w (join words)
    ∙ push_word_lem w (split_from [] (join words)) h.0.nonempty
    ∙ ap (λ t. w ∷ t) (split_from-join words h.1)

-- A byte that does not end the quotes and is no backslash in double ones.
pub record IsInside (quote c : ℕ) : Type 0 where
  pub no_end : (c == quote) ≡ false
  pub no_escape : is_escape quote c ≡ false

in_quotes-inside :
    (quote : ℕ) (seg a s : Bytes)
    → All (IsInside quote) a
    → in_quotes quote seg (a ++ quote ∷ s) ≡ behind_quotes (seg ++ a) s
unfolding split_from
in_quotes-inside quote seg [] s h =
    rw (in_quotes, (==_iff quote quote).1 refl) (ap (λ t. behind_quotes t s) (sym (append-nil seg)))
in_quotes-inside quote seg (c ∷ a) s h =
    rw (in_quotes, h.0.no_end, h.0.no_escape)
      (in_quotes-inside quote (seg ++ c ∷ []) a s h.1
        ∙ ap (λ t. behind_quotes t s) (append_assoc seg (c ∷ []) a))

quote_no_blank : (quote : ℕ) → is_quote quote ≡ true → is_blank quote ≡ false
unfolding is_quote is_blank
quote_no_blank quote h = ground arith

split_from-quoted :
    (quote : ℕ) (a : Bytes) (x : ℕ) (s : Bytes)
    → is_quote quote ≡ true
    → All (IsInside quote) a
    → split_from [] (quote ∷ a ++ quote ∷ x ∷ s) ≡ split_from a s
unfolding split_from
split_from-quoted quote a x s hq h =
    rw (split_from, quote_no_blank quote hq, hq) (in_quotes-inside quote [] a (x ∷ s) h)

-- split_word of the samples on a line that is a text in quotes, with no end of the quotes in it
-- and no backslash in double quotes, one further byte of any kind, a word, and further words, each
-- of them not empty, without blanks and quotes, and with a blank behind it: the byte behind the
-- quotes is lost, even where it is the blank between two words, the text in quotes and the first
-- word become one, and the further words are given back as they are.
pub split_word-quoted :
    (quote : ℕ) (a : Bytes) (x : ℕ) (w : Bytes) (words : List Bytes)
    → is_quote quote ≡ true
    → All (IsInside quote) a
    → IsWord w
    → All IsWord words
    → split_word (quote ∷ a ++ quote ∷ x ∷ join (w ∷ words)) ≡ (a ++ w) ∷ words
unfolding split_word split_from
split_word-quoted quote a x w words hq ha hw h =
    split_from-quoted quote a x (join (w ∷ words)) hq ha
    ∙ split_from-plain a w (b' ' ∷ join words) hw.plain
    ∙ split_from-blank (a ++ w) (join words)
    ∙ push_word_lem (a ++ w) (split_from [] (join words)) (append_nonempty a w hw.nonempty)
    ∙ ap (λ t. (a ++ w) ∷ t) (split_from-join words h)
  where
    append_nonempty : (b v : Bytes) → v ≢ [] → b ++ v ≢ []
    append_nonempty [] v g = g
    append_nonempty (c ∷ b) v g = λ e. absurd (cc)
