-- ===== src/Tests/Sample.antt =====
-- The command line of the samples at concrete lines.
use hiredis_happ.Common.{◌≡◌, refl, [], ◌∷◌, Bytes}
use hiredis_happ.Text.{is_blank}
use hiredis_happ.Sample.{is_quote, is_escape, split_word, tick}
use hiredis_happ.Sample.Words.{IsWord, split_word-quoted}

-- "k" and "v"
abbrev key_word : Bytes
key_word = b'k' ∷ []

abbrev value_word : Bytes
value_word = b'v' ∷ []

key_word-IsWord : IsWord key_word
unfolding is_quote is_blank
key_word-IsWord = record {
  plain = (record { no_blank = refl; no_quote = refl }, tt);
  nonempty = λ e. absurd (cc);
}

-- The line 'v' k , with a blank between the two words.
split_word-quoted_example :
    split_word (39 ∷ b'v' ∷ 39 ∷ b' ' ∷ b'k' ∷ b' ' ∷ []) ≡ (b'v' ∷ b'k' ∷ []) ∷ []
unfolding is_quote is_escape
split_word-quoted_example =
    split_word-quoted 39 value_word b' ' key_word [] refl
      (record { no_end = refl; no_escape = refl }, tt) key_word-IsWord tt

-- Ten million microseconds become one second.
tick_over : tick 0 9950000 ≡ (1, 50000)
unfolding tick
tick_over = refl
