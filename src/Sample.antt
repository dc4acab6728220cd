-- ===== src/Sample.antt =====
-- The command line of the two samples (sample/sample_raw_cli/main.cpp and sample/sample_cluster_cli/main.cpp,
-- which have these parts in the same form): split_word, and the clock of on_timer_proc.
pub mod Words
use hiredis_happ.Common.{
  ℕ, ◌+◌, ◌/◌, ◌%◌, ltb, ◌==◌, ◌&&◌, ◌||◌, if◌then◌else◌, Bool, true, false, [], ◌∷◌, ◌++◌, List,
  Bytes,
}
use hiredis_happ.Text.{is_blank}

-- A single or a double quote.
unfoldable pub is_quote : ℕ → Bool
is_quote c = c == 39 || c == 34

-- A backslash in double quotes.
unfoldable pub is_escape : ℕ → ℕ → Bool
is_escape quote c = quote == 34 && c == 92

-- `if (!seg.empty()) ret.push_back(seg);`, in front of the words that follow.
unfoldable pub push_word : Bytes → List Bytes → List Bytes
push_word [] words = words
push_word (c ∷ seg) words = (c ∷ seg) ∷ words

-- The loop of split_word with the word so far; the loop inside quotes; the byte behind a backslash; and the
-- byte behind the end of the quotes, which the two increments pass over.
unfoldable mutual
  unfolding is_blank is_quote is_escape push_word

  pub split_from : Bytes → Bytes → List Bytes
  split_from seg [] = push_word seg []
  split_from seg (c ∷ s) = elim (is_blank c) [
    | true ↦ push_word seg (split_from [] s)
    | false ↦ elim (is_quote c) [ true ↦ in_quotes c seg s | false ↦ split_from (seg ++ c ∷ []) s ]
  ]

  pub in_quotes : ℕ → Bytes → Bytes → List Bytes
  in_quotes quote seg [] = push_word seg []
  in_quotes quote seg (c ∷ s) = elim (c == quote) [
    | true ↦ behind_quotes seg s
    | false ↦ elim (is_escape quote c) [
      | true ↦ behind_escape quote seg s
      | false ↦ in_quotes quote (seg ++ c ∷ []) s
    ]
  ]

  pub behind_escape : ℕ → Bytes → Bytes → List Bytes
  behind_escape quote seg [] = push_word seg []
  behind_escape quote seg (c ∷ s) = in_quotes quote (seg ++ c ∷ []) s

  pub behind_quotes : Bytes → Bytes → List Bytes
  behind_quotes seg [] = push_word seg []
  behind_quotes seg (c ∷ s) = split_from seg s

unfoldable pub split_word : Bytes → List Bytes
split_word line = split_from [] line

-- The time that on_timer_proc hands to proc, from one call to the next.
unfoldable pub tick : ℕ → ℕ → ℕ × ℕ
tick sec usec =
    let t = usec + 100000 in if ltb 10000000 t then (sec + t / 10000000, t % 10000000) else (sec, t)
