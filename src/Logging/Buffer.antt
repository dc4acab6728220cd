-- ===== src/Logging/Buffer.antt =====
-- The log buffer of write_log: its size, and the NUL in it.
use Prim.Native.String.{String}
use hiredis_happ.Common.{
  some_injective, ℕ, zero, suc, ◌-◌, ◌<◌, ◌≡◌, refl, sym, ap, ◌∙◌, subst, arith, ltb, ltb→lt,
  lt→ltb, ◌==◌, false, Bool-cases, inl, inr, [], ◌∷◌, List, Bytes, length, get_or, set, All, Option,
  none, some, ℤ, pos, negsuc,
}
use hiredis_happ.Memory.{M}
use hiredis_happ.Logging.{
  Arg, Libc, LogWriter, put_nul, end_at, print_log, print_into, own_buffer, write_log,
}

-- What malloc and vsnprintf promise: a block has the size asked for, and a buffer keeps its size.
pub record IsLibc (libc : Libc) : Type 0 where
  pub sized : (w : List (ℕ × Bytes)) (n : ℕ) {b : Bytes} → libc.malloc w n ≡ some b → length b ≡ n
  pub kept :
      (b : Bytes) (fmt : String) (args : List Arg)
      → length (libc.vsnprintf b (length b) fmt args).1 ≡ length b

-- A buffer with a NUL in it.
pub record IsEnded (b : Bytes) : Type 0 where
  pub at : ℕ
  pub inside : at < length b
  pub is_nul : get_or b at 1 ≡ 0

-- The buffer has the size that is set, and the user's functions have got buffers with a NUL only.
pub record IsBounded (s : LogWriter) : Type 0 where
  pub fits : {b : Bytes} → s.log_buffer ≡ some b → length b ≡ s.log_max_size
  pub ended : All (λ w. IsEnded w.1) s.written

pub length-set : (b : Bytes) (i v : ℕ) → length (set b i v) ≡ length b
length-set [] i v = refl
length-set (x ∷ b) zero v = refl
length-set (x ∷ b) (suc i) v = ap suc (length-set b i v)

get_or-set : (b : Bytes) (i v d : ℕ) → i < length b → get_or (set b i v) i d ≡ v
get_or-set [] i v d h = omega (arith, h)
get_or-set (x ∷ b) zero v d h = refl
get_or-set (x ∷ b) (suc i) v d h = get_or-set b i v d (omega arith)

-- A NUL in the buffer: no fault, the same size, and an end.
record Ends (x : Option Bytes) (n : ℕ) : Type 0 where
  result : Bytes
  runs : x ≡ some result
  same : length result ≡ n
  ended : IsEnded result

put_nul-Ends : (b : Bytes) (i : ℕ) → i < length b → Ends (put_nul b i) (length b)
unfolding put_nul
put_nul-Ends b i h = record {
  result = set b i 0;
  runs = rw (lt→ltb i (length b) h);
  same = length-set b i 0;
  ended = record {
    at = i;
    inside = omega (arith, h, length-set b i 0);
    is_nul = get_or-set b i 0 1 h;
  };
}

end_at-Ends : (l : ℤ) (b : Bytes) → IsEnded b → Ends (end_at l (length b) b) (length b)
unfolding end_at
end_at-Ends (negsuc n) b h = record { result = b; runs = refl; same = refl; ended = h }
end_at-Ends (pos n) b h = elim (Bool-cases (ltb n (length b))) [
  | inl e ↦ subst (λ x. Ends x (length b)) (rw e) (put_nul-Ends b n (ltb→lt n (length b) e))
  | inr e ↦ record { result = b; runs = rw e; same = refl; ended = h }
]

-- A call that does not fault and leaves a bounded writer.
pub record Bounded (x : M LogWriter (Unit {0})) (s : LogWriter) : Type 0 where
  pub after : LogWriter
  pub runs : x s ≡ some (tt, after)
  pub bounded : IsBounded after

module _ (libc : Libc) (std : IsLibc libc) where
  print_log-some :
      (fn : ℕ) (b : Bytes) (fmt : String) (args : List Arg) (s : LogWriter) (c d : Bytes)
      → put_nul (libc.vsnprintf b s.log_max_size fmt args).1 (s.log_max_size - 1) ≡ some c
      → end_at (libc.vsnprintf b s.log_max_size fmt args).0 s.log_max_size c ≡ some d
      → print_log libc fn b fmt args s
        ≡ some (tt, record s { log_buffer = some d; written = (fn, d) ∷ s.written })
  unfolding print_log
  print_log-some fn b fmt args s c d e q = rw (e, q, print_log)

  print_log-Bounded :
      (fn : ℕ) (b : Bytes) (fmt : String) (args : List Arg) (s : LogWriter)
      → length b ≡ s.log_max_size
      → 0 < s.log_max_size
      → IsBounded s
      → Bounded (print_log libc fn b fmt args) s
  print_log-Bounded fn b fmt args s e h ok =
      let size : length (libc.vsnprintf b s.log_max_size fmt args).1 ≡ s.log_max_size =
        ap (λ n. length (libc.vsnprintf b n fmt args).1) (sym e) ∙ std.kept b fmt args ∙ e in
      let first =
        put_nul-Ends (libc.vsnprintf b s.log_max_size fmt args).1 (s.log_max_size - 1)
          (omega (arith, size, h)) in
      let second : Ends
          (end_at (libc.vsnprintf b s.log_max_size fmt args).0 s.log_max_size first.result)
          s.log_max_size =
        subst (λ n. Ends (end_at (libc.vsnprintf b s.log_max_size fmt args).0 n first.result) n)
          (first.same ∙ size)
          (end_at-Ends (libc.vsnprintf b s.log_max_size fmt args).0 first.result first.ended) in
      record {
        after = record s {
          log_buffer = some second.result;
          written = (fn, second.result) ∷ s.written;
        };
        runs = print_log-some fn b fmt args s first.result second.result first.runs second.runs;
        bounded = record {
          fits = λ q. ap length (sym (some_injective q)) ∙ second.same;
          ended = (second.ended, ok.ended);
        };
      }

  own_buffer-size :
      (s : LogWriter) (o : Option Bytes) (b : Bytes)
      → IsBounded s
      → o ≡ s.log_buffer
      → own_buffer libc s o ≡ some b
      → length b ≡ s.log_max_size
  unfolding own_buffer
  own_buffer-size s none b ok q e = std.sized s.written s.log_max_size e
  own_buffer-size s (some a) b ok q e = ok.fits (sym q ∙ e)

  print_into-Bounded :
      (fn : ℕ) (fmt : String) (args : List Arg) (o : Option Bytes) (s : LogWriter)
      → ((b : Bytes) → o ≡ some b → length b ≡ s.log_max_size)
      → 0 < s.log_max_size
      → IsBounded s
      → Bounded (print_into libc fn fmt args o) s
  unfolding print_into
  print_into-Bounded fn fmt args none s e h ok = record {
    after = record s { log_buffer = none };
    runs = refl;
    bounded = record { fits = λ q. absurd (cc); ended = ok.ended };
  }
  print_into-Bounded fn fmt args (some b) s e h ok =
      let owned : IsBounded (record s { log_buffer = some b }) = record {
        fits = λ q. ap length (sym (some_injective q)) ∙ e b refl;
        ended = ok.ended;
      } in
      let rest =
        print_log-Bounded fn b fmt args (record s { log_buffer = some b }) (e b refl) h owned in
      record { after = rest.after; runs = rest.runs; bounded = rest.bounded }

  positive : (n : ℕ) → (n == 0) ≡ false → 0 < n
  positive n h = ground arith

  pub write_log-Bounded :
      (f : Option ℕ) (fmt : String) (args : List Arg) (s : LogWriter)
      → IsBounded s
      → Bounded (write_log libc f fmt args) s
  unfolding write_log
  write_log-Bounded none fmt args s ok = record { after = s; runs = refl; bounded = ok }
  write_log-Bounded (some fn) fmt args s ok = elim (Bool-cases (s.log_max_size == 0)) [
    | inl e ↦ record { after = s; runs = rw e; bounded = ok }
    | inr e ↦
        let rest =
          print_into-Bounded fn fmt args (own_buffer libc s s.log_buffer) s
            (λ b. own_buffer-size s s.log_buffer b ok refl) (positive s.log_max_size e) ok in
        record { after = rest.after; runs = rw (e, rest.runs); bounded = rest.bounded }
  ]
