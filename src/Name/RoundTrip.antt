-- ===== src/Name/RoundTrip.antt =====
-- Names are read back.
use hiredis_happ.Common.{
  ℕ, zero, suc, ◌+◌, ◌/◌, ◌%◌, ◌^◌, ◌<◌, ◌≤◌, length, ◌≡◌, ◌≢◌, ◌⊎◌, inl, inr, ap, sym, ◌∙◌, refl,
  arith, Bool-cases, ==_iff, false, ◌==◌, [], ◌∷◌, ◌++◌, Bytes, Option, some, All,
}
use native.Mathlib.Nat.{pow-suc, mod-eq_of_lt}
use hiredis_happ.Text.{is_blank, scan_digits}
use hiredis_happ.Text.Decimal.{IsDigit, scan_digits_step, scan_int-digits}
use hiredis_happ.Name.{port_loop, port_text, make_name, to_u16, split_colon, skip_blanks, pick_name}

-- The digits of `n` in front of `out`, within the places that are left.
record Printed (n : ℕ) (out : Bytes) (result : Option Bytes) : Type 0 where
  text : Bytes
  returns : result ≡ some text
  digits : All IsDigit text
  nonempty : (out ≢ []) ⊎ (0 < n) → text ≢ []
  value : scan_digits 0 text ≡ scan_digits n out

Printed-zero : (n : ℕ) (out : Bytes) → n ≡ 0 → All IsDigit out → Printed n out (some out)
Printed-zero n out e ho = record {
  text = out;
  returns = refl;
  digits = ho;
  nonempty = λ h. elim h [ inl a ↦ a | inr b ↦ absurd (omega arith) ];
  value = ap (λ t. scan_digits t out) (sym e);
}

Printed-next :
    (n : ℕ) (out : Bytes) {result : Option Bytes}
    → Printed (n / 10) ((b'0' + n % 10) ∷ out) result
    → Printed n out result
Printed-next n out p = record {
  text = p.text;
  returns = p.returns;
  digits = p.digits;
  nonempty = λ _. p.nonempty (inl (ground arith));
  value =
      p.value
      ∙ scan_digits_step (n / 10) (n % 10) out (omega arith)
      ∙ ap (λ t. scan_digits t out) (omega arith);
}

port_loop-Printed :
    (i n : ℕ) (out : Bytes) → n < 10 ^ i → All IsDigit out → Printed n out (port_loop i n out)
unfolding port_loop
port_loop-Printed zero n out h ho =
    let e : n ≡ 0 = omega arith in rw ((==_iff n 0).1 e) (Printed-zero n out e ho)
port_loop-Printed (suc i) n out h ho = elim (Bool-cases (n == 0)) [
  | inl e ↦ rw e (Printed-zero n out ((==_iff n 0).0 e) ho)
  | inr e ↦ rw e (
      Printed-next n out (
        port_loop-Printed i (n / 10) ((b'0' + n % 10) ∷ out) (omega (arith, pow-suc 10 i))
          ((omega arith, omega arith), ho)))
]

-- What `make_name` appends: some digits, in which `port` is read.
pub record IsPortText (port : ℕ) (text : Bytes) : Type 0 where
  pub digits : All IsDigit text
  nonempty : text ≢ []
  value : scan_digits 0 text ≡ port

pub port_text-total :
    (n : ℕ) → n < 2 ^ 16 → (text : Bytes) × (port_text n ≡ some text) × IsPortText n text
unfolding port_text scan_digits
port_text-total n h = elim (Bool-cases (n == 0)) [
  | inl e ↦ (
    b'0' ∷ [],
    rw e,
    record {
      digits = ((omega arith, omega arith), tt);
      nonempty = ground arith;
      value = sym ((==_iff n 0).0 e);
    },
  )
  | inr e ↦
      let p = port_loop-Printed 7 n [] (omega arith) tt in
      (
        p.text,
        rw e p.returns,
        record { digits = p.digits; nonempty = p.nonempty (inr (ground arith)); value = p.value },
      )
]

port_loop-length :
    (i n : ℕ) (out text : Bytes) → port_loop i n out ≡ some text → length text ≤ i + length out
unfolding port_loop
port_loop-length zero n out text e = ground arith
port_loop-length (suc i) n out text e = elim (Bool-cases (n == 0)) [
  | inl last ↦ ground (arith, last)
  | inr more ↦ omega (
    arith,
    port_loop-length i (n / 10) ((b'0' + n % 10) ∷ out) text (sym (rw (more, port_loop) refl) ∙ e),
  )
]

pub port_text-length : (n : ℕ) (text : Bytes) → port_text n ≡ some text → length text ≤ 7
unfolding port_text
port_text-length n text e = ground (arith, port_loop-length 7 n [] text)

split_colon-append :
    (ip text : Bytes) → All (λ c. c ≢ b':') ip → split_colon (ip ++ b':' ∷ text) ≡ some (ip, text)
unfolding split_colon
split_colon-append [] text h = refl
split_colon-append (c ∷ ip) text h = ground (arith, split_colon-append ip text h.1)

-- A host without a colon, and with no blank in front.
abbrev pub IsHost : Bytes → Type 0
IsHost [] = Unit {0}
IsHost (c ∷ ip) = (is_blank c ≡ false) × All (λ d. d ≢ b':') (c ∷ ip)

IsHost-Lacks : (ip : Bytes) → IsHost ip → All (λ d. d ≢ b':') ip
IsHost-Lacks [] h = tt
IsHost-Lacks (c ∷ ip) h = h.1

skip_blanks-IsHost : (ip : Bytes) → IsHost ip → skip_blanks ip ≡ ip
unfolding skip_blanks
skip_blanks-IsHost [] h = refl
skip_blanks-IsHost (c ∷ ip) h = rw h.0

pick_name-text :
    (ip text : Bytes) (port : ℕ)
    → port < 2 ^ 16
    → IsHost ip
    → IsPortText port text
    → pick_name (ip ++ b':' ∷ text) ≡ some (ip, port)
unfolding pick_name to_u16
pick_name-text ip [] port h host p = absurd (p.nonempty refl)
pick_name-text ip (c ∷ text) port h host p =
    rw (split_colon-append ip (c ∷ text) (IsHost-Lacks ip host), pick_name)
      (rw (scan_int-digits (c ∷ text) p.nonempty p.digits, p.value, skip_blanks-IsHost ip host)
        (ap (λ n. some (ip, n)) (mod-eq_of_lt h)))

-- make_name prints every port of 16 bits without leaving its buffer, and pick_name reads the host
-- and the port back, for a host without a colon and with no blank in front.
pub pick_name-make_name :
    (ip : Bytes) (port : ℕ)
    → port < 2 ^ 16
    → IsHost ip
    → (name : Bytes) × (make_name ip port ≡ some name) × (pick_name name ≡ some (ip, port))
unfolding make_name
pick_name-make_name ip port h host =
    let (text, e, p) = port_text-total port h in
    (ip ++ b':' ∷ text, rw (e, make_name), pick_name-text ip text port h host p)
