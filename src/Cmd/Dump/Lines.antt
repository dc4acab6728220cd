-- ===== src/Cmd/Dump/Lines.antt =====
-- The lines of a reply's text.
use hiredis_happ.Common.{
  ℕ, ◌∙◌, zero, suc, ◌+◌, ◌-◌, ◌/◌, ◌%◌, ◌≡◌, refl, arith, ltb, ◌==◌, if◌then◌else◌, Bool-cases,
  inl, inr, [], ◌∷◌, ◌++◌, Bytes, length, Option, some, ℤ, pos, negsuc,
}
use hiredis_happ.Memory.{
  Reply, Replies, reply, reply_array, reply_integer, reply_string, reply_nil, reply_status,
  reply_error, reply_other, done, null_elem, elem,
}
use hiredis_happ.Cmd.Dump.{
  digits, print_number, spaces, pad, c_text, text_line, then_write, element_prefix, dump_reply,
  dump_elements, dump,
}

abbrev pub newlines : Bytes → ℕ
newlines [] = 0
newlines (c ∷ s) = let rest = newlines s in if c == b'\n' then suc rest else rest

-- The replies of a tree, null elements aside.
abbrev mutual
  pub replies : Reply → ℕ
  replies (reply reply_array i s e) = 1 + replies_of e
  replies (reply reply_nil i s e) = 1
  replies (reply reply_status i s e) = 1
  replies (reply reply_error i s e) = 1
  replies (reply reply_integer i s e) = 1
  replies (reply reply_string i s e) = 1
  replies (reply reply_other i s e) = 1

  pub replies_of : Replies → ℕ
  replies_of done = 0
  replies_of (null_elem e) = replies_of e
  replies_of (elem r e) = replies r + replies_of e

-- A text that is there and has no newline.
pub record IsLine (s : Option Bytes) : Type 0 where
  pub text : Bytes
  pub there : s ≡ some text
  pub plain : newlines text ≡ 0

-- Each status, error and string of a tree is such a text.
abbrev mutual
  pub IsPlain : Reply → Type 0
  IsPlain (reply reply_nil i s e) = Unit {0}
  IsPlain (reply reply_status i s e) = IsLine s
  IsPlain (reply reply_error i s e) = IsLine s
  IsPlain (reply reply_integer i s e) = Unit {0}
  IsPlain (reply reply_string i s e) = IsLine s
  IsPlain (reply reply_array i s e) = ArePlain e
  IsPlain (reply reply_other i s e) = Unit {0}

  pub ArePlain : Replies → Type 0
  ArePlain done = Unit {0}
  ArePlain (null_elem e) = ArePlain e
  ArePlain (elem r e) = IsPlain r × ArePlain e

newlines-append : (a b : Bytes) → newlines (a ++ b) ≡ newlines a + newlines b
newlines-append [] b = omega arith
newlines-append (c ∷ a) b = ground (arith, newlines-append a b)

newlines-digit : (n : ℕ) (out : Bytes) → newlines ((b'0' + n % 10) ∷ out) ≡ newlines out
newlines-digit n out = ground arith

newlines-digits : (k n : ℕ) (out : Bytes) → newlines (digits k n out) ≡ newlines out
unfolding digits
newlines-digits zero n out = newlines-digit n out
newlines-digits (suc k) n out = elim (Bool-cases (ltb n 10)) [
  | inl e ↦ rw (newlines, e) (newlines-digit n out)
  | inr e ↦
      rw (newlines, e) (newlines-digits k (n / 10) ((b'0' + n % 10) ∷ out) ∙ newlines-digit n out)
]

newlines-number : (i : ℤ) → newlines (print_number i) ≡ 0
unfolding print_number
newlines-number (pos n) = newlines-digits n n []
newlines-number (negsuc n) = newlines-digits (suc n) (suc n) []

newlines-spaces : (n : ℕ) → newlines (spaces n) ≡ 0
unfolding spaces
newlines-spaces zero = refl
newlines-spaces (suc n) = newlines-spaces n

newlines-c_text : (s : Bytes) → newlines s ≡ 0 → newlines (c_text s) ≡ 0
unfolding c_text
newlines-c_text [] h = refl
newlines-c_text (c ∷ s) h = ground (arith, newlines-c_text s)

-- A write with so many newlines.
pub record Writes (x : Option Bytes) (n : ℕ) : Type 0 where
  pub out : Bytes
  pub writes : x ≡ some out
  pub counts : newlines out ≡ n

newlines-prefix : (ident n : ℕ) → newlines (element_prefix ident n) ≡ 0
unfolding element_prefix pad
newlines-prefix ident n =
    let w = 7 - length (print_number (pos n)) in
    omega (
      arith,
      newlines-append (spaces ident ++ pad 7 (print_number (pos n))) (b':' ∷ b' ' ∷ []),
      newlines-append (spaces ident) (pad 7 (print_number (pos n))),
      newlines-append (spaces w) (print_number (pos n)),
      newlines-spaces ident,
      newlines-spaces w,
      newlines-number (pos n),
    )

then_write-Writes :
    (x y : Option Bytes) (m n k : ℕ)
    → k ≡ m + n
    → Writes x m
    → Writes y n
    → Writes (then_write x y) k
unfolding then_write
then_write-Writes x y m n k e h j = record {
  out = h.out ++ j.out;
  writes = rw (h.writes, j.writes);
  counts = omega (arith, newlines-append h.out j.out, h.counts, j.counts, e);
}

prefix-Writes : (ident n : ℕ) → Writes (some (element_prefix ident n)) 0
prefix-Writes ident n = record {
  out = element_prefix ident n;
  writes = refl;
  counts = newlines-prefix ident n;
}

text_line-Writes :
    (tag : Bytes) (s : Option Bytes) → newlines tag ≡ 0 → IsLine s → Writes (text_line tag s) 1
unfolding text_line
text_line-Writes tag s e h = record {
  out = tag ++ c_text h.text ++ b'\n' ∷ [];
  writes = rw h.there;
  counts = omega (
    arith,
    newlines-append (tag ++ c_text h.text) (b'\n' ∷ []),
    newlines-append tag (c_text h.text),
    newlines-c_text h.text h.plain,
    e,
  );
}

mutual
  unfolding dump_reply

  dump_reply-Writes : (ident : ℕ) (r : Reply) → IsPlain r → Writes (dump_reply ident r) (replies r)
  dump_reply-Writes ident (reply reply_nil i s e) h = record {
    out = _;
    writes = refl;
    counts = refl;
  }
  dump_reply-Writes ident (reply reply_status i s e) h = text_line-Writes _ s refl h
  dump_reply-Writes ident (reply reply_error i s e) h = text_line-Writes _ s refl h
  dump_reply-Writes ident (reply reply_integer i s e) h = record {
    out = _;
    writes = refl;
    counts = omega (arith, newlines-append (print_number i) (b'\n' ∷ []), newlines-number i);
  }
  dump_reply-Writes ident (reply reply_string i s e) h = text_line-Writes [] s refl h
  dump_reply-Writes ident (reply reply_array i s e) h =
      then_write-Writes _ _ 1 (replies_of e) _ refl
        (record { out = _; writes = refl; counts = refl }) (dump_elements-Writes ident 1 e h)
  dump_reply-Writes ident (reply reply_other i s e) h = record {
    out = _;
    writes = refl;
    counts = refl;
  }

  dump_elements-Writes :
      (ident n : ℕ) (e : Replies) → ArePlain e → Writes (dump_elements ident n e) (replies_of e)
  dump_elements-Writes ident n done h = record { out = []; writes = refl; counts = refl }
  dump_elements-Writes ident n (null_elem e) h =
      then_write-Writes _ _ 0 (replies_of e) _ (omega arith) (prefix-Writes ident n)
        (dump_elements-Writes ident (suc n) e h)
  dump_elements-Writes ident n (elem r e) h =
      then_write-Writes _ _ (replies r) (replies_of e) _ refl
        (then_write-Writes _ _ 0 (replies r) _ (omega arith) (prefix-Writes ident n)
          (dump_reply-Writes (ident + 2) r h.0))
        (dump_elements-Writes ident (suc n) e h.1)

-- The dump of a reply whose statuses, errors and strings, at every depth, are there and have no
-- newline does not write a null text, and writes as many newlines as there are replies in it:
-- itself and, at every depth, the elements of arrays that are no null pointers.
pub dump_lem : (ident : ℕ) (r : Reply) → IsPlain r → Writes (dump (some r) ident) (replies r)
unfolding dump
dump_lem ident r h = dump_reply-Writes ident r h
