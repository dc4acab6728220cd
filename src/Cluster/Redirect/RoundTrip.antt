-- ===== src/Cluster/Redirect/RoundTrip.antt =====
-- The text of a redirection is read back.
use hiredis_happ.Common.{
  ℕ, ◌<◌, ◌≤◌, ◌^◌, ◌≡◌, ◌≢◌, refl, sym, ap, ◌∙◌, subst, arith, false, ltb, ◌==◌, ◌||◌, [], ◌∷◌,
  ◌++◌, Bytes, All, All-append, length, drop, length-append, drop-length_append, none, some, ℤ, pos,
}
use hiredis_happ.Text.{is_blank, is_space, is_digit, scan_int, scan_digits}
use hiredis_happ.Text.Decimal.{IsDigit, scan_digits-append, scan_int-digit}
use hiredis_happ.Name.{make_name, pick_name}
use hiredis_happ.Name.RoundTrip.{IsHost, port_text-total, port_text-length, pick_name-make_name}
use hiredis_happ.Cluster.Redirect.{
  skip_spaces, skip_digits, after_digits, after_sign, token, scan_addr, addr_size, fit,
  scan_redirect,
}

-- A byte that `%s` reads.
abbrev pub IsWordByte : ℕ → Type 0
IsWordByte c = is_space c || c == 0 ≡ false

skip_digits-append :
    (s : Bytes) (c : ℕ) (rest : Bytes)
    → All IsDigit s
    → c < b'0'
    → skip_digits (s ++ c ∷ rest) ≡ c ∷ rest
unfolding skip_digits is_digit
skip_digits-append [] c rest h hc = ground arith
skip_digits-append (d ∷ s) c rest h hc = ground (arith, skip_digits-append s c rest h.1 hc)

skip_spaces-word : (c : ℕ) (s : Bytes) → IsWordByte c → skip_spaces (c ∷ s) ≡ c ∷ s
unfolding skip_spaces
skip_spaces-word c s h = ground arith

token-words : (s : Bytes) → All IsWordByte s → token s ≡ s
unfolding token
token-words [] h = refl
token-words (c ∷ s) h = rw (h.0, token) (ap (λ t. c ∷ t) (token-words s h.1))

digit-IsWordByte : (c : ℕ) → IsDigit c → IsWordByte c
unfolding is_space is_blank
digit-IsWordByte c h = ground arith

digits-words : (s : Bytes) → All IsDigit s → All IsWordByte s
digits-words [] h = tt
digits-words (c ∷ s) h = (digit-IsWordByte c h.0, digits-words s h.1)

after_sign-digits :
    (d : ℕ) (s rest : Bytes)
    → All IsDigit (d ∷ s)
    → after_sign (d ∷ (s ++ b' ' ∷ rest)) ≡ some (b' ' ∷ rest)
unfolding after_sign after_digits is_digit
after_sign-digits d s rest h = ground (arith, skip_digits-append s b' ' rest h.1 (omega arith))

skip_space-word : (c : ℕ) (s : Bytes) → IsWordByte c → skip_spaces (b' ' ∷ c ∷ s) ≡ c ∷ s
unfolding skip_spaces is_space is_blank
skip_space-word c s h = skip_spaces-word c s h

scan_addr_lem :
    (d : ℕ) (s : Bytes) (c : ℕ) (name : Bytes)
    → All IsDigit (d ∷ s)
    → All IsWordByte (c ∷ name)
    → scan_addr (d ∷ (s ++ b' ' ∷ c ∷ name)) ≡ c ∷ name
unfolding scan_addr
scan_addr_lem d s c name hd hw =
    rw
      (
        skip_spaces-word d (s ++ b' ' ∷ c ∷ name) (digit-IsWordByte d hd.0),
        after_sign-digits d s (c ∷ name) hd,
        scan_addr,
      )
      (rw (skip_space-word c name hw.0) (token-words (c ∷ name) hw))

scan_int_lem :
    (d : ℕ) (s rest : Bytes)
    → All IsDigit (d ∷ s)
    → scan_int (d ∷ (s ++ b' ' ∷ rest)) ≡ pos (scan_digits 0 (d ∷ s))
scan_int_lem d s rest h =
    scan_int-digit d (s ++ b' ' ∷ rest) h.0
    ∙ ap pos (scan_digits-append 0 (d ∷ s) b' ' rest h (omega arith))

prefix_long : (word s : Bytes) → ltb (length (word ++ s)) (length word) ≡ false
prefix_long word s = ground (arith, length-append word s)

scan_from :
    (n : ℕ) (str tail : Bytes)
    → drop n str ≡ tail
    → ltb (length str) n ≡ false
    → scan_redirect n str ≡ fit (scan_int tail) (scan_addr tail)
unfolding scan_redirect
scan_from n str tail hd hl = rw (hd, hl, scan_redirect) refl

fits : (slot : ℤ) (addr : Bytes) → length addr < addr_size → fit slot addr ≡ some (slot, addr)
unfolding fit
fits slot addr short = ground arith

spills : (slot : ℤ) (addr : Bytes) → addr_size ≤ length addr → fit slot addr ≡ none
unfolding fit
spills slot addr long = ground arith

not_short : (name : Bytes) → addr_size ≤ length name → name ≢ []
not_short name long e = omega (arith, long, ap length e)

-- The slot and a name that is one word, from the text behind the word that the redirection starts with.
scan_redirect-fit :
    (word digits name : Bytes)
    → digits ≢ []
    → name ≢ []
    → All IsDigit digits
    → All IsWordByte name
    → scan_redirect (length word) (word ++ (digits ++ b' ' ∷ name))
      ≡ fit (pos (scan_digits 0 digits)) name
scan_redirect-fit word [] name hd hn digits words = absurd (hd refl)
scan_redirect-fit word (d ∷ s) [] hd hn digits words = absurd (hn refl)
scan_redirect-fit word (d ∷ s) (c ∷ name) hd hn digits words =
    let tail = d ∷ (s ++ b' ' ∷ c ∷ name) in
    scan_from (length word) (word ++ tail) tail (drop-length_append word tail)
      (prefix_long word tail)
    ∙ ap (λ a. fit (scan_int tail) a) (scan_addr_lem d s c name digits words)
    ∙ ap (λ v. fit v (c ∷ name)) (scan_int_lem d s (c ∷ name) digits)

-- An address that does not fit into the buffer is written behind it: behind a word and its space, digits, a
-- space, and 260 bytes or more without a space or a NUL are a fault of the scan.
pub scan_redirect-overflow :
    (word digits name : Bytes)
    → digits ≢ []
    → All IsDigit digits
    → All IsWordByte name
    → addr_size ≤ length name
    → scan_redirect (length word) (word ++ (digits ++ b' ' ∷ name)) ≡ none
scan_redirect-overflow word digits name hd digit words long =
    scan_redirect-fit word digits name hd (not_short name long) digit words
    ∙ spills (pos (scan_digits 0 digits)) name long

make_name-words :
    (ip text : Bytes) → All IsWordByte ip → All IsDigit text → All IsWordByte (ip ++ b':' ∷ text)
unfolding is_space is_blank
make_name-words ip text hi ht =
    All-append IsWordByte ip (b':' ∷ text) hi (refl, digits-words text ht)

not_empty : (ip text : Bytes) → ip ++ b':' ∷ text ≢ []
not_empty [] text h = cc
not_empty (c ∷ ip) text h = cc

same_name : {x y : Bytes} → some x ≡ some y → x ≡ y
same_name e = cc

-- What a server sends is read back: behind a word with its space, such as "MOVED ", stand the digits of
-- a slot, a space, and the name that `make_name` gives to a host and a port. For a port of 16 bits, a
-- host of less than 250 bytes without space, colon and NUL, the scan does not leave the
-- text or the buffer, and gives the slot and the name, and `pick_name` of it gives the host and the
-- port.
pub scan_redirect-make_name :
    (word digits ip : Bytes) (port : ℕ)
    → digits ≢ []
    → All IsDigit digits
    → port < 2 ^ 16
    → IsHost ip
    → All IsWordByte ip
    → length ip < 250
    → (name : Bytes) × (make_name ip port ≡ some name)
      × (scan_redirect (length word) (word ++ (digits ++ b' ' ∷ name))
          ≡ some (pos (scan_digits 0 digits), name))
      × (pick_name name ≡ some (ip, port))
unfolding make_name
scan_redirect-make_name word digits ip port hd all h host words short =
    let (text, e, p) = port_text-total port h in
    let name = ip ++ b':' ∷ text in
    let (read, e₁, picked) = pick_name-make_name ip port h host in
    let made : make_name ip port ≡ some name = rw (e, make_name) refl in
    let same : read ≡ name = same_name (sym e₁ ∙ made) in
    (
      name,
      made,
      scan_redirect-fit word digits name hd (not_empty ip text) all
            (make_name-words ip text words p.digits)
          ∙ fits (pos (scan_digits 0 digits)) name
              (ground (arith, length-append ip (b':' ∷ text), port_text-length port text e)),
      subst (λ n. pick_name n ≡ some (ip, port)) same picked,
    )
