-- ===== src/Slots/Endpoint.antt =====
-- pick_cluster_endpoint_from_reply: the endpoints that it accepts.
use hiredis_happ.Common.{
  ℕ, ◌<◌, ◌≡◌, refl, sym, ap, ◌∙◌, arith, ltb, true, Bool-cases, Option-cases, inl, inr, [], ◌∷◌,
  Bytes, Option, none, some, ℤ, pos, negsuc,
}
use hiredis_happ.Memory.{
  Reply, reply, reply_string, reply_array, reply_integer, reply_nil, reply_status, reply_error,
  reply_other, Replies,
}
use hiredis_happ.Slots.{
  Peer, is_named, text_of, endpoint_text, peer_text, or_peer, port_of, with_port, pick_endpoint,
}

-- A text that is empty, or names a host.
abbrev IsNamedOrEmpty : Bytes → Type 0
IsNamedOrEmpty [] = Unit {0}
IsNamedOrEmpty (c ∷ s) = is_named (some (c ∷ s)) ≡ true

named_or_empty : (o : Option Bytes) → is_named o ≡ true → IsNamedOrEmpty (text_of o)
unfolding is_named text_of
named_or_empty none h = tt
named_or_empty (some []) h = tt
named_or_empty (some (c ∷ s)) h = h

peer_text-IsNamedOrEmpty : (peer : Option Peer) → IsNamedOrEmpty (peer_text peer)
unfolding peer_text
peer_text-IsNamedOrEmpty none = tt
peer_text-IsNamedOrEmpty (some p) = elim (Bool-cases p.is_tcp) [
  | inr other ↦ simp other tt
  | inl tcp ↦ simp tcp (elim (Bool-cases (is_named p.host)) [
    | inl h ↦ simp h (named_or_empty p.host h)
    | inr h ↦ simp h (elim (Bool-cases (is_named p.source_addr)) [
      | inl s ↦ simp s (named_or_empty p.source_addr s)
      | inr s ↦ simp s tt
    ])
  ])
]

or_peer-IsNamedOrEmpty :
    (peer : Option Peer) (text : Bytes) → IsNamedOrEmpty text → IsNamedOrEmpty (or_peer peer text)
unfolding or_peer
or_peer-IsNamedOrEmpty peer [] h = peer_text-IsNamedOrEmpty peer
or_peer-IsNamedOrEmpty peer (c ∷ s) h = h

endpoint_text-IsNamedOrEmpty :
    (endpoint : Reply) (text : Bytes) → endpoint_text endpoint ≡ some text → IsNamedOrEmpty text
unfolding endpoint_text is_named
endpoint_text-IsNamedOrEmpty endpoint [] h = tt
endpoint_text-IsNamedOrEmpty (reply reply_string i none e) (c ∷ s) h = cc
endpoint_text-IsNamedOrEmpty (reply reply_string i (some []) e) (c ∷ s) h = cc
endpoint_text-IsNamedOrEmpty (reply reply_string i (some (d ∷ t)) e) (c ∷ s) h = ground arith
endpoint_text-IsNamedOrEmpty (reply reply_nil i t e) (c ∷ s) h = cc
endpoint_text-IsNamedOrEmpty (reply reply_array i t e) (c ∷ s) h = cc
endpoint_text-IsNamedOrEmpty (reply reply_integer i t e) (c ∷ s) h = cc
endpoint_text-IsNamedOrEmpty (reply reply_status i t e) (c ∷ s) h = cc
endpoint_text-IsNamedOrEmpty (reply reply_error i t e) (c ∷ s) h = cc
endpoint_text-IsNamedOrEmpty (reply reply_other i t e) (c ∷ s) h = cc

with_port_lem :
    (text : Bytes) (i : ℤ) (ip : Bytes) (port : ℕ)
    → IsNamedOrEmpty text
    → with_port text i ≡ some (ip, port)
    → (is_named (some ip) ≡ true) × (port < 65536) × (i ≡ pos port)
unfolding with_port port_of
with_port_lem [] i ip port named h = cc
with_port_lem (c ∷ s) (negsuc n) ip port named h = cc
with_port_lem (c ∷ s) (pos n) ip port named h = elim (Bool-cases (ltb 65535 n)) [
  | inl big ↦ ground arith
  | inr small ↦ (ground arith, ground arith, ground arith)
]

-- An endpoint that pick_cluster_endpoint_from_reply accepts has a host that is not empty and does
-- not start with a question mark, and a port of 16 bits, which is the integer of the port's reply.
pub pick_endpoint_lem :
    (peer : Option Peer) (endpoint port_reply : Option Reply) (ip : Bytes) (port : ℕ)
    → pick_endpoint peer endpoint port_reply ≡ some (ip, port)
    → (is_named (some ip) ≡ true)
      × (port < 65536)
      × (s : Option Bytes) × (e : Replies) × (port_reply
          ≡ some (reply reply_integer (pos port) s e))
unfolding pick_endpoint
pick_endpoint_lem peer none port_reply ip port h = cc
pick_endpoint_lem peer (some endpoint) none ip port h = cc
pick_endpoint_lem peer (some endpoint) (some (reply reply_string i s e)) ip port h = cc
pick_endpoint_lem peer (some endpoint) (some (reply reply_array i s e)) ip port h = cc
pick_endpoint_lem peer (some endpoint) (some (reply reply_nil i s e)) ip port h = cc
pick_endpoint_lem peer (some endpoint) (some (reply reply_status i s e)) ip port h = cc
pick_endpoint_lem peer (some endpoint) (some (reply reply_error i s e)) ip port h = cc
pick_endpoint_lem peer (some endpoint) (some (reply reply_other i s e)) ip port h = cc
pick_endpoint_lem peer (some endpoint) (some (reply reply_integer i s e)) ip port h =
    elim (Option-cases (endpoint_text endpoint)) [
      | inl bad ↦ absurd (ground (arith, bad))
      | inr (text, good) ↦
          let found : with_port (or_peer peer text) i ≡ some (ip, port) =
            sym (rw (good, pick_endpoint) refl) ∙ h in
          let (named, small, is) =
            with_port_lem (or_peer peer text) i ip port
              (or_peer-IsNamedOrEmpty peer text (endpoint_text-IsNamedOrEmpty endpoint text good))
              found in
          (named, small, s, e, ap (λ j. some (reply reply_integer j s e)) is)
    ]
