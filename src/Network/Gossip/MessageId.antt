-- ===== src/Network/Gossip/MessageId.antt =====
-- What a message identifier depends on.
use mathlib.Core.List.{append_assoc, append_cancel_left}
use mathlib.Core.Path.{ap₂}
use gean.Base.{
  ℕ, ◌^◌, ◌<◌, ◌≡◌, ◌↔◌, refl, sym, ap, ◌∙◌, List, ◌++◌, Bool, true, false, Option, none, some,
  length, arith, slice, slice_first, le_bytes, le_value, length-le_bytes, le_value-le_bytes,
}
use gean.Network.{Snappy}
use gean.Network.Gossip.{
  message_preimage, domain_and_data, domain_valid_snappy, domain_invalid_snappy,
}

-- The content of a message: its data where it is decompressed, and itself where it is not.
unfoldable pub content : Option (List ℕ) → List ℕ → Bool × List ℕ
content none msg = (false, msg)
content (some decoded) msg = (true, decoded)

unfoldable pub domain : Bool → List ℕ
domain true = domain_valid_snappy
domain false = domain_invalid_snappy

unfoldable pub preimage_of : List ℕ → Bool × List ℕ → List ℕ
preimage_of topic (valid, body) = domain valid ++ (le_bytes 8 (length topic) ++ (topic ++ body))

-- Two joined lists whose first parts have one length.
split :
    (n : ℕ) (a b c d : List ℕ) → length a ≡ n → length b ≡ n → a ++ c ≡ b ++ d → (a ≡ b) × (c ≡ d)
split n a b c d ea eb e =
    let first : a ≡ b = sym (slice_first n a c ea) ∙ ap (slice 0 n) e ∙ slice_first n b d eb in
    (first, append_cancel_left b c d (rw first at e))

length-domain : (valid : Bool) → length (domain valid) ≡ 4
unfolding domain
length-domain true = omega arith
length-domain false = omega arith

valid_of-domain : (v w : Bool) → domain v ≡ domain w → v ≡ w
unfolding domain
valid_of-domain true true e = cc
valid_of-domain true false e = cc
valid_of-domain false true e = cc
valid_of-domain false false e = cc

preimage_of-inj :
    (topic topic' : List ℕ) (c c' : Bool × List ℕ)
    → length topic < 2 ^ 64
    → length topic' < 2 ^ 64
    → preimage_of topic c ≡ preimage_of topic' c'
    → (topic ≡ topic') × (c ≡ c')
unfolding preimage_of
preimage_of-inj topic topic' (v, body) (v', body') h h' e =
    let l = le_bytes 8 (length topic) in
    let l' = le_bytes 8 (length topic') in
    let (dom, e₁) = split 4 (domain v) (domain v') _ _ (length-domain v) (length-domain v') e in
    let (len, e₃) =
      split 8 l l' (topic ++ body) (topic' ++ body') (length-le_bytes 8 (length topic))
        (length-le_bytes 8 (length topic')) e₁ in
    let same : length topic' ≡ length topic =
      sym (le_value-le_bytes 8 (length topic') (omega arith))
      ∙ ap le_value (sym len)
      ∙ le_value-le_bytes 8 (length topic) (omega arith) in
    let (tops, bodies) = split (length topic) topic topic' body body' refl same e₃ in
    (tops, ap₂ (λ a b. (a, b)) (valid_of-domain v v' dom) bodies)

-- The bytes from a domain and data on.
preimage_lem :
    (o : Option (List ℕ)) (msg topic : List ℕ)
    → (let (domain, msg_data) = domain_and_data o msg in
        domain ++ le_bytes 8 (length topic) ++ topic ++ msg_data)
      ≡ preimage_of topic (content o msg)
unfolding preimage_of content domain domain_and_data
preimage_lem none msg topic = simp append_assoc
preimage_lem (some decoded) msg topic = simp append_assoc

-- The bytes that are hashed for two messages, of topics shorter than 2^64, are the same exactly if
-- the topics are and the contents are: both are data that was decompressed, or neither was.
pub message_preimage-inj :
    (y : Snappy) (topic topic' msg msg' : List ℕ)
    → length topic < 2 ^ 64
    → length topic' < 2 ^ 64
    → (message_preimage y topic msg ≡ message_preimage y topic' msg')
      ↔ ((topic ≡ topic') × (content (y.decode msg) msg ≡ content (y.decode msg') msg'))
unfolding message_preimage
message_preimage-inj y topic topic' msg msg' h h' =
    let e = preimage_lem (y.decode msg) msg topic in
    let e' = preimage_lem (y.decode msg') msg' topic' in
    (
      λ same. preimage_of-inj topic topic' _ _ h h' (sym e ∙ same ∙ e'),
      λ (t, same). e ∙ ap₂ preimage_of t same ∙ sym e',
    )
