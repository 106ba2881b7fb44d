-- ===== src/Ipc/Frames/RoundTrip.antt =====
-- What `writeFrame` sends, `readFrame` receives.
use mathlib.Core.List.{append_assoc, append-nil}
use gtkaskpass_yubikey.Base.{
  ℕ, zero, suc, ◌+◌, ◌*◌, ◌/◌, ◌%◌, ◌^◌, ◌≡◌, ◌≤◌, refl, sym, ap, ◌∙◌, false, not, ◌||◌, Option,
  none, some, List, [], ◌∷◌, ◌++◌, Bytes, length, length-append, take, drop, All, ltb, ◌==◌, arith,
}
use gtkaskpass_yubikey.Ipc.Frames.{
  max_frame, FrameError, big_endian, Read, failed, received, unmarshalled, read_body, read_frame,
  write_frame,
}

-- A connection that takes all that is written.
abbrev pub takes_all : Bytes → Bytes → Bytes × ℕ × Option FrameError
takes_all b sent = (sent ++ b, length b, none)

module _ {ℓ} {A : Type ℓ} where
  take-append : (xs ys : List A) → take (length xs) (xs ++ ys) ≡ xs
  take-append [] ys = refl
  take-append (x ∷ xs) ys = ap (λ zs. x ∷ zs) (take-append xs ys)

  drop-append : (xs ys : List A) → drop (length xs) (xs ++ ys) ≡ ys
  drop-append [] ys = refl
  drop-append (x ∷ xs) ys = drop-append xs ys

-- The frame of a text.
abbrev pub frame : Bytes → Bytes
frame b = big_endian (length b) ++ b

-- A text that fits in a frame is not empty and of at most 16 KiB.
abbrev pub Fits : Bytes → Type 0
Fits b = (1 ≤ length b) × (length b ≤ max_frame)

-- The four bytes read back.
read_back :
    (n : ℕ)
    → n ≤ max_frame
    → ((n / 2 ^ 24 % 256 * 256 + n / 2 ^ 16 % 256) * 256 + n / 2 ^ 8 % 256) * 256 + n % 256 ≡ n
read_back n h = omega (arith, h)

body :
    {A : Type 0} (unmarshal : Bytes → Option A) (b rest : Bytes)
    → read_body unmarshal (length b) (b ++ rest) ≡ unmarshalled (unmarshal b) rest
unfolding read_body
body unmarshal b rest =
    let enough : ltb (length (b ++ rest)) (length b) ≡ false =
      ground (arith, length-append b rest) in
    rw (read_body, enough, take-append b rest, drop-append b rest) refl

read-frame :
    {A : Type 0} (unmarshal : Bytes → Option A) (b rest : Bytes)
    → Fits b
    → read_frame unmarshal (frame b ++ rest) ≡ unmarshalled (unmarshal b) rest
unfolding read_frame
read-frame unmarshal b rest h =
    let sized : (length b == 0 || ltb max_frame (length b)) ≡ false = ground (arith, h.0, h.1) in
    rw (read_back (length b) h.1, sized) (body unmarshal b rest)

write-frame :
    {A : Type 0} (marshal : A → Option Bytes) (v : A) (b sent : Bytes)
    → marshal v ≡ some b
    → length b ≤ max_frame
    → write_frame takes_all marshal v sent ≡ (sent ++ frame b, none)
unfolding write_frame
write-frame marshal v b sent e h =
    let fits : ltb max_frame (length b) ≡ false = ground (arith, h) in
    let whole : not (length b == length b) ≡ false = ground arith in
    rw (write_frame, e, fits, whole)
      (ap (λ s. (s, none)) (append_assoc sent (big_endian (length b)) b))

module _ {A : Type 0} (marshal : A → Option Bytes) (unmarshal : Bytes → Option A) where
  -- What the connection holds once the messages have been written, one after another.
  abbrev pub send_all : List A → Bytes → Bytes
  send_all [] sent = sent
  send_all (v ∷ vs) sent = send_all vs (write_frame takes_all marshal v sent).0

  abbrev then_receive : A → Option (List A) → Option (List A)
  then_receive v none = none
  then_receive v (some vs) = some (v ∷ vs)

  -- As many messages as the number says, if the stream has so many.
  abbrev pub receive_all : ℕ → Bytes → Option (List A)
  receive_all zero stream = some []
  receive_all (suc n) stream = elim (read_frame unmarshal stream) [
    | failed e ↦ none
    | received v rest ↦ then_receive v (receive_all n rest)
  ]

  abbrev next_received : ℕ → Read A → Option (List A)
  next_received n (failed e) = none
  next_received n (received v rest) = then_receive v (receive_all n rest)

  -- The message has a text that fits in a frame, from which the unmarshaller gets it back.
  abbrev pub IsFramed : A → Type 0
  IsFramed v = (b : Bytes) × (marshal v ≡ some b) × (unmarshal b ≡ some v) × Fits b

  sent-received :
      (vs : List A) (sent : Bytes)
      → All IsFramed vs
      → (stream : Bytes) × (send_all vs sent ≡ sent ++ stream)
        × (receive_all (length vs) stream ≡ some vs)
  sent-received [] sent h = ([], sym (append-nil sent), refl)
  sent-received (v ∷ vs) sent h =
      let (b, made, back, fits) = h.0 in
      let (stream, sends, receives) = sent-received vs (sent ++ frame b) h.1 in
      let wrote : (write_frame takes_all marshal v sent).0 ≡ sent ++ frame b =
        ap (λ (r : Bytes × Option FrameError). r.0) (write-frame marshal v b sent made fits.1) in
      let reads : read_frame unmarshal (frame b ++ stream) ≡ received v stream =
        read-frame unmarshal b stream fits ∙ ap (λ o. unmarshalled o stream) back in
      (
        frame b ++ stream,
        ap (λ w. send_all vs w) wrote ∙ sends ∙ append_assoc sent (frame b) stream,
        ap (next_received (length vs)) reads ∙ ap (then_receive v) receives,
      )

  -- Messages that are written one after another on a connection that takes all that is written are
  -- received in the same order, each as it was, if the text of each fits in a frame and is
  -- unmarshalled to the message.
  pub receive-send :
      (vs : List A) → All IsFramed vs → receive_all (length vs) (send_all vs []) ≡ some vs
  receive-send vs h =
      let (stream, sends, receives) = sent-received vs [] h in
      ap (receive_all (length vs)) sends ∙ receives
