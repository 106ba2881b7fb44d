-- ===== src/Ipc/Frames.antt =====
-- `readFrame` and `writeFrame` of internal/cacheipc/ipc.go: a big-endian length and a JSON text.
-- The messages are of any type, with its marshaller and unmarshaller.
pub mod RoundTrip
use gtkaskpass_yubikey.Base.{
  ℕ, zero, suc, ◌+◌, ◌*◌, ◌/◌, ◌%◌, ◌^◌, Bool, true, false, not, ◌&&◌, ◌||◌, Option, none, some,
  List, [], ◌∷◌, ◌++◌, Bytes, length, take, drop, ltb, leb, ◌==◌, is_some, if◌then◌else◌,
}

abbrev pub max_frame : ℕ
max_frame = 16 * 1024

pub data FrameError : Type 0 where
  eof invalid_size invalid_json not_marshalled too_large short_write io_error : FrameError

-- binary.BigEndian.PutUint32 of a uint32 conversion
abbrev pub big_endian : ℕ → Bytes
big_endian n = (n / 2 ^ 24 % 256) ∷ (n / 2 ^ 16 % 256) ∷ (n / 2 ^ 8 % 256) ∷ (n % 256) ∷ []

pub data Read {ℓ} (A : Type ℓ) : Type ℓ where
  failed : FrameError → Read A
  received : A → Bytes → Read A

module _ {ℓ} {A : Type ℓ} where
  abbrev unmarshalled : Option A → Bytes → Read A
  unmarshalled none rest = failed invalid_json
  unmarshalled (some v) rest = received v rest

  -- `io.ReadFull(r, b)`, and `json.Unmarshal`
  unfoldable pub read_body : (Bytes → Option A) → ℕ → Bytes → Read A
  read_body unmarshal n stream =
      if ltb (length stream) n
      then failed eof
      else unmarshalled (unmarshal (take n stream)) (drop n stream)

  -- `readFrame`, from what the connection still delivers.
  unfoldable pub read_frame : (Bytes → Option A) → Bytes → Read A
  read_frame unmarshal (a ∷ b ∷ c ∷ d ∷ stream) =
      let n = ((a * 256 + b) * 256 + c) * 256 + d in
      if n == 0 || ltb max_frame n then failed invalid_size else read_body unmarshal n stream
  read_frame unmarshal _ = failed eof

module _ {W : Type 0} (write : Bytes → W → W × ℕ × Option FrameError) where
  -- One of the two writes, with the error of a short one.
  abbrev write_all : Bytes → W → W × Option FrameError
  write_all b w =
      let (w', n, err) = write b w in
      (w', if is_some err then err else if not (n == length b) then some short_write else none)

  -- The two writes.
  abbrev write_parts : Bytes → Bytes → W → W × Option FrameError
  write_parts h b w =
      let (w', err) = write_all h w in if is_some err then (w', err) else write_all b w'

  -- `writeFrame`
  unfoldable pub write_frame {ℓ} : {A : Type ℓ} → (A → Option Bytes) → A → W → W × Option FrameError
  write_frame marshal v w = elim (marshal v) [
    | none ↦ (w, some not_marshalled)
    | some b ↦
        if ltb max_frame (length b)
        then (w, some too_large)
        else write_parts (big_endian (length b)) b w
  ]
