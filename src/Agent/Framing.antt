-- ===== src/Agent/Framing.antt =====
-- agent/internal/framing/framing.go: messages as frames on a byte stream. The messages and proto's
-- Marshal and Unmarshal are the interface Codec; a stream to read is its bytes up to the end, and a
-- stream to write takes bytes or fails.
pub mod Roundtrip
pub mod Reading
use yaghan.Base.{
  ℕ, zero, suc, ◌*◌, ◌/◌, ◌%◌, ◌^◌, ◌≡◌, Bool, true, false, List, [], ◌∷◌, Option, none, some,
  if◌then◌else◌, ltb, nat_beq, length, take, drop,
}
use yaghan.Net.Addr.{big_endian}

abbrev pub max_message_size : ℕ
max_message_size = 4 * 1024 * 1024

-- The errors of Write and Read. `no_body` and `end_of_file` are io.EOF, the first one wrapped.
pub data FrameError : Type 0 where
  marshal_failed message_too_large write_length_failed write_body_failed : FrameError
  end_of_file short_length no_body short_body unmarshal_failed : FrameError

pub data ReadResult (M : Type 0) : Type 0 where
  message : M → ReadResult M
  failure : FrameError → ReadResult M

pub record Codec (M : Type 0) : Type 0 where
  pub marshal : M → Option (List ℕ)
  pub unmarshal : List ℕ → Option M
  pub unmarshal-marshal :
      (m : M) (data_bytes : List ℕ) → marshal m ≡ some data_bytes → unmarshal data_bytes ≡ some m

-- A writer: whether it took the bytes, and what it is then.
pub record Writer : Type 1 where
  pub Stream : Type 0
  pub put_bytes : List ℕ → Stream → Stream × Bool

-- binary.Write of a uint32, big-endian.
unfoldable pub length_prefix : ℕ → List ℕ
length_prefix n = n / 2 ^ 24 % 256 ∷ n / 2 ^ 16 % 256 ∷ n / 2 ^ 8 % 256 ∷ n % 256 ∷ []

module _ {M : Type 0} (codec : Codec M) where
  open codec use {marshal, unmarshal}

  unfoldable pub write : (w : Writer) → M → w.Stream → w.Stream × Option FrameError
  write w msg s = elim (marshal msg) [
    | none ↦ (s, some marshal_failed)
    | some bytes ↦
        if ltb max_message_size (length bytes)
        then (s, some message_too_large)
        else (let first = w.put_bytes (length_prefix (length bytes)) s in
            let second = w.put_bytes bytes first.0 in
            if first.1
            then (second.0, (if second.1 then none else some write_body_failed))
            else (first.0, some write_length_failed))
  ]

  -- Unmarshal of a body, with the bytes that follow it.
  unfoldable pub decoded : List ℕ → List ℕ → List ℕ × ReadResult M
  decoded body left = elim (unmarshal body) [
    | none ↦ (left, failure unmarshal_failed)
    | some m ↦ (left, message m)
  ]

  -- io.ReadFull of the body and Unmarshal.
  unfoldable pub read_body : ℕ → List ℕ → List ℕ × ReadResult M
  read_body size bytes =
      if ltb (length bytes) size
      then ([], failure (if nat_beq (length bytes) 0 then no_body else short_body))
      else decoded (take size bytes) (drop size bytes)

  -- Read: the bytes that are left, and the message or the error.
  unfoldable pub read : List ℕ → List ℕ × ReadResult M
  read [] = ([], failure end_of_file)
  read (b ∷ bytes) =
      if ltb (length (b ∷ bytes)) 4
      then ([], failure short_length)
      else (let size = big_endian 0 (take 4 (b ∷ bytes)) in
          if ltb max_message_size size
          then (drop 4 (b ∷ bytes), failure message_too_large)
          else read_body size (drop 4 (b ∷ bytes)))

  -- The loop of a reader: messages until the first error; `none` where the fuel is spent.
  unfoldable pub read_loop : ℕ → List ℕ → List M × Option FrameError
  read_loop zero bytes = ([], none)
  read_loop (suc fuel) bytes =
      let r = read bytes in
      let rest = read_loop fuel r.0 in
      elim r.1 [ failure e ↦ ([], some e) | message m ↦ (m ∷ rest.0, rest.1) ]

  -- The messages of a list, written one after the other.
  unfoldable pub write_all : (w : Writer) → List M → w.Stream → w.Stream × Option FrameError
  write_all w [] s = (s, none)
  write_all w (msg ∷ more) s =
      let r = write w msg s in
      let rest = write_all w more r.0 in elim r.1 [ none ↦ rest | some e ↦ (r.0, some e) ]
