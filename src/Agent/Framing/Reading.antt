-- ===== src/Agent/Framing/Reading.antt =====
-- The reader of agent/internal/framing/framing.go on any bytes.
use yaghan.Base.{
  ℕ, zero, suc, ◌≤◌, ◌<◌, ◌≡◌, ◌≢◌, ◌⊎◌, refl, sym, ◌∙◌, List, [], ◌∷◌, none, some, ltb, length,
  take, drop, arith, Bool-cases, Option-cases, inl, inr,
}
use yaghan.Net.Addr.{big_endian}
use yaghan.Agent.Framing.{
  max_message_size, FrameError, end_of_file, ReadResult, message, failure, Codec, decoded,
  read_body, read, read_loop,
}

length-drop : (n : ℕ) (bytes : List ℕ) → length (drop n bytes) ≤ length bytes
length-drop zero bytes = omega arith
length-drop (suc n) [] = omega arith
length-drop (suc n) (b ∷ bytes) = omega (arith, length-drop n bytes)

module _ {M : Type 0} (codec : Codec M) where
  open codec use {unmarshal}

  decoded-left : (body left : List ℕ) → (decoded codec body left).0 ≡ left
  unfolding decoded
  decoded-left body left = elim (Option-cases (unmarshal body)) [
    | inl e ↦ rw (decoded, e) refl
    | inr (m, e) ↦ rw (decoded, e) refl
  ]

  read_body-shrinks :
      (size : ℕ) (bytes : List ℕ) → length (read_body codec size bytes).0 ≤ length bytes
  unfolding read_body
  read_body-shrinks size bytes = elim (Bool-cases (ltb (length bytes) size)) [
    | inl e ↦ rw e (omega arith)
    | inr e ↦ rw (e, decoded-left (take size bytes) (drop size bytes)) (length-drop size bytes)
  ]

  -- A read takes at least four bytes, or fails at the end of the stream.
  read-shrinks :
      (bytes : List ℕ)
      → ((read codec bytes).1 ≡ failure end_of_file) ⊎ (length (read codec bytes).0 < length bytes)
  unfolding read
  read-shrinks [] = inl refl
  read-shrinks (b ∷ bytes) = elim (Bool-cases (ltb (length (b ∷ bytes)) 4)) [
    | inl short ↦ inr (rw short (omega arith))
    | inr long ↦ elim (Bool-cases (ltb max_message_size (big_endian 0 (take 4 (b ∷ bytes))))) [
      | inl big ↦ inr (rw (long, big) (omega (arith, length-drop 3 bytes)))
      | inr fits ↦ inr (
          rw (long, fits)
            (omega (
              arith,
              length-drop 3 bytes,
              read_body-shrinks (big_endian 0 (b ∷ take 3 bytes)) (drop 3 bytes),
            )))
    ]
  ]

  read_loop-failed :
      (fuel : ℕ) (bytes : List ℕ) (e : FrameError)
      → (read codec bytes).1 ≡ failure e
      → (read_loop codec (suc fuel) bytes).1 ≡ some e
  unfolding read_loop
  read_loop-failed fuel bytes e h = rw (read_loop, h) refl

  read_loop-goes_on :
      (fuel : ℕ) (bytes : List ℕ) (m : M)
      → (read codec bytes).1 ≡ message m
      → (read_loop codec (suc fuel) bytes).1 ≡ (read_loop codec fuel (read codec bytes).0).1
  unfolding read_loop
  read_loop-goes_on fuel bytes m h = rw (read_loop, h) refl

  result-cases :
      (r : ReadResult M) → ((e : FrameError) × (r ≡ failure e)) ⊎ ((m : M) × (r ≡ message m))
  result-cases (failure e) = inl (e, refl)
  result-cases (message m) = inr (m, refl)

  ends : (fuel : ℕ) (bytes : List ℕ) → length bytes < fuel → (read_loop codec fuel bytes).1 ≢ none
  ends zero bytes h = omega (arith, h)
  ends (suc fuel) bytes h = elim (result-cases (read codec bytes).1) [
    | inl (e, failed) ↦ λ q. cc (q, read_loop-failed fuel bytes e failed)
    | inr (m, got) ↦ elim (read-shrinks bytes) [
      | inl stopped ↦ λ q. cc (got, stopped)
      | inr less ↦ λ q.
          ends fuel (read codec bytes).0 (omega (arith, h, less))
            (sym (read_loop-goes_on fuel bytes m got) ∙ q)
    ]
  ]

  -- Whatever bytes a stream holds, a reader that reads messages until the first error comes to one: as
  -- many reads as the stream has bytes, and one more, are enough.
  pub read_loop-ends : (bytes : List ℕ) → (read_loop codec (suc (length bytes)) bytes).1 ≢ none
  read_loop-ends bytes = ends (suc (length bytes)) bytes (omega arith)
