-- ===== src/Agent/Framing/Roundtrip.antt =====
-- What agent/internal/framing/framing.go writes, it reads.
use yaghan.Base.{
  ℕ, suc, ◌≤◌, ◌≡◌, refl, sym, ap, ◌∙◌, true, false, List, [], ◌∷◌, ◌++◌, none, some, ltb, length,
  arith, Bool-cases, Option-cases, inl, inr, length-append, take-append, drop-append,
}
use mathlib.Core.List.{append-nil, append_assoc}
use yaghan.Net.Addr.{big_endian}
use yaghan.Agent.Framing.{
  max_message_size, FrameError, end_of_file, message, Codec, Writer, length_prefix, write, decoded,
  read_body, read, marshal_failed, message_too_large, read_loop, write_all,
}

-- A writer that keeps all its bytes.
abbrev pub buffer : Writer
buffer = record { Stream = List ℕ; put_bytes = λ bytes s. (s ++ bytes, true) }

big_endian-length_prefix : (n : ℕ) → n ≤ max_message_size → big_endian 0 (length_prefix n) ≡ n
unfolding big_endian length_prefix
big_endian-length_prefix n h = omega (arith, h)

module _ {M : Type 0} (codec : Codec M) where
  open codec use {marshal, unmarshal, unmarshal-marshal}

  decoded-message :
      (m : M) (body left : List ℕ)
      → unmarshal body ≡ some m
      → decoded codec body left ≡ (left, message m)
  unfolding decoded
  decoded-message m body left e = rw (decoded, e) refl

  read_body-append :
      (m : M) (bytes rest : List ℕ)
      → marshal m ≡ some bytes
      → read_body codec (length bytes) (bytes ++ rest) ≡ (rest, message m)
  unfolding read_body
  read_body-append m bytes rest e =
      let fits : ltb (length (bytes ++ rest)) (length bytes) ≡ false =
        ground (arith, length-append bytes rest) in
      rw (fits, take-append bytes rest, drop-append bytes rest)
        (decoded-message m bytes rest (unmarshal-marshal m bytes e))

  read-frame :
      (m : M) (bytes rest : List ℕ)
      → marshal m ≡ some bytes
      → length bytes ≤ max_message_size
      → read codec (length_prefix (length bytes) ++ (bytes ++ rest)) ≡ (rest, message m)
  unfolding read length_prefix
  read-frame m bytes rest e fits =
      let size : big_endian 0 (length_prefix (length bytes)) ≡ length bytes =
        big_endian-length_prefix (length bytes) fits in
      let small : ltb max_message_size (length bytes) ≡ false = ground arith in
      let long : ltb (length (length_prefix (length bytes) ++ (bytes ++ rest))) 4 ≡ false =
        ground arith in
      rw (long, size, small) (read_body-append m bytes rest e)

  not_marshalled :
      (m : M) (s : List ℕ) → marshal m ≡ none → (write codec buffer m s).1 ≡ some marshal_failed
  unfolding write
  not_marshalled m s e = rw (write, e) refl

  too_large :
      (m : M) (s bytes : List ℕ)
      → marshal m ≡ some bytes
      → ltb max_message_size (length bytes) ≡ true
      → (write codec buffer m s).1 ≡ some message_too_large
  unfolding write
  too_large m s bytes e big = rw (write, e, big) refl

  -- What a successful Write appends.
  written :
      (m : M) (s : List ℕ)
      → (write codec buffer m s).1 ≡ none
      → (bytes : List ℕ) × (marshal m ≡ some bytes)
        × (length bytes ≤ max_message_size)
        × ((write codec buffer m s).0 ≡ (s ++ length_prefix (length bytes)) ++ bytes)
  unfolding write
  written m s done = elim (Option-cases (marshal m)) [
    | inl e ↦ cc (done, not_marshalled m s e)
    | inr (bytes, e) ↦ elim (Bool-cases (ltb max_message_size (length bytes))) [
      | inl big ↦ cc (done, too_large m s bytes e big)
      | inr fits ↦ (bytes, e, ground arith, rw (write, e, fits) refl)
    ]
  ]

  write_all-lost :
      (m : M) (more : List M) (s : List ℕ) (x : FrameError)
      → (write codec buffer m s).1 ≡ some x
      → (write_all codec buffer (m ∷ more) s).1 ≡ some x
  unfolding write_all
  write_all-lost m more s x e = rw (write_all, e) refl

  write_all-first :
      (m : M) (more : List M) (s : List ℕ)
      → (write_all codec buffer (m ∷ more) s).1 ≡ none
      → ((write codec buffer m s).1 ≡ none)
        × (write_all codec buffer (m ∷ more) s
            ≡ write_all codec buffer more (write codec buffer m s).0)
  unfolding write_all
  write_all-first m more s done = elim (Option-cases (write codec buffer m s).1) [
    | inl e ↦ (e, rw (write_all, e) refl)
    | inr (x, e) ↦ cc (done, write_all-lost m more s x e)
  ]

  read_loop-message :
      (fuel : ℕ) (bytes left : List ℕ) (m : M)
      → read codec bytes ≡ (left, message m)
      → read_loop codec (suc fuel) bytes
        ≡ (m ∷ (read_loop codec fuel left).0, (read_loop codec fuel left).1)
  unfolding read_loop
  read_loop-message fuel bytes left m e = rw (read_loop, ap (λ r. r.1) e, ap (λ r. r.0) e) refl

  regroup : (a b c d : List ℕ) → ((a ++ b) ++ c) ++ d ≡ a ++ (b ++ (c ++ d))
  regroup a b c d = append_assoc (a ++ b) c d ∙ append_assoc a b (c ++ d)

  -- Reading the bytes that a list of messages was written to.
  read_loop-written :
      (msgs : List M) (before : List ℕ)
      → (write_all codec buffer msgs before).1 ≡ none
      → (sent : List ℕ) × ((write_all codec buffer msgs before).0 ≡ before ++ sent)
        × (read_loop codec (suc (length msgs)) sent ≡ (msgs, some end_of_file))
  unfolding read_loop read write_all
  read_loop-written [] before done = ([], sym (append-nil before), refl)
  read_loop-written (m ∷ more) before done =
      let (first, same) = write_all-first m more before done in
      let (bytes, e, fits, put) = written m before first in
      let (sent, rest, back) =
        read_loop-written more (write codec buffer m before).0 (ap (λ r. r.1) (sym same) ∙ done) in
      (
        length_prefix (length bytes) ++ (bytes ++ sent),
        ap (λ r. r.0) same
            ∙ rest
            ∙ ap (λ s. s ++ sent) put
            ∙ regroup before (length_prefix (length bytes)) bytes sent,
        read_loop-message (suc (length more)) (length_prefix (length bytes) ++ (bytes ++ sent)) sent
              m (read-frame m bytes sent e fits)
            ∙ ap (λ r. (m ∷ r.0, r.1)) back,
      )

  -- Messages that Write put on a stream one after the other, each without an error, are what a reader
  -- of that stream gets, in this order, and then the end of the stream.
  pub read_loop-write_all :
      (msgs : List M)
      → (write_all codec buffer msgs []).1 ≡ none
      → read_loop codec (suc (length msgs)) (write_all codec buffer msgs []).0
        ≡ (msgs, some end_of_file)
  read_loop-write_all msgs done =
      let (sent, put, back) = read_loop-written msgs [] done in
      ap (read_loop codec (suc (length msgs))) put ∙ back
