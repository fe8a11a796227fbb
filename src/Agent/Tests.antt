-- ===== src/Agent/Tests.antt =====
-- Messages that are bytes themselves.
use yaghan.Base.{ℕ, suc, ◌≡◌, ◌≢◌, refl, sym, List, [], ◌∷◌, none, some, length}
use yaghan.Agent.Framing.{Codec, end_of_file, write, write_all, read_loop, length_prefix}
use yaghan.Agent.Framing.Roundtrip.{buffer, read_loop-write_all}
use yaghan.Agent.Framing.Reading.{read_loop-ends}

abbrev plain : Codec (List ℕ)
plain = record {
  marshal = λ m. some m;
  unmarshal = λ bytes. some bytes;
  unmarshal-marshal = λ m bytes e. sym e;
}

abbrev letters : List (List ℕ)
letters = (1 ∷ 2 ∷ []) ∷ [] ∷ (3 ∷ []) ∷ []

letters_written : (write_all plain buffer letters []).1 ≡ none
unfolding write_all write length_prefix
letters_written = refl

read_loop-write_all_example :
    read_loop plain (suc (length letters)) (write_all plain buffer letters []).0
    ≡ (letters, some end_of_file)
read_loop-write_all_example = read_loop-write_all plain letters letters_written

read_loop-ends_example : (read_loop plain 4 (0 ∷ 0 ∷ 9 ∷ [])).1 ≢ none
read_loop-ends_example = read_loop-ends plain (0 ∷ 0 ∷ 9 ∷ [])
