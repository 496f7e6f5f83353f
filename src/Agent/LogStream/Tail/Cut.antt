-- ===== src/Agent/LogStream/Tail/Cut.antt =====
-- The chunks that the lines of one read are cut into.
use breakerbox.Prelude.{
  ℕ, zero, suc, ◌≤◌, List, [], ◌∷◌, ◌++◌, ◌≡◌, refl, ap, ◌∙◌, arith, ltb, length, take, drop,
  take-append-drop, length-drop, All, if_rule,
}
use mathlib.Core.List.{append-nil}
use breakerbox.Agent.Docker.Follow.Frames.{delivered}
use breakerbox.Agent.LogStream.Tail.{cut_lines, first_chunk, max_chunk_lines}

-- At most maxChunkLines lines.
abbrev pub SmallChunk : List (List ℕ) → Type 0
SmallChunk lines = length lines ≤ max_chunk_lines

drop_all : (xs : List (List ℕ)) → drop (length xs) xs ≡ []
drop_all [] = refl
drop_all (x ∷ xs) = drop_all xs

length-take : (n : ℕ) (xs : List (List ℕ)) → n ≤ length xs → length (take n xs) ≡ n
length-take zero xs h = omega arith
length-take (suc n) [] h = omega (arith, h)
length-take (suc n) (x ∷ xs) h = omega (arith, length-take n xs (omega (arith, h)))

-- A chunk of a list of lines, as the loop takes it.
record Taken (lines chunk : List (List ℕ)) : Type 0 where
  whole : chunk ++ drop (length chunk) lines ≡ lines
  small : SmallChunk chunk
  some_line : 1 ≤ length lines → 1 ≤ length chunk

first_chunk-Taken : (lines : List (List ℕ)) → Taken lines (first_chunk lines)
unfolding first_chunk
first_chunk-Taken lines =
    if_rule (Taken lines) (ltb max_chunk_lines (length lines)) {x = take max_chunk_lines lines}
      (λ long.
        let n : length (take max_chunk_lines lines) ≡ max_chunk_lines =
          length-take max_chunk_lines lines (ground arith) in
        record {
          whole =
              ap (λ k. take max_chunk_lines lines ++ drop k lines) n
              ∙ take-append-drop max_chunk_lines lines;
          small = omega (arith, n);
          some_line = λ h. omega (arith, n);
        })
      (λ short. record {
        whole = ap (λ l. lines ++ l) (drop_all lines) ∙ append-nil lines;
        small = ground arith;
        some_line = λ h. h;
      })

pub cut_lines-SmallChunk :
    (fuel : ℕ) (lines : List (List ℕ)) → All SmallChunk (cut_lines fuel lines)
unfolding cut_lines
cut_lines-SmallChunk zero lines = tt
cut_lines-SmallChunk (suc fuel) [] = tt
cut_lines-SmallChunk (suc fuel) (l ∷ lines) =
    let chunk = first_chunk (l ∷ lines) in
    (
      (first_chunk-Taken (l ∷ lines)).small,
      cut_lines-SmallChunk fuel (drop (length chunk) (l ∷ lines)),
    )

-- Fuel for every line is enough: all lines are emitted, in order.
pub delivered-cut_lines :
    (fuel : ℕ) (lines : List (List ℕ))
    → length lines ≤ fuel
    → delivered (cut_lines fuel lines) ≡ lines
unfolding cut_lines delivered
delivered-cut_lines zero [] enough = refl
delivered-cut_lines zero (l ∷ lines) enough = absurd (omega (arith, enough))
delivered-cut_lines (suc fuel) [] enough = refl
delivered-cut_lines (suc fuel) (l ∷ lines) enough =
    let chunk = first_chunk (l ∷ lines) in
    let taken = first_chunk-Taken (l ∷ lines) in
    let rest = length-drop (length chunk) (l ∷ lines) in
    ap (λ later. chunk ++ later)
      (delivered-cut_lines fuel (drop (length chunk) (l ∷ lines))
        (omega (arith, rest, enough, taken.some_line (omega arith))))
    ∙ taken.whole
