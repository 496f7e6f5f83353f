-- ===== src/Agent/TokenProxy/Chunks.antt =====
-- The result of the event stream's parser does not depend on how the response is cut into chunks.
use breakerbox.Prelude.{
  ℕ, false, List, [], ◌∷◌, ◌++◌, ◌≡◌, refl, sym, ap, ◌∙◌, ◌==◌, Bool-cases, inl, inr,
}
use mathlib.Core.List.{append_assoc, append-nil}
use breakerbox.Agent.TokenProxy.Rows.{Provider}
use breakerbox.Agent.TokenProxy.Sse.{
  Json, Parser, Seen, consume_data, consume_lines, event_data, feed, new_parser, push_byte,
  split_lines,
}

-- More bytes after a text: its complete lines stay, and its rest is continued.
abbrev pub continued : List (List ℕ) × List ℕ → List ℕ → List (List ℕ) × List ℕ
continued (lines, rest) ys = (lines ++ (split_lines (rest ++ ys)).0, (split_lines (rest ++ ys)).1)

push_byte-continued :
    (c : ℕ) (p : List (List ℕ) × List ℕ) (ys : List ℕ)
    → (c == 10) ≡ false
    → push_byte c (continued p ys) ≡ continued (push_byte c p) ys
unfolding push_byte split_lines
push_byte-continued c ([], rest) ys other = rw other refl
push_byte-continued c (l ∷ ls, rest) ys other = refl

pub split_lines-append : (xs ys : List ℕ) → split_lines (xs ++ ys) ≡ continued (split_lines xs) ys
unfolding split_lines
split_lines-append [] ys = refl
split_lines-append (c ∷ xs) ys =
    let ih = split_lines-append xs ys in
    elim (Bool-cases (c == 10)) [
      | inl newline ↦ rw newline (ap (λ (p : List (List ℕ) × List ℕ). ([] ∷ p.0, p.1)) ih)
      | inr other ↦ rw other (ap (push_byte c) ih ∙ push_byte-continued c (split_lines xs) ys other)
    ]

unfoldable pub joined : List (List ℕ) → List ℕ
joined [] = []
joined (chunk ∷ chunks) = chunk ++ joined chunks

module _ (json : Json) (provider : Provider) where
  consume_lines-append :
      (xs ys : List (List ℕ)) (s : Seen)
      → consume_lines json provider (xs ++ ys) s
        ≡ consume_lines json provider ys (consume_lines json provider xs s)
  unfolding consume_lines
  consume_lines-append [] ys s = refl
  consume_lines-append (x ∷ xs) ys s =
      consume_lines-append xs ys (consume_data json provider s (event_data x))

  -- Two chunks that follow each other are fed as one.
  feed-append :
      (p : Parser) (b c : List ℕ)
      → feed json provider (feed json provider p b) c ≡ feed json provider p (b ++ c)
  unfolding feed
  feed-append p b c =
      let whole : split_lines (p.partial ++ (b ++ c)) ≡ continued (split_lines (p.partial ++ b)) c =
        ap split_lines (sym (append_assoc p.partial b c)) ∙ split_lines-append (p.partial ++ b) c in
      sym (
        ap
          (λ (q : List (List ℕ) × List ℕ). record {
            partial = q.1;
            seen = consume_lines json provider q.0 p.seen;
          })
          whole
        ∙ ap
            (λ s. record {
              partial = (split_lines ((split_lines (p.partial ++ b)).1 ++ c)).1;
              seen = s;
            })
            (consume_lines-append (split_lines (p.partial ++ b)).0
              (split_lines ((split_lines (p.partial ++ b)).1 ++ c)).0 p.seen))

  unfoldable pub feed_all : Parser → List (List ℕ) → Parser
  feed_all p [] = p
  feed_all p (chunk ∷ chunks) = feed_all (feed json provider p chunk) chunks

  feed_all-feed :
      (chunks : List (List ℕ)) (p : Parser) (b : List ℕ)
      → feed_all (feed json provider p b) chunks ≡ feed json provider p (b ++ joined chunks)
  unfolding feed_all joined
  feed_all-feed [] p b = ap (feed json provider p) (sym (append-nil b))
  feed_all-feed (chunk ∷ chunks) p b =
      ap (λ q. feed_all q chunks) (feed-append p b chunk)
      ∙ feed_all-feed chunks p (b ++ chunk)
      ∙ ap (feed json provider p) (append_assoc b chunk (joined chunks))

  -- However a response is cut into chunks, even inside a line or a character, the parser ends in the
  -- same state, and so yields the same usage row, as for the whole response in one chunk.
  pub feed_all-joined :
      (chunk : List ℕ) (chunks : List (List ℕ))
      → feed_all new_parser (chunk ∷ chunks)
        ≡ feed json provider new_parser (joined (chunk ∷ chunks))
  unfolding feed_all joined
  feed_all-joined chunk chunks = feed_all-feed chunks new_parser chunk
