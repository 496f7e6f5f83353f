-- ===== src/Agent/LogStream/Tail/Follows.antt =====
-- One tick of followFile on a file that only grows.
use breakerbox.Prelude.{
  ℕ, zero, suc, ◌+◌, ◌-◌, false, List, [], ◌∷◌, ◌++◌, Option, none, some, ◌≡◌, refl, sym, ap, ◌∙◌,
  arith, ltb, length, take, drop, length-append, empty_if_no_length, take-append-drop, All,
  All-append, if_rule, ◌==◌, subst,
}
use mathlib.Core.List.{append_assoc, append-nil}
use breakerbox.Agent.TokenProxy.Sse.{split_lines}
use breakerbox.Agent.TokenProxy.Chunks.{split_lines-append}
use breakerbox.Agent.Docker.Follow.Frames.{delivered, drop-append_left}
use breakerbox.Agent.LogStream.Tail.{
  LogTail, LogView, cut_lines, read_more, read_view, tail_restarted, tick_tail, tick_view,
}
use breakerbox.Agent.LogStream.Tail.Cut.{SmallChunk, cut_lines-SmallChunk, delivered-cut_lines}

unfoldable pub view_of : List ℕ → Option ℕ → Option LogView
view_of content none = none
view_of content (some n) = some (record { size = length content; bytes = some content; read = n })

-- The state of the loop when `read` of what was appended to `start` has been read.
pub record Follows (start : List ℕ) (first : List (List (List ℕ))) (appended read unread : List ℕ)
    (t : LogTail) : Type 0 where
  pub emitted : List (List (List ℕ))
  pub whole : appended ≡ read ++ unread
  pub at : t.offset ≡ length start + length read
  pub rest : t.partial ≡ (split_lines read).1
  pub chunks : t.chunks ≡ first ++ emitted
  pub lines : delivered emitted ≡ (split_lines read).0
  pub small : All SmallChunk emitted

delivered-append :
    (xs ys : List (List (List ℕ))) → delivered (xs ++ ys) ≡ delivered xs ++ delivered ys
unfolding delivered
delivered-append [] ys = refl
delivered-append (x ∷ xs) ys =
    ap (λ l. x ++ l) (delivered-append xs ys) ∙ sym (append_assoc x (delivered xs) (delivered ys))

-- A read of some of the bytes.
read_more-Follows :
    {start appended read : List ℕ} {first : List (List (List ℕ))} {t : LogTail} (got left : List ℕ)
    → Follows start first appended read (got ++ left) t
    → Follows start first appended (read ++ got) left (read_more t got)
unfolding read_more
read_more-Follows {read = read} {first = first} {t = t} got left h =
    let parts = split_lines (t.partial ++ got) in
    let new = cut_lines (length parts.0) parts.0 in
    let text : split_lines ((split_lines read).1 ++ got) ≡ parts =
      ap (λ p. split_lines (p ++ got)) (sym h.rest) in
    let cut = split_lines-append read got in
    record {
      emitted = h.emitted ++ new;
      whole = h.whole ∙ sym (append_assoc read got left);
      at = omega (arith, h.at, length-append read got);
      rest = sym (
          ap (λ (p : List (List ℕ) × List ℕ). p.1) cut
          ∙ ap (λ (p : List (List ℕ) × List ℕ). p.1) text);
      chunks = ap (λ l. l ++ new) h.chunks ∙ append_assoc first h.emitted new;
      lines =
          delivered-append h.emitted new
          ∙ ap (λ l. delivered h.emitted ++ l)
              (delivered-cut_lines (length parts.0) parts.0 (omega arith))
          ∙ ap (λ l. l ++ parts.0) h.lines
          ∙ sym (
              ap (λ (p : List (List ℕ) × List ℕ). p.0) cut
              ∙ ap (λ (p : List (List ℕ) × List ℕ). (split_lines read).0 ++ p.0) text);
      small =
          All-append SmallChunk h.emitted new h.small
            (cut_lines-SmallChunk (length parts.0) parts.0);
    }

pub grown :
    {start appended read unread : List ℕ} {first : List (List (List ℕ))} {t : LogTail}
    (more : List ℕ)
    → Follows start first appended read unread t
    → Follows start first (appended ++ more) read (unread ++ more) t
grown {read = read} {unread = unread} more h = record {
  emitted = h.emitted;
  whole = ap (λ l. l ++ more) h.whole ∙ append_assoc read unread more;
  at = h.at;
  rest = h.rest;
  chunks = h.chunks;
  lines = h.lines;
  small = h.small;
}

take_all : (xs : List ℕ) → take (length xs) xs ≡ xs
take_all [] = refl
take_all (x ∷ xs) = ap (◌∷◌ x) (take_all xs)

-- What is left of the file at the offset.
pub left_at :
    {start appended read unread : List ℕ} {first : List (List (List ℕ))} {t : LogTail}
    (content : List ℕ)
    → content ≡ start ++ appended
    → Follows start first appended read unread t
    → (drop t.offset content ≡ unread) × (length content ≡ t.offset + length unread)
left_at {start = start} {read = read} {unread = unread} {t = t} content e h =
    let at : t.offset ≡ length (start ++ read) = h.at ∙ sym (length-append start read) in
    let whole : content ≡ (start ++ read) ++ unread =
      e ∙ ap (λ l. start ++ l) h.whole ∙ sym (append_assoc start read unread) in
    (
      ap (drop t.offset) whole
          ∙ ap (λ n. drop n ((start ++ read) ++ unread)) at
          ∙ drop-append_left (start ++ read) unread,
      omega (arith, ap length whole, length-append (start ++ read) unread, at),
    )

none_left :
    {start appended read : List ℕ} {first : List (List (List ℕ))} {t : LogTail} (n : ℕ)
    → Follows start first appended read [] t
    → Follows start first appended (read ++ take n []) (drop n []) t
none_left {start} {appended} {read} {first} {t} zero h =
    subst (λ r. Follows start first appended r [] t) (sym (append-nil read)) h
none_left {start} {appended} {read} {first} {t} (suc n) h =
    subst (λ r. Follows start first appended r [] t) (sym (append-nil read)) h

-- A tick that looks at the file.
pub tick-Follows :
    {start appended read unread : List ℕ} {first : List (List (List ℕ))} {t : LogTail}
    (content : List ℕ) (n : ℕ)
    → content ≡ start ++ appended
    → Follows start first appended read unread t
    → Follows start first appended
        (read ++ take n unread)
        (drop n unread)
        (tick_tail t (view_of content (some n)))
unfolding tick_tail view_of tail_restarted tick_view read_view
tick-Follows {start} {appended} {read} {unread} {first} {t} content n e h =
    let (left, size) = left_at content e h in
    let same : ltb (length content) t.offset ≡ false = ground (arith, size) in
    let bytes : take (length content - t.offset) (drop t.offset content) ≡ unread =
      ap (take (length content - t.offset)) left
      ∙ ap (λ k. take k unread) (omega (arith, size))
      ∙ take_all unread in
    rw same (
      if_rule (Follows start first appended (read ++ take n unread) (drop n unread))
        (length content == t.offset) {x = t}
        {y = read_more t (take n (take (length content - t.offset) (drop t.offset content)))}
        (λ done.
          let nothing : unread ≡ [] = empty_if_no_length unread (ground (arith, size)) in
          subst (λ u. Follows start first appended (read ++ take n u) (drop n u) t) (sym nothing)
            (none_left n (subst (λ u. Follows start first appended read u t) nothing h)))
        (λ more.
          subst
            (λ got.
              Follows start first appended (read ++ take n unread) (drop n unread)
                (read_more t (take n got)))
            (sym bytes)
            (read_more-Follows (take n unread) (drop n unread) (
              subst (λ u. Follows start first appended read u t) (sym (take-append-drop n unread))
                h))))
