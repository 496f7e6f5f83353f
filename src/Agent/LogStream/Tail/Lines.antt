-- ===== src/Agent/LogStream/Tail/Lines.antt =====
-- What a viewer gets of a log file that its app only appends to.
use breakerbox.Prelude.{
  ℕ, zero, suc, ◌≤◌, List, [], ◌∷◌, ◌++◌, Option, none, some, ◌≡◌, refl, sym, ap, ◌∙◌, arith,
  length, take, drop, All, subst,
}
use breakerbox.Prelude.Int.{ℤ}
use mathlib.Core.List.{append_assoc, append-nil}
use breakerbox.Agent.TokenProxy.Sse.{split_lines}
use breakerbox.Agent.Docker.Follow.Frames.{delivered}
use breakerbox.Agent.LogStream.Tail.{LogTail, first_tail, tick_tail}
use breakerbox.Agent.LogStream.Tail.Cut.{SmallChunk}
use breakerbox.Agent.LogStream.Tail.Follows.{Follows, grown, left_at, tick-Follows, view_of}

-- The app appends `more`, then a tick comes: the file cannot be looked at, or Read gives some bytes.
pub record Write : Type 0 where
  pub more : List ℕ
  pub look : Option ℕ

unfoldable pub tail_writes : LogTail → List ℕ → List Write → LogTail
unfolding tick_tail view_of
tail_writes t content [] = t
tail_writes t content (w ∷ ws) =
    tail_writes (tick_tail t (view_of (content ++ w.more) w.look)) (content ++ w.more) ws

unfoldable pub written_by : List Write → List ℕ
written_by [] = []
written_by (w ∷ ws) = w.more ++ written_by ws

tick_any-Follows :
    {start appended read unread : List ℕ} {first : List (List (List ℕ))} {t : LogTail}
    (content : List ℕ) (look : Option ℕ)
    → content ≡ start ++ appended
    → Follows start first appended read unread t
    → (r : List ℕ) × (u : List ℕ) × Follows start first appended r u
        (tick_tail t (view_of content look))
unfolding tick_tail view_of
tick_any-Follows {read = read} {unread = unread} content none e h = (read, unread, h)
tick_any-Follows {read = read} {unread = unread} content (some n) e h =
    (read ++ take n unread, drop n unread, tick-Follows content n e h)

tail_writes-Follows :
    {start : List ℕ} {first : List (List (List ℕ))} (ws : List Write)
    {appended read unread : List ℕ} {t : LogTail} (content : List ℕ)
    → content ≡ start ++ appended
    → Follows start first appended read unread t
    → (r : List ℕ) × (u : List ℕ) × Follows start first
        (appended ++ written_by ws)
        r
        u
        (tail_writes t content ws)
unfolding tail_writes written_by tick_tail view_of
tail_writes-Follows {start} {first} [] {appended} {read} {unread} {t} content e h =
    (read, unread, subst (λ a. Follows start first a read unread t) (sym (append-nil appended)) h)
tail_writes-Follows {start} {first} (w ∷ ws) {appended} {t = t} content e h =
    let next = content ++ w.more in
    let longer : next ≡ start ++ (appended ++ w.more) =
      ap (λ l. l ++ w.more) e ∙ append_assoc start appended w.more in
    let (r1, u1, seen) = tick_any-Follows next w.look longer (grown w.more h) in
    let (r, u, held) = tail_writes-Follows ws next longer seen in
    (
      r,
      u,
      subst
          (λ a. Follows start first a r u (tail_writes (tick_tail t (view_of next w.look)) next ws))
          (append_assoc appended w.more (written_by ws)) held,
    )

first_tail-Follows :
    (n : ℤ) (start : List ℕ)
    → Follows start (first_tail n (some start)).chunks [] [] [] (first_tail n (some start))
unfolding first_tail split_lines delivered
first_tail-Follows n start = record {
  emitted = [];
  whole = refl;
  at = omega arith;
  rest = refl;
  chunks = sym (append-nil _);
  lines = refl;
  small = tt;
}

drop_past : (n : ℕ) (xs : List ℕ) → length xs ≤ n → drop n xs ≡ []
drop_past zero [] h = refl
drop_past zero (x ∷ xs) h = absurd (omega (arith, h))
drop_past (suc n) [] h = refl
drop_past (suc n) (x ∷ xs) h = drop_past n xs (omega (arith, h))

-- While the app only appends to its log, through ticks that cannot look at the file or read only a part
-- of it, a tick that reads up to the end brings what was emitted after the first tail to exactly the
-- complete lines of the bytes appended since then, in order, in chunks of at most 200 lines.
pub tail-lines :
    (n : ℤ) (start : List ℕ) (ws : List Write) (last : List ℕ)
    → let content = start ++ (written_by ws ++ last) in
      let t = tail_writes (first_tail n (some start)) start ws in
      (emitted : List (List (List ℕ))) × ((tick_tail t
          (view_of content (some (length content)))).chunks
        ≡ (first_tail n (some start)).chunks ++ emitted)
      × (delivered emitted ≡ (split_lines (written_by ws ++ last)).0)
      × All SmallChunk emitted
tail-lines n start ws last =
    let content = start ++ (written_by ws ++ last) in
    let (r, u, held) =
      tail_writes-Follows ws start (sym (append-nil start)) (first_tail-Follows n start) in
    let more = grown last held in
    let (left, size) = left_at content refl more in
    let seen = tick-Follows content (length content) refl more in
    let all_read : written_by ws ++ last ≡ r ++ take (length content) (u ++ last) =
      seen.whole
      ∙ ap (λ l. (r ++ take (length content) (u ++ last)) ++ l)
          (drop_past (length content) (u ++ last) (omega (arith, size)))
      ∙ append-nil (r ++ take (length content) (u ++ last)) in
    (seen.emitted, seen.chunks, seen.lines ∙ ap (λ s. (split_lines s).0) (sym all_read), seen.small)
