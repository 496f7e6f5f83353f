-- ===== src/Agent/Daemon/Buffers/Bounds.antt =====
-- How much loops.go and tokens.go keep while the hub cannot be reached, and what they lose.
use breakerbox.Prelude.{
  ℕ, zero, suc, ◌+◌, ◌-◌, ◌≤◌, ◌<◌, Bool, false, List, [], ◌∷◌, ◌++◌, ◌≡◌, refl, arith, ltb,
  if_rule, length, drop, length-drop, length-append, ap, sym, ◌∙◌,
}
use mathlib.Core.List.{append-nil, append_assoc}
use native.Mathlib.Numerals.{unary_clauses}
use breakerbox.Protocol.{MetricsBatch, TokenUsageRow}
use breakerbox.Agent.Daemon.State.{Daemon, send}
use breakerbox.Agent.Daemon.Buffers.{
  max_buffered_batches, max_proxy_buffer, keep_last, flush_backlog, send_metrics, emit_token_rows,
  queue_proxy_rows,
}

module _ {ℓ} {A : Type ℓ} where
  pub keep_last-drop : (max : ℕ) (xs : List A) → keep_last max xs ≡ drop (length xs - max) xs
  unfolding keep_last
  keep_last-drop max xs =
      if_rule (λ ys. ys ≡ drop (length xs - max) xs) (ltb max (length xs))
        {x = drop (length xs - max) xs} {y = xs} (λ over. refl)
        (λ fits.
          let none_over : length xs - max ≡ 0 = ground arith in sym (ap (λ k. drop k xs) none_over))

  pub keep_last-length : (max : ℕ) (xs : List A) → length (keep_last max xs) ≤ max
  keep_last-length max xs =
      rw (keep_last-drop max xs) (omega (arith, length-drop (length xs - max) xs))

  drop-append : (k : ℕ) (xs ys : List A) → k ≤ length xs → drop k (xs ++ ys) ≡ drop k xs ++ ys
  drop-append zero xs ys h = refl
  drop-append (suc k) [] ys h = absurd (omega arith)
  drop-append (suc k) (x ∷ xs) ys h = drop-append k xs ys (omega arith)

  drop-drop : (j k : ℕ) (xs : List A) → drop j (drop k xs) ≡ drop (k + j) xs
  drop-drop j zero xs = let same : j ≡ 0 + j = omega arith in ap (λ n. drop n xs) same
  drop-drop zero (suc k) [] = simp unary_clauses refl
  drop-drop (suc j) (suc k) [] = simp unary_clauses refl
  drop-drop j (suc k) (x ∷ xs) =
      let sums : suc (k + j) ≡ suc k + j = omega arith in
      drop-drop j k xs ∙ ap (λ n. drop n (x ∷ xs)) sums

  -- Cutting after each addition keeps what one cut at the end keeps.
  pub keep_last-append :
      (max : ℕ) (xs : List A) (x : A)
      → 0 < max
      → keep_last max (keep_last max xs ++ x ∷ []) ≡ keep_last max (xs ++ x ∷ [])
  keep_last-append max xs x some_room =
      let k = length xs - max in
      let j = length (drop k xs ++ x ∷ []) - max in
      let l1 = length-drop k xs in
      let l2 = length-append (drop k xs) (x ∷ []) in
      let l3 = length-append xs (x ∷ []) in
      let ends : k + j ≡ length (xs ++ x ∷ []) - max = omega (arith, l1, l2, l3) in
      let fits : j ≤ length (drop k xs) = omega (arith, l1, l2) in
      let within : k + j ≤ length xs = omega (arith, l1, l2) in
      ap (λ ys. keep_last max (ys ++ x ∷ [])) (keep_last-drop max xs)
      ∙ keep_last-drop max (drop k xs ++ x ∷ [])
      ∙ drop-append j (drop k xs) (x ∷ []) fits
      ∙ ap (λ ys. ys ++ x ∷ []) (drop-drop j k xs)
      ∙ sym (drop-append (k + j) xs (x ∷ []) within)
      ∙ ap (λ n. drop n (xs ++ x ∷ [])) ends
      ∙ sym (keep_last-drop max (xs ++ x ∷ []))

module _ {F : Type 0} where
  -- The backlogs are within their limits, 240 metrics batches and 5000 usage rows.
  abbrev pub Bounded : Daemon F → Type 0
  Bounded d =
      (length d.metrics_buf ≤ max_buffered_batches) × (length d.proxy_rows_buf ≤ max_proxy_buffer)

  -- Sampling and metering never let a backlog grow beyond its limit, whatever the connection does.
  pub sampled-Bounded :
      (accepted : Bool) (d : Daemon F) (batch : MetricsBatch F) (rows : List TokenUsageRow)
      → Bounded d
      → Bounded (send_metrics d batch) × Bounded (queue_proxy_rows accepted d rows)
  unfolding send_metrics queue_proxy_rows emit_token_rows flush_backlog send
  sampled-Bounded accepted d batch rows h =
      let b_le = keep_last-length max_buffered_batches (d.metrics_buf ++ batch ∷ []) in
      let r_le = keep_last-length max_proxy_buffer (d.proxy_rows_buf ++ rows) in ground arith

  send_metrics_offline :
      (d : Daemon F) (b : MetricsBatch F)
      → d.online ≡ false
      → send_metrics d b
        ≡ record d { metrics_buf = keep_last max_buffered_batches (d.metrics_buf ++ b ∷ []) }
  unfolding send_metrics
  send_metrics_offline d b off = ground arith

  pub sample_all : Daemon F → List (MetricsBatch F) → Daemon F
  sample_all d [] = d
  sample_all d (b ∷ bs) = sample_all (send_metrics d b) bs

  -- Without a connection, samples are kept up to the limit: the backlog is the newest 240 batches of
  -- what it was and what was sampled since, oldest first, and no frame is sent.
  pub offline_backlog :
      (batches past : List (MetricsBatch F)) (d : Daemon F)
      → d.online ≡ false
      → d.metrics_buf ≡ keep_last max_buffered_batches past
      → ((sample_all d batches).metrics_buf ≡ keep_last max_buffered_batches (past ++ batches))
        × ((sample_all d batches).sent ≡ d.sent)
  unfolding sample_all send_metrics
  offline_backlog [] past d off kept =
      (kept ∙ ap (keep_last max_buffered_batches) (sym (append-nil past)), refl)
  offline_backlog (b ∷ bs) past d off kept =
      let one = send_metrics_offline d b off in
      let buffered =
        ap (λ (x : Daemon F). x.metrics_buf) one
        ∙ ap (λ ys. keep_last max_buffered_batches (ys ++ b ∷ [])) kept
        ∙ keep_last-append max_buffered_batches past b (omega arith) in
      let ih =
        offline_backlog bs (past ++ b ∷ []) (send_metrics d b)
          (ap (λ (x : Daemon F). x.online) one ∙ off) buffered in
      (
        ih.0 ∙ ap (keep_last max_buffered_batches) (append_assoc past (b ∷ []) bs),
        ih.1 ∙ ap (λ (x : Daemon F). x.sent) one,
      )
