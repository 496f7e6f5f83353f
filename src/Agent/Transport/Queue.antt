-- ===== src/Agent/Transport/Queue.antt =====
-- What is left in the send queue of Conn.Send under backpressure.
use breakerbox.Prelude.{
  ◌-◌, ◌≤◌, ◌<◌, List, [], ◌∷◌, ◌++◌, ◌≡◌, refl, sym, ap, ◌∙◌, arith, ltb, length, drop,
  length-append, if_rule, subst,
}
use mathlib.Core.List.{append-nil, append_assoc}
use breakerbox.Agent.Daemon.Buffers.{keep_last}
use breakerbox.Agent.Daemon.Buffers.Bounds.{keep_last-append, keep_last-drop, keep_last-length}
use breakerbox.Agent.Transport.{enqueue, queue_size}

module _ {ℓ} {A : Type ℓ} where
  drop_one-append : (xs ys : List A) → 0 < length xs → drop 1 (xs ++ ys) ≡ drop 1 xs ++ ys
  drop_one-append [] ys h = absurd (omega arith)
  drop_one-append (x ∷ xs) ys h = refl

  enqueue-keep_last :
      (queue : List A) (b : A)
      → length queue ≤ queue_size
      → enqueue queue b ≡ keep_last queue_size (queue ++ b ∷ [])
  unfolding enqueue
  enqueue-keep_last queue b fits =
      let count = length-append queue (b ∷ []) in
      if_rule (λ q. q ≡ keep_last queue_size (queue ++ b ∷ [])) (ltb (length queue) queue_size)
        {x = queue ++ b ∷ []} {y = drop 1 queue ++ b ∷ []}
        (λ room.
          let none_over : length (queue ++ b ∷ []) - queue_size ≡ 0 = ground (arith, count) in
          sym (
            keep_last-drop queue_size (queue ++ b ∷ [])
            ∙ ap (λ k. drop k (queue ++ b ∷ [])) none_over))
        (λ full.
          let one_over : length (queue ++ b ∷ []) - queue_size ≡ 1 = ground (arith, count) in
          sym (
            keep_last-drop queue_size (queue ++ b ∷ [])
            ∙ ap (λ k. drop k (queue ++ b ∷ [])) one_over
            ∙ drop_one-append queue (b ∷ []) (ground arith)))

  pub enqueue_all : List A → List A → List A
  enqueue_all queue [] = queue
  enqueue_all queue (b ∷ bs) = enqueue_all (enqueue queue b) bs

  -- Frames that are sent while the writer is busy: the queue holds the newest 256 of what it was and
  -- what was sent since, in order, whatever their kinds.
  pub enqueue_all-keep_last :
      (bs queue past : List A)
      → queue ≡ keep_last queue_size past
      → enqueue_all queue bs ≡ keep_last queue_size (past ++ bs)
  unfolding enqueue_all
  enqueue_all-keep_last [] queue past q = q ∙ ap (keep_last queue_size) (sym (append-nil past))
  enqueue_all-keep_last (b ∷ bs) queue past q =
      let fits : length queue ≤ queue_size =
        subst (λ x. length x ≤ queue_size) (sym q) (keep_last-length queue_size past) in
      enqueue_all-keep_last bs (enqueue queue b) (past ++ b ∷ []) (
        enqueue-keep_last queue b fits
        ∙ ap (λ x. keep_last queue_size (x ++ b ∷ [])) q
        ∙ keep_last-append queue_size past b (omega arith))
      ∙ ap (keep_last queue_size) (append_assoc past (b ∷ []) bs)
