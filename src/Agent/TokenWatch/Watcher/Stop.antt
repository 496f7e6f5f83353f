-- ===== src/Agent/TokenWatch/Watcher/Stop.antt =====
-- What is pending when the watcher is stopped.
use breakerbox.Prelude.{
  ℕ, ◌≤◌, String, true, false, List, [], ◌∷◌, Option, none, some, ◌≡◌, refl, sym, ap, ◌∙◌, arith,
  ltb, length, drop, if_rule, ◌==◌,
}
use mathlib.Core.List.{append-nil}
use breakerbox.Prelude.Dict
use breakerbox.Agent.TokenProxy.Sse.{split_lines}
use breakerbox.Agent.Docker.Follow.Frames.{rest_has_no_line}
use breakerbox.Agent.TokenWatch.Watcher.{
  Answers, Reader, Tool, Watcher, checkpoint_of, save_checkpoints, tail_lines, tail_opened, rewound,
  tail_file, tail_view, max_backfill_size, with_checkpoint, set_offset, Checkpoint,
}
use breakerbox.Agent.TokenWatch.Watcher.Tail.{line_bytes, drop_complete, line_bytes-split}
use breakerbox.Agent.TokenWatch.Watcher.Scan.{file_of, opened-offset}
use breakerbox.Agent.TokenWatch.Watcher.Harvest.{
  Tick, IsModest, watch, written, new_watcher, watch-HasRead_new,
}
use breakerbox.Agent.TokenWatch.Watcher.Run.{done, restart, run_loop}

abbrev Quiet : Watcher → Watcher → Type 0
Quiet w v = (v.delivered ≡ w.delivered) × (v.pending ≡ w.pending)

opened-Quiet :
    (w : Watcher) (path : String) (size : ℕ) (o : Option Checkpoint)
    → Quiet w (with_checkpoint w path Tool.claude size o)
unfolding with_checkpoint
opened-Quiet w path size none = (refl, refl)
opened-Quiet w path size (some cp) = (refl, refl)

no_lines-Quiet :
    (r : Reader) (a : Answers) (path : String) (w : Watcher) (n : ℕ) (lines : List (List ℕ))
    → lines ≡ []
    → Quiet w (tail_lines r a w path Tool.claude n lines)
unfolding tail_lines set_offset
no_lines-Quiet r a path w n [] e = (refl, refl)
no_lines-Quiet r a path w n (l ∷ lines) e = cc

opened_file-Quiet :
    (r : Reader) (a : Answers) (path : String) (content : List ℕ) (w : Watcher)
    → (checkpoint_of w path).offset ≡ line_bytes (split_lines content).0
    → Quiet w (tail_opened r a w path Tool.claude (some content))
unfolding tail_opened
opened_file-Quiet r a path content w at =
    let offset = (checkpoint_of w path).offset in
    let rest : drop offset content ≡ (split_lines content).1 =
      ap (λ n. drop n content) at
      ∙ ap (drop (line_bytes (split_lines content).0)) (sym (append-nil content))
      ∙ drop_complete content []
      ∙ append-nil (split_lines content).1 in
    no_lines-Quiet r a path w offset (split_lines (drop offset content)).0 (
      ap (λ s. (split_lines s).0) rest
      ∙ ap (λ (p : List (List ℕ) × List ℕ). p.0) (rest_has_no_line content))

-- Nothing is new to a watcher whose checkpoint stands behind the complete lines of the file.
nothing_new :
    (r : Reader) (a : Answers) (path : String) (content : List ℕ) (w : Watcher)
    → length content ≤ max_backfill_size
    → (checkpoint_of w path).offset ≡ line_bytes (split_lines content).0
    → Quiet w (tail_file r a w path Tool.claude (file_of content))
unfolding tail_file tail_view rewound
nothing_new r a path content w small at =
    let size = length content in
    let o = Dict.get w.checkpoints path in
    let w1 = with_checkpoint w path Tool.claude size o in
    let quiet = opened-Quiet w path size o in
    let at1 : (checkpoint_of w1 path).offset ≡ line_bytes (split_lines content).0 =
      opened-offset w path size o small refl ∙ at in
    let whole : ltb size (checkpoint_of w1 path).offset ≡ false =
      ground (arith, at1, line_bytes-split content) in
    rw whole (
      if_rule (Quiet w) (size == (checkpoint_of w1 path).offset) {x = w1} (λ _. quiet)
        (λ _.
          let read = opened_file-Quiet r a path content w1 at1 in
          (read.0 ∙ quiet.0, read.1 ∙ quiet.1)))

rewound-offset :
    (a : Answers) (w : Watcher) (path : String)
    → a.writes w.checkpoints ≡ true
    → (checkpoint_of (restart (save_checkpoints a w)) path).offset ≡ (checkpoint_of w path).offset
unfolding restart save_checkpoints checkpoint_of
rewound-offset a w path written = rw written refl

rewound-Quiet :
    (a : Answers) (w : Watcher)
    → ((restart (save_checkpoints a w)).delivered ≡ w.delivered)
      × ((restart (save_checkpoints a w)).pending ≡ [])
unfolding restart save_checkpoints
rewound-Quiet a w = ground arith

-- The end of Run saves the checkpoints without a flush: the rows that are pending then, of a modest
-- transcript, are not delivered before, and after a restart the scan of the same file does not find
-- them again.
pub stop-lost :
    (r : Reader) (a : Answers) (path : String) (ticks : List Tick)
    → IsModest r (written ticks)
    → a.writes (watch r path [] new_watcher ticks).checkpoints ≡ true
    → let w = watch r path [] new_watcher ticks in
      let v =
        tail_file r a
          (restart (run_loop r w (done a ∷ [])))
          path
          Tool.claude
          (file_of (written ticks)) in
      (v.delivered ≡ w.delivered) × (v.pending ≡ [])
unfolding run_loop
stop-lost r a path ticks m stored =
    let w = watch r path [] new_watcher ticks in
    let quiet =
      nothing_new r a path (written ticks) (restart (save_checkpoints a w)) m.small
        (rewound-offset a w path stored ∙ (watch-HasRead_new r path ticks m).at) in
    let fresh = rewound-Quiet a w in (quiet.0 ∙ fresh.0, quiet.1 ∙ fresh.1)
