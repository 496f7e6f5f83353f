-- ===== src/Agent/Store/Spool/Queue.antt =====
-- The spool is a first-in first-out queue of operations.
use breakerbox.Prelude.{
  ℕ, ◌<◌, ◌≤◌, true, List, [], ◌∷◌, ◌++◌, ◌≡◌, refl, sym, ap, ◌∙◌, arith, All, All-append, subst,
}
use breakerbox.Agent.Store.Spool.{
  Codec, SpoolFile, drain, enqueue_op, file_name, is_before, keep_queued, op_of, read_ops,
  sort_files, write_hidden,
}
use breakerbox.Agent.Store.Spool.Names.{IsTime, file_name_order}
use breakerbox.Agent.Store.Spool.Files.{
  ready, Before, Ordered, enqueue_op-queued, file_of, files_of, keep_queued-left_over,
  sort_files-Ordered, write_hidden-queued,
}

-- What happens to the spool: a CLI invocation hands an operation over, or is cut off before its rename,
-- or the daemon drains the spool.
pub data SpoolEvent (A : Type 0) : Type 0 where
  queued torn : ℕ → A → SpoolEvent A
  drained : SpoolEvent A

module _ {A : Type 0} (codec : Codec A) where
  -- The operations that each drain returns.
  unfoldable pub run_spool : List SpoolFile → List (SpoolEvent A) → List (List A)
  unfolding enqueue_op write_hidden drain
  run_spool dir [] = []
  run_spool dir (queued now op ∷ events) = run_spool (enqueue_op codec now op dir) events
  run_spool dir (torn now op ∷ events) = run_spool (write_hidden codec now op dir) events
  run_spool dir (drained ∷ events) =
      (drain codec ready dir).0 ∷ run_spool (drain codec ready dir).1 events

module _ {A : Type 0} where
  -- The queue that the spool implements.
  pub run_queue : List A → List (SpoolEvent A) → List (List A)
  run_queue queue [] = []
  run_queue queue (queued now op ∷ events) = run_queue (queue ++ op ∷ []) events
  run_queue queue (torn now op ∷ events) = run_queue queue events
  run_queue queue (drained ∷ events) = queue ∷ run_queue [] events

  -- The clock moves on between the operations, which are queued at times of 19 digits.
  abbrev pub Ascends : ℕ → List (SpoolEvent A) → Type 0
  Ascends last [] = Unit
  Ascends last (queued now op ∷ events) = (last < now) × IsTime now × Ascends now events
  Ascends last (torn now op ∷ events) = Ascends last events
  Ascends last (drained ∷ events) = Ascends last events

-- What is queued: at times of 19 digits, in their order.
abbrev InOrder : {A : Type 0} → List (ℕ × A) → Type 0
InOrder [] = Unit
InOrder (x ∷ q) = All (λ y. x.0 < y.0) q × IsTime x.0 × InOrder q

abbrev UpTo : {A : Type 0} → ℕ → List (ℕ × A) → Type 0
UpTo last = All (λ x. (x.0 ≤ last) × IsTime x.0)

ops_of : {A : Type 0} → List (ℕ × A) → List A
ops_of [] = []
ops_of ((now, op) ∷ q) = op ∷ ops_of q

UpTo-later : {A : Type 0} (last now : ℕ) (q : List (ℕ × A)) → last < now → UpTo last q → UpTo now q
UpTo-later last now [] lt h = tt
UpTo-later last now (x ∷ q) lt h = ((omega arith, h.0.1), UpTo-later last now q lt h.1)

InOrder-append :
    {A : Type 0} (last now : ℕ) (op : A) (q : List (ℕ × A))
    → last < now
    → IsTime now
    → UpTo last q
    → InOrder q
    → InOrder (q ++ (now, op) ∷ [])
InOrder-append last now op [] lt time h o = (tt, time, tt)
InOrder-append last now op (x ∷ q) lt time h o = (
  All-append (λ y. x.0 < y.0) q ((now, op) ∷ []) o.0 (omega arith, tt),
  o.1,
  InOrder-append last now op q lt time h.1 o.2,
)

module _ {A : Type 0} (codec : Codec A) where
  files_of-append :
      (q r : List (ℕ × A)) → files_of codec (q ++ r) ≡ files_of codec q ++ files_of codec r
  unfolding files_of
  files_of-append [] r = refl
  files_of-append (x ∷ q) r = ap (λ l. file_of codec x ∷ l) (files_of-append q r)

  files_of-last :
      (now : ℕ) (op : A) (q : List (ℕ × A))
      → files_of codec (q ++ (now, op) ∷ []) ≡ files_of codec q ++ file_of codec (now, op) ∷ []
  unfolding files_of
  files_of-last now op q = files_of-append q ((now, op) ∷ [])

  files_of-Before :
      (last now : ℕ) (verb : List ℕ) (q : List (ℕ × A))
      → last < now
      → IsTime now
      → UpTo last q
      → Before (file_name now verb) (files_of codec q)
  unfolding files_of
  files_of-Before last now verb [] lt time h = tt
  files_of-Before last now verb ((t, op) ∷ q) lt time h = (
    file_name_order t now (codec.verb op) verb h.0.1 time (omega arith),
    files_of-Before last now verb q lt time h.1,
  )

  files_of-first :
      (t : ℕ) (op : A) (q : List (ℕ × A))
      → IsTime t
      → All (λ y. t < y.0) q
      → InOrder q
      → All (λ g. is_before (file_of codec (t, op)).name g.name ≡ true) (files_of codec q)
  unfolding files_of
  files_of-first t op [] time h o = tt
  files_of-first t op ((u, x) ∷ q) time h o = (
    file_name_order t u (codec.verb op) (codec.verb x) time o.1 h.0,
    files_of-first t op q time h.1 o.2,
  )

  files_of-Ordered : (q : List (ℕ × A)) → InOrder q → Ordered (files_of codec q)
  unfolding files_of Ordered
  files_of-Ordered [] o = tt
  files_of-Ordered ((t, op) ∷ q) o = (files_of-first t op q o.1 o.0 o.2, files_of-Ordered q o.2)

  read_ops-files_of : (q : List (ℕ × A)) → read_ops codec ready (files_of codec q) ≡ ops_of q
  unfolding files_of read_ops op_of ops_of
  read_ops-files_of [] = refl
  read_ops-files_of ((t, op) ∷ q) =
      rw (codec.decode_encode op) (ap (λ l. op ∷ l) (read_ops-files_of q))

  drain-ops :
      (dir : List SpoolFile) (q : List (ℕ × A))
      → keep_queued dir ≡ files_of codec q
      → InOrder q
      → (drain codec ready dir).0 ≡ ops_of q
  unfolding drain
  drain-ops dir q e o =
      ap (λ files. read_ops codec ready (sort_files files)) e
      ∙ ap (read_ops codec ready) (sort_files-Ordered (files_of codec q) (files_of-Ordered q o))
      ∙ read_ops-files_of q

  drain-nothing : (dir : List SpoolFile) → keep_queued (drain codec ready dir).1 ≡ files_of codec []
  unfolding drain files_of
  drain-nothing dir = keep_queued-left_over dir

  ops_of-append :
      (now : ℕ) (op : A) (q : List (ℕ × A)) → ops_of (q ++ (now, op) ∷ []) ≡ ops_of q ++ op ∷ []
  unfolding ops_of
  ops_of-append now op [] = refl
  ops_of-append now op (x ∷ q) = ap (λ l. x.1 ∷ l) (ops_of-append now op q)

  holds_queue :
      (events : List (SpoolEvent A)) (dir : List SpoolFile) (q : List (ℕ × A)) (last : ℕ)
      → keep_queued dir ≡ files_of codec q
      → InOrder q
      → UpTo last q
      → Ascends last events
      → run_spool codec dir events ≡ run_queue (ops_of q) events
  unfolding run_spool run_queue ops_of
  holds_queue [] dir q last e o up asc = refl
  holds_queue (queued now op ∷ events) dir q last e o up asc =
      let new = q ++ (now, op) ∷ [] in
      let before =
        subst (Before (file_name now (codec.verb op))) (sym e)
          (files_of-Before last now (codec.verb op) q asc.0 asc.1 up) in
      holds_queue events (enqueue_op codec now op dir) new now
        (enqueue_op-queued codec now op dir before
          ∙ ap (λ l. l ++ file_of codec (now, op) ∷ []) e
          ∙ sym (files_of-last now op q))
        (InOrder-append last now op q asc.0 asc.1 up o)
        (All-append (λ x. (x.0 ≤ now) × IsTime x.0) q ((now, op) ∷ [])
          (UpTo-later last now q asc.0 up) ((omega arith, asc.1), tt))
        asc.2
      ∙ ap (λ ops. run_queue ops events) (ops_of-append now op q)
  holds_queue (torn now op ∷ events) dir q last e o up asc =
      holds_queue events (write_hidden codec now op dir) q last
        (write_hidden-queued codec now op dir ∙ e) o up asc
  holds_queue (drained ∷ events) dir q last e o up asc =
      ap (λ ops. ops ∷ run_spool codec (drain codec ready dir).1 events) (drain-ops dir q e o)
      ∙ ap (λ outs. ops_of q ∷ outs)
          (holds_queue events (drain codec ready dir).1 [] last (drain-nothing dir) tt tt asc)

  -- With a clock that moves on between the operations, in the years 2001 to 2286, where all files can be
  -- read and removed, the spool is a first-in first-out queue: each drain returns what was queued since
  -- the last one, in order, and what was cut off before its rename is not seen.
  pub spool-refines_queue :
      (events : List (SpoolEvent A))
      → Ascends 0 events
      → run_spool codec [] events ≡ run_queue [] events
  unfolding keep_queued files_of ops_of
  spool-refines_queue events asc = holds_queue events [] [] 0 refl tt tt asc
