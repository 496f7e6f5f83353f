-- ===== src/Agent/Supervisor.antt =====
-- agent/internal/supervisor: supervisor.go's Stop and ReapOrphan, with the process groups of
-- proc_unix.go. Times are nanoseconds. The host answers by the time and by the signals that were sent
-- to the group so far.
pub mod Stopping
pub mod Escalation
mod Tests
use breakerbox.Prelude.{
  ℕ, zero, suc, ◌+◌, ◌-◌, ◌*◌, String, Bool, true, false, not, ◌&&◌, ◌||◌, List, [], ◌∷◌, Option,
  none, some, ltb, if◌then◌else◌, str_eq,
}
use breakerbox.Prelude.Int.{ℤ, pos, negsuc, eq_ℤ, ltb_ℤ, wrap, ◌*ℤ◌}
use breakerbox.Protocol.{StopSpec}

pub data Signal : Type 0 where
  sigint sigquit sighup sigterm sigkill : Signal

-- stopSignal
unfoldable pub stop_signal : String → Signal
stop_signal name =
    if str_eq name "SIGINT"
    then Signal.sigint
    else if str_eq name "SIGQUIT"
    then Signal.sigquit
    else if str_eq name "SIGHUP"
    then Signal.sighup
    else Signal.sigterm

-- The signals that reached the group, newest first, with their times.
abbrev pub Sent : Type 0
Sent = List (ℕ × Signal)

-- A line of ps, in its fields, with the group if strconv.Atoi reads it.
pub data PsLine : Type 0 where
  short : PsLine
  line : Option ℤ → String → PsLine

pub record Host : Type 0 where
  pub takes : Sent → ℕ → Signal → Bool  -- syscall.Kill(-pid, sig) does not fail
  pub probes : Sent → ℕ → Bool  -- syscall.Kill(-pid, 0) does not fail
  pub ps : Sent → ℕ → Option (List PsLine)
  pub name_matches : String → Bool  -- processNameMatches
  pub lag : ℕ → ℕ  -- how much longer than its sleep a round takes that begins at this time

-- strings.HasPrefix(stat, "Z")
unfoldable pub is_zombie : String → Bool
is_zombie String.[] = false
is_zombie (String.◌∷◌ c s) = str_eq (String.◌∷◌ c String.[]) "Z"

unfoldable pub is_member : ℤ → Option ℤ → String → Bool
unfolding is_zombie
is_member pid none stat = false
is_member pid (some g) stat = eq_ℤ g pid && not (is_zombie stat)

unfoldable pub count_members : ℤ → List PsLine → ℕ
unfolding is_member
count_members pid [] = 0
count_members pid (short ∷ lines) = count_members pid lines
count_members pid (line g stat ∷ lines) =
    let rest = count_members pid lines in if is_member pid g stat then suc rest else rest

-- liveGroupMembers
unfoldable pub live_group_members : ℤ → Option (List PsLine) → ℕ
unfolding count_members
live_group_members pid none = 1
live_group_members pid (some lines) = count_members pid lines

-- processGroupAlive
unfoldable pub is_group_alive : Host → ℤ → Sent → ℕ → Bool
unfolding live_group_members
is_group_alive h pid sent now = h.probes sent now && ltb 0 (live_group_members pid (h.ps sent now))

abbrev pub second_ns : ℕ
second_ns = 1_000_000_000

-- `time.Sleep(20 * time.Millisecond)`
abbrev pub poll_interval : ℕ
poll_interval = 20_000_000

-- The loop of waitTreeGone, with the time when it ends; none if the fuel runs out.
unfoldable pub poll_gone : ℕ → Host → ℤ → Sent → ℕ → ℕ → Option (Bool × ℕ)
unfolding is_group_alive
poll_gone zero h pid sent deadline now = none
poll_gone (suc fuel) h pid sent deadline now =
    let onward = poll_gone fuel h pid sent deadline (now + poll_interval + h.lag now) in
    if ltb now deadline
    then (if not (is_group_alive h pid sent now) then some (true, now) else onward)
    else some (not (is_group_alive h pid sent now), now)

-- `time.Now().Add(timeout)`
unfoldable pub deadline_of : ℕ → ℤ → ℕ
deadline_of now (pos n) = now + n
deadline_of now (negsuc n) = now - suc n

-- waitTreeGone
unfoldable pub wait_tree_gone : ℕ → Host → ℤ → Sent → ℕ → ℤ → Option (Bool × ℕ)
unfolding poll_gone deadline_of
wait_tree_gone fuel h pid sent now timeout = poll_gone fuel h pid sent (deadline_of now timeout) now

-- `timeout` of Stop, in 64 bits
unfoldable pub stop_timeout : Option StopSpec → ℤ
unfolding wrap ◌*ℤ◌
stop_timeout none = pos (10 * second_ns)
stop_timeout (some s) =
    if ltb_ℤ (pos 0) s.timeout_s then wrap (s.timeout_s *ℤ pos second_ns) else pos (10 * second_ns)

unfoldable pub stop_signal_of : Option StopSpec → Signal
unfolding stop_signal
stop_signal_of none = stop_signal ""
stop_signal_of (some s) = stop_signal s.signal

pub data StopResult : Type 0 where
  gone signal_failed kill_failed survived : StopResult

-- What a call comes to: its result, the signals sent by then, and the time.
abbrev pub Outcome : Type 0
Outcome = StopResult × Sent × ℕ

unfoldable pub waited : Sent → Option (Bool × ℕ) → Option Outcome
waited sent none = none
waited sent (some (true, now)) = some (gone, sent, now)
waited sent (some (false, now)) = some (survived, sent, now)

-- A signal that fails reaches nobody.
unfoldable pub signal_tree : Host → Sent → ℕ → Signal → Sent
signal_tree h sent now sig = if h.takes sent now sig then (now, sig) ∷ sent else sent

-- Stop from its escalation on
unfoldable pub escalate : ℕ → Host → ℤ → Sent → ℕ → Option Outcome
unfolding signal_tree wait_tree_gone waited
escalate fuel h pid sent now =
    let killed = signal_tree h sent now Signal.sigkill in
    if not (h.takes sent now Signal.sigkill) && is_group_alive h pid killed now
    then some (kill_failed, killed, now)
    else waited killed (wait_tree_gone fuel h pid killed now (pos (5 * second_ns)))

unfoldable pub after_wait : ℕ → Host → ℤ → Sent → Option (Bool × ℕ) → Option Outcome
unfolding escalate
after_wait fuel h pid sent none = none
after_wait fuel h pid sent (some (true, now)) = some (gone, sent, now)
after_wait fuel h pid sent (some (false, now)) = escalate fuel h pid sent now

-- Stop; a fuel that bounds the rounds of each wait
unfoldable pub stop_tree : ℕ → Host → ℤ → Option StopSpec → ℕ → Option Outcome
unfolding stop_signal_of signal_tree after_wait stop_timeout wait_tree_gone is_group_alive
stop_tree fuel h pid spec now =
    let sig = stop_signal_of spec in
    let sent = signal_tree h [] now sig in
    if h.takes [] now sig
    then after_wait fuel h pid sent (wait_tree_gone fuel h pid sent now (stop_timeout spec))
    else if not (is_group_alive h pid [] now)
    then some (gone, [], now)
    else some (signal_failed, [], now)

-- ReapOrphan, with the signals that it sent
unfoldable pub reap_orphan : ℕ → Host → ℤ → String → ℕ → Option (Bool × Sent × ℕ)
unfolding is_group_alive signal_tree wait_tree_gone
reap_orphan fuel h pid cmd_base now =
    if not (ltb_ℤ (pos 0) pid) || not (is_group_alive h pid [] now)
    then some (false, [], now)
    else if not (str_eq cmd_base "") && not (h.name_matches cmd_base)
    then some (false, [], now)
    else (let killed = signal_tree h [] now Signal.sigkill in
        elim (wait_tree_gone fuel h pid killed now (pos (5 * second_ns))) [
          | none ↦ none
          | some (b, t) ↦ some (b, killed, t)
        ])
